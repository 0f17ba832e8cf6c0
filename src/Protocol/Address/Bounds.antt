-- ===== src/Protocol/Address/Bounds.antt =====
-- The sizes of a valid address and of its wire form.
use wanopt_proxy.Common.{
  ℕ, ◌+◌, ◌≤◌, ◌≡◌, refl, arith, true, Option, none, some, List, [], ◌∷◌, ◌++◌, inl, inr, length,
  length-append, ◌==◌, Bool-cases, Option-cases, append_assoc, ◌||◌, ◌⊎◌, ◌%◌,
}
use wanopt_proxy.Net.{Net, to4, to16, length-to4, length-to16, is_some}
use wanopt_proxy.Protocol.Address.{
  Address, validate, valid_host, trim_dot, encode, be16, atyp_ipv4, atyp_ipv6, atyp_domain,
}

length-trim_dot : (h : List ℕ) → length h ≤ length (trim_dot h) + 1
unfolding trim_dot
length-trim_dot [] = omega arith
length-trim_dot (c ∷ []) = ground arith
length-trim_dot (c ∷ d ∷ h) = omega (arith, length-trim_dot (d ∷ h))

pub length-valid_host : (h : List ℕ) → valid_host h ≡ true → length h ≤ 254
unfolding valid_host
length-valid_host h v = ground (arith, length-trim_dot h)

is_some_value {ℓ} : {A : Type ℓ} (o : Option A) → is_some o ≡ true → (a : A) × (o ≡ some a)
is_some_value none h = cc
is_some_value (some a) h = (a, refl)

-- The three kinds of a valid address, with what its wire form is made of.
pub data ValidForm (a : Address) : Type 0 where
  ipv4 : a.atyp ≡ atyp_ipv4 → (v4 : List ℕ) → to4 a.ip ≡ some v4 → length v4 ≡ 4 → ValidForm a
  ipv6 : a.atyp ≡ atyp_ipv6 → (v6 : List ℕ) → to16 a.ip ≡ some v6 → length v6 ≡ 16 → ValidForm a
  domain : a.atyp ≡ atyp_domain → length a.host ≤ 254 → ValidForm a

module _ (net : Net) where
  host_fits : (h : List ℕ) → (is_some (net.parse_ip h) || valid_host h) ≡ true → length h ≤ 254
  host_fits h v = elim (Option-cases (net.parse_ip h)) [
    | inl named ↦ length-valid_host h (rw named at v)
    | inr (ip, literal) ↦ omega (arith, net.parse_ip-text h ip literal)
  ]

  validate_step :
      (a : Address)
      → validate net a ≡ true
      → ((a.atyp ≡ atyp_ipv4) × (is_some (to4 a.ip) ≡ true))
        ⊎ ((a.atyp ≡ atyp_ipv6) × (is_some (to16 a.ip) ≡ true))
        ⊎ ((a.atyp ≡ atyp_domain) × ((is_some (net.parse_ip a.host) || valid_host a.host) ≡ true))
  unfolding validate
  validate_step a v = ground arith

  pub valid_form : (a : Address) → validate net a ≡ true → ValidForm a
  valid_form a v = elim (validate_step a v) [
    | inl (t, s) ↦ let (v4, e) = is_some_value (to4 a.ip) s in ipv4 t v4 e (length-to4 a.ip v4 e)
    | inr (inl (t, s)) ↦
        let (v6, e) = is_some_value (to16 a.ip) s in ipv6 t v6 e (length-to16 a.ip v6 e)
    | inr (inr (t, s)) ↦ domain t (host_fits a.host s)
  ]

-- The wire form in each case.
pub encode_ipv4 :
    (a : Address) (b v4 : List ℕ)
    → a.atyp ≡ atyp_ipv4
    → to4 a.ip ≡ some v4
    → encode a b ≡ (b ++ (atyp_ipv4 ∷ v4)) ++ be16 a.port
unfolding encode
encode_ipv4 a b v4 t e = rw (t, e)

pub encode_ipv6 :
    (a : Address) (b v6 : List ℕ)
    → a.atyp ≡ atyp_ipv6
    → to16 a.ip ≡ some v6
    → encode a b ≡ (b ++ (atyp_ipv6 ∷ v6)) ++ be16 a.port
unfolding encode
encode_ipv6 a b v6 t e = rw (t, e)

pub encode_domain :
    (a : Address) (b : List ℕ)
    → a.atyp ≡ atyp_domain
    → length a.host ≤ 254
    → encode a b ≡ (b ++ (atyp_domain ∷ length a.host ∷ a.host)) ++ be16 a.port
unfolding encode
encode_domain a b t h = rw (t, small)
  where
    small : length a.host % 256 ≡ length a.host
    small = omega arith

-- `Encode` appends to what the buffer holds.
pub encode-append : (a : Address) (b : List ℕ) → encode a b ≡ b ++ encode a []
unfolding encode
encode-append a b = elim (Bool-cases (a.atyp == atyp_ipv4)) [
  | inl t ↦ rw t (append_assoc b _ _)
  | inr n4 ↦ rw n4 (elim (Bool-cases (a.atyp == atyp_ipv6)) [
    | inl t ↦ rw t (append_assoc b _ _)
    | inr n6 ↦ rw n6 (elim (Bool-cases (a.atyp == atyp_domain)) [
      | inl t ↦ rw t (append_assoc b _ _)
      | inr nd ↦ rw nd
    ])
  ])
]

module _ (net : Net) where
  form-length :
      (a : Address) → ValidForm a → (4 ≤ length (encode a [])) × (length (encode a []) ≤ 258)
  form-length a (ipv4 t v4 e s) =
      rw (encode_ipv4 a [] v4 t e) (omega (arith, length-append v4 (be16 a.port)))
  form-length a (ipv6 t v6 e s) =
      rw (encode_ipv6 a [] v6 t e) (omega (arith, length-append v6 (be16 a.port)))
  form-length a (domain t h) =
      rw (encode_domain a [] t h) (omega (arith, length-append a.host (be16 a.port)))

  -- A valid address takes 4 to 258 bytes on the wire.
  pub length-encode :
      (a : Address)
      → validate net a ≡ true
      → (4 ≤ length (encode a [])) × (length (encode a []) ≤ 258)
  length-encode a v = form-length a (valid_form net a v)
