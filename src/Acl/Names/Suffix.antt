-- ===== src/Acl/Names/Suffix.antt =====
-- What `strings.HasSuffix` tests.
use wanopt_proxy.Common.{
  ℕ, ◌-◌, ◌≡◌, ap, sym, ◌∙◌, ◌↔◌, arith, true, ◌&&◌, List, ◌++◌, length, length-append, drop, take,
  drop-append, take-append-drop, leb, le→leb, bytes_eq, bytes_eq→eq, bytes_eq_refl,
}
use wanopt_proxy.Acl.Names.{has_suffix}

-- A text has a suffix exactly when it is some text followed by it.
pub has_suffix_iff :
    (s suffix : List ℕ) → (has_suffix s suffix ≡ true) ↔ ((front : List ℕ) × (s ≡ front ++ suffix))
unfolding has_suffix
has_suffix_iff s suffix = (split_off, joined)
  where
    split_off :
        (leb (length suffix) (length s) && bytes_eq (drop (length s - length suffix) s) suffix)
          ≡ true
        → (front : List ℕ) × (s ≡ front ++ suffix)
    split_off h =
        let back : drop (length s - length suffix) s ≡ suffix =
          bytes_eq→eq (drop (length s - length suffix) s) suffix (ground arith) in
        (
          take (length s - length suffix) s,
          sym (take-append-drop (length s - length suffix) s)
              ∙ ap (λ t. take (length s - length suffix) s ++ t) back,
        )

    at_end :
        (front : List ℕ)
        → drop (length (front ++ suffix) - length suffix) (front ++ suffix) ≡ suffix
    at_end front =
        let n : length (front ++ suffix) - length suffix ≡ length front =
          omega (arith, length-append front suffix) in
        rw n (drop-append front suffix)

    joined :
        ((front : List ℕ) × (s ≡ front ++ suffix))
        → (leb (length suffix) (length s) && bytes_eq (drop (length s - length suffix) s) suffix)
          ≡ true
    joined (front, e) =
        rw
          (
            e,
            le→leb (length suffix) (length (front ++ suffix))
                (omega (arith, length-append front suffix)),
            at_end front,
          )
          (bytes_eq_refl suffix)
