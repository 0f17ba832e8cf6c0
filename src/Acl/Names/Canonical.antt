-- ===== src/Acl/Names/Canonical.antt =====
-- A valid name is its own canonical form.
use wanopt_proxy.Common.{
  ℕ, ◌<◌, ◌≡◌, refl, ap, arith, Bool, true, false, not, ◌&&◌, ◌||◌, List, [], ◌∷◌, map, length, all,
  ltb, ◌==◌, ap,
}
use mathlib.Core.Path.{ap₂}
use wanopt_proxy.Net.{Net}
use wanopt_proxy.Protocol.Address.{trim_dot, split, split_cons}
use wanopt_proxy.Acl.Names.{canonical_name, valid_name, name_label, name_char, is_ascii, lower}

abbrev filled : List ℕ → Bool
filled l = not (length l == 0)

abbrev tail : List (List ℕ) → List (List ℕ)
tail [] = []
tail (p ∷ ps) = ps

abbrev plain : ℕ → Bool
plain c = name_char c || c == b'.'

tail_step :
    (c : ℕ) (ps : List (List ℕ))
    → all filled (tail (split_cons b'.' c ps)) ≡ true
    → all filled (tail ps) ≡ true
tail_step c [] h = refl
tail_step c (p ∷ ps) h = ground arith

-- A text whose pieces behind the first dot are not empty does not end in a dot.
trim_dot_self : (s : List ℕ) → all filled (tail (split b'.' s)) ≡ true → trim_dot s ≡ s
unfolding trim_dot split
trim_dot_self [] h = refl
trim_dot_self (c ∷ []) h = ground arith
trim_dot_self (c ∷ d ∷ s) h =
    ap (λ t. c ∷ t) (trim_dot_self (d ∷ s) (tail_step c (split b'.' (d ∷ s)) h))

pieces_step :
    (c : ℕ) (ps : List (List ℕ))
    → 0 < length ps
    → all (all name_char) (split_cons b'.' c ps) ≡ true
    → (plain c ≡ true) × (all (all name_char) ps ≡ true)
pieces_step c [] n h = absurd (omega arith)
pieces_step c (p ∷ ps) n h = ground arith

split-pos : (s : List ℕ) → 0 < length (split b'.' s)
unfolding split
split-pos [] = omega arith
split-pos (c ∷ s) = go (split b'.' s) (split-pos s)
  where
    go : (ps : List (List ℕ)) → 0 < length ps → 0 < length (split_cons b'.' c ps)
    go [] h = h
    go (p ∷ ps) h = ground arith

pieces_plain : (s : List ℕ) → all (all name_char) (split b'.' s) ≡ true → all plain s ≡ true
unfolding split
pieces_plain [] h = refl
pieces_plain (c ∷ s) h =
    let (a, b) = pieces_step c (split b'.' s) (split-pos s) h in rw (a, pieces_plain s b)

labels_chars : (ls : List (List ℕ)) → all name_label ls ≡ true → all (all name_char) ls ≡ true
labels_chars [] h = refl
labels_chars (l ∷ ls) h = ground (arith, labels_chars ls)

all-filled : (ls : List (List ℕ)) → all name_label ls ≡ true → all filled ls ≡ true
all-filled [] h = refl
all-filled (l ∷ ls) h = ground (arith, all-filled ls)

labels_filled : (ls : List (List ℕ)) → all name_label ls ≡ true → all filled (tail ls) ≡ true
labels_filled [] h = refl
labels_filled (l ∷ []) h = refl
labels_filled (l ∷ m ∷ ls) h = all-filled (m ∷ ls) (ground arith)

and_parts : (a b : Bool) → (a && b) ≡ true → (a ≡ true) × (b ≡ true)
and_parts true b h = (refl, h)
and_parts false b h = absurd (cc h)

plain_char_ascii : (c : ℕ) → plain c ≡ true → is_ascii c ≡ true
plain_char_ascii c h = ground arith

plain_char_lower : (c : ℕ) → plain c ≡ true → lower c ≡ c
plain_char_lower c h = ground arith

plain_ascii : (s : List ℕ) → all plain s ≡ true → all is_ascii s ≡ true
plain_ascii [] h = refl
plain_ascii (c ∷ s) h =
    let (a, b) = and_parts (plain c) (all plain s) h in rw (plain_char_ascii c a, plain_ascii s b)

plain-lower : (s : List ℕ) → all plain s ≡ true → map lower s ≡ s
plain-lower [] h = refl
plain-lower (c ∷ s) h =
    let (a, b) = and_parts (plain c) (all plain s) h in
    ap₂ (λ x xs. x ∷ xs) (plain_char_lower c a) (plain-lower s b)

-- The canonical form of a valid name is the name.
pub canonical_name-valid_name :
    (net : Net) (s : List ℕ) → valid_name s ≡ true → canonical_name net s ≡ s
unfolding canonical_name valid_name
canonical_name-valid_name net s h =
    let (_, labels) =
      and_parts (not (length s == 0 || ltb 253 (length s))) (all name_label (split b'.' s)) h in
    let chars = pieces_plain s (labels_chars (split b'.' s) labels) in
    rw (trim_dot_self s (labels_filled (split b'.' s) labels), plain_ascii s chars)
      (plain-lower s chars)
