-- ===== src/Examples/Values.antt =====
-- Concrete instances of the parameters.
use wanopt_proxy.Common.{
  ℕ, ◌≤◌, ◌<◌, ◌^◌, ◌≡◌, refl, arith, Option, none, some, List, [], ◌∷◌, ◌++◌, length, take,
  length-take, length-append, bytes_eq, bytes_eq→eq, if◌then◌else◌, Bool-cases, inl, inr, min, ◌∙◌,
}
use wanopt_proxy.Net.{Net, v4_prefix}
use wanopt_proxy.Protocol.Address.Text.{Text}
use wanopt_proxy.Compress.Encoder.{Codec}
use wanopt_proxy.Tunnel.Auth.{Crypto}

-- "1.2.3.4".
abbrev pub literal : List ℕ
literal = b'1' ∷ b'.' ∷ b'2' ∷ b'.' ∷ b'3' ∷ b'.' ∷ b'4' ∷ []

abbrev pub literal_ip : List ℕ
literal_ip = v4_prefix ++ (1 ∷ 2 ∷ 3 ∷ 4 ∷ [])

abbrev parse : List ℕ → Option (List ℕ)
parse s = if bytes_eq s literal then some literal_ip else none

pub parse-size : (s ip : List ℕ) → parse s ≡ some ip → length ip ≡ 16
parse-size s ip h = elim (Bool-cases (bytes_eq s literal)) [
  | inl t ↦ let e : literal_ip ≡ ip = cc (rw t at h) in rw (← e) refl
  | inr t ↦ absurd (cc (rw t at h))
]

pub parse-text : (s ip : List ℕ) → parse s ≡ some ip → length s ≤ 45
parse-text s ip h = elim (Bool-cases (bytes_eq s literal)) [
  | inl t ↦ let e : s ≡ literal = bytes_eq→eq s literal t in rw e (ground arith)
  | inr t ↦ absurd (cc (rw t at h))
]

-- A network that knows one literal.
abbrev pub net : Net
net = record {
  parse_ip = parse;
  parse_ip-size = parse-size;
  parse_ip-text = parse-text;
  parse_cidr = λ s. none;
  lower_text = λ s. s;
  trim_text = λ s. s;
}

abbrev zeros : List ℕ
zeros =
    0 ∷ 0 ∷ 0 ∷ 0 ∷ 0 ∷ 0 ∷ 0 ∷ 0 ∷ 0 ∷ 0 ∷ 0 ∷ 0 ∷ 0 ∷ 0 ∷ 0 ∷ 0 ∷ 0 ∷ 0 ∷ 0 ∷ 0 ∷ 0 ∷ 0 ∷ 0 ∷ 0
    ∷ 0 ∷ 0 ∷ 0 ∷ 0 ∷ 0 ∷ 0 ∷ 0 ∷ 0 ∷ []

abbrev pad : List ℕ → List ℕ
pad m = take 32 (m ++ zeros)

pub length-pad : (m : List ℕ) → length (pad m) ≡ 32
length-pad m = length-take 32 (m ++ zeros) ∙ full
  where
    full : min 32 (length (m ++ zeros)) ≡ 32
    full = omega (arith, length-append m zeros)

-- A cryptography that tells short keys and messages apart.
abbrev pub crypto : Crypto
crypto = record {
  hmac = λ key message. pad (key ++ message);
  length-hmac = λ key message. length-pad (key ++ message);
  sha256 = λ message. pad message;
  length-sha256 = length-pad;
}

abbrev strip : List ℕ → Option (List ℕ)
strip [] = none
strip (m ∷ b) = some b

pub deflate-filled : (b : List ℕ) → 1 ≤ length (0 ∷ b)
deflate-filled b = ground arith

-- A codec that puts one byte in front.
abbrev pub codec : Codec
codec = record {
  deflate = λ b. 0 ∷ b;
  inflate = strip;
  deflate_filled = deflate-filled;
  inflate-deflate = λ b. refl;
}

abbrev parse_port : List ℕ → Option ℕ
parse_port s = some 80

pub parse_port-bound : (s : List ℕ) (n : ℕ) → parse_port s ≡ some n → n < 2 ^ 16
parse_port-bound s n h = ground arith

-- Texts in which every port is 80.
abbrev pub texts : Text
texts = record {
  ip_text = λ ip. ip;
  itoa = λ n. n ∷ [];
  join = λ host port. host ++ (b':' ∷ port);
  split_host_port = λ s. some (s, []);
  parse_uint16 = parse_port;
  parse_uint16-bound = parse_port-bound;
}
