-- ===== src/Core/KeyNumbers.antt =====
-- The numbers of the public key, read back from the form that `_b64url_uint` of src/core/security.py
-- gives them.
use native.Mathlib.Omega.{pow_step}
use native.Mathlib.Nat.{pow-le-pow_right}
use smartcourse_core.Base.{
  All, List, [], ap, arith, false, if◌then◌else◌, inl, inr, lt-or-≤, ltb, lt→ltb, refl, some, suc,
  zero, ℕ, ◌%◌, ◌*◌, ◌++◌, ◌+◌, ◌-◌, ◌/◌, ◌<◌, ◌==◌, ◌^◌, ◌∙◌, ◌∷◌, ◌≡◌, ◌≤◌, nat_eq, string_eq,
}
use smartcourse_core.Core.Jwks.{
  bits, bit_length, big_endian, code_of, padding, urlsafe_b64encode, rstrip, keep_unless_last,
  b64url_uint,
}

-- The number of a list of bytes, the most significant first.
abbrev pub value_of_bytes : ℕ → List ℕ → ℕ
value_of_bytes before [] = before
value_of_bytes before (b ∷ l) = value_of_bytes (before * 256 + b) l

-- The place of a code in the alphabet.
abbrev pub place_of : ℕ → ℕ
place_of c =
    if c == 45
    then 62
    else if c == 95
    then 63
    else if ltb c 58
    then c + 4
    else if ltb c 91
    then c - 65
    else c - 71

-- The decoder of RFC 7515: base64url without padding.
abbrev pub b64url_decode : List ℕ → List ℕ
b64url_decode (p ∷ q ∷ []) = (place_of p * 4 + place_of q / 16) ∷ []
b64url_decode (p ∷ q ∷ r ∷ []) =
    (place_of p * 4 + place_of q / 16) ∷ (place_of q % 16 * 16 + place_of r / 4) ∷ []
b64url_decode (p ∷ q ∷ r ∷ s ∷ l) =
    (place_of p * 4 + place_of q / 16)
    ∷ (place_of q % 16 * 16 + place_of r / 4)
    ∷ (place_of r % 4 * 64 + place_of s)
    ∷ b64url_decode l
b64url_decode l = []

bits_bound : (fuel n : ℕ) → n ≤ fuel → n < 2 ^ bits fuel n
bits_bound zero n h = omega (arith, h)
bits_bound (suc fuel) n h = elim (lt-or-≤ 0 n) [
  | inl some_bit ↦
      let not_zero : (n == 0) ≡ false = ground arith in
      let rest = bits_bound fuel (n / 2) (omega arith) in
      rw not_zero (omega (arith, pow_step 2 (bits fuel (n / 2)), rest))
  | inr no_bit ↦ let zero_n : n ≡ 0 = omega arith in rw zero_n (omega arith)
]

bytes_of_bits : (k : ℕ) → 2 ^ (8 * k) ≡ 256 ^ k
bytes_of_bits zero = refl
bytes_of_bits (suc k) =
    let b = 8 * k in
    let longer : 8 * suc k ≡ suc (suc (suc (suc (suc (suc (suc (suc b))))))) = omega arith in
    rw longer (
      omega (
        arith,
        pow_step 2 b,
        pow_step 2 (suc b),
        pow_step 2 (suc (suc b)),
        pow_step 2 (suc (suc (suc b))),
        pow_step 2 (suc (suc (suc (suc b)))),
        pow_step 2 (suc (suc (suc (suc (suc b))))),
        pow_step 2 (suc (suc (suc (suc (suc (suc b)))))),
        pow_step 2 (suc (suc (suc (suc (suc (suc (suc b))))))),
        pow_step 256 k,
        bytes_of_bits k,
      ))

value-snoc :
    (before b : ℕ) (l : List ℕ)
    → value_of_bytes before (l ++ b ∷ []) ≡ value_of_bytes before l * 256 + b
value-snoc before b [] = refl
value-snoc before b (c ∷ l) = value-snoc (before * 256 + c) b l

value-big_endian : (k n : ℕ) → n < 256 ^ k → value_of_bytes 0 (big_endian k n) ≡ n
value-big_endian zero n h = omega (arith, h)
value-big_endian (suc k) n h =
    let rest = value-big_endian k (n / 256) (omega (arith, pow_step 256 k, h)) in
    value-snoc 0 (n % 256) (big_endian k (n / 256)) ∙ omega (arith, rest)

abbrev IsByte : ℕ → Type 0
IsByte b = b < 256

All-snoc : (l : List ℕ) (b : ℕ) → All IsByte l → b < 256 → All IsByte (l ++ b ∷ [])
All-snoc [] b a h = (h, tt)
All-snoc (c ∷ l) b (here, a) h = (here, All-snoc l b a h)

big_endian-bytes : (k n : ℕ) → All IsByte (big_endian k n)
big_endian-bytes zero n = tt
big_endian-bytes (suc k) n =
    All-snoc (big_endian k (n / 256)) (n % 256) (big_endian-bytes k (n / 256)) (omega arith)

place_of-code_of : (s : ℕ) → s < 64 → place_of (code_of s) ≡ s
place_of-code_of s h = ground arith

code_of-padding : (s : ℕ) → s < 64 → (code_of s == padding) ≡ false
code_of-padding s h = ground arith

keep_code : (s : ℕ) (l : List ℕ) → s < 64 → keep_unless_last (code_of s) l ≡ code_of s ∷ l
keep_code s [] h = rw (code_of-padding s h) refl
keep_code s (c ∷ l) h = refl

bytes_2 : {a b c d : ℕ} → a ≡ c → b ≡ d → a ∷ b ∷ [] ≡ c ∷ d ∷ []
bytes_2 e f = rw (e, f) refl

bytes_3 : {a b c d e f : ℕ} {l : List ℕ} → a ≡ d → b ≡ e → c ≡ f → a ∷ b ∷ c ∷ l ≡ d ∷ e ∷ f ∷ l
bytes_3 p q r = rw (p, q, r) refl

decode-encode : (l : List ℕ) → All IsByte l → b64url_decode (rstrip (urlsafe_b64encode l)) ≡ l
decode-encode [] bytes = refl
decode-encode (a ∷ []) (ha, _) =
    let p : a / 4 < 64 = omega (arith, ha) in
    let q : a % 4 * 16 < 64 = omega arith in
    rw (keep_code (a % 4 * 16) [] q, place_of-code_of (a / 4) p, place_of-code_of (a % 4 * 16) q)
      (ap (λ x. x ∷ []) (omega arith))
decode-encode (a ∷ b ∷ []) (ha, (hb, _)) =
    let p : a / 4 < 64 = omega (arith, ha) in
    let q : a % 4 * 16 + b / 16 < 64 = omega (arith, hb) in
    let r : b % 16 * 4 < 64 = omega arith in
    rw
      (
        keep_code (b % 16 * 4) [] r,
        place_of-code_of (a / 4) p,
        place_of-code_of (a % 4 * 16 + b / 16) q,
        place_of-code_of (b % 16 * 4) r,
      )
      (bytes_2 (omega arith) (omega (arith, hb)))
decode-encode (a ∷ b ∷ c ∷ l) (ha, (hb, (hc, bytes))) =
    let p : a / 4 < 64 = omega (arith, ha) in
    let q : a % 4 * 16 + b / 16 < 64 = omega (arith, hb) in
    let r : b % 16 * 4 + c / 64 < 64 = omega (arith, hc) in
    let s : c % 64 < 64 = omega arith in
    let rest = rstrip (urlsafe_b64encode l) in
    rw
      (
        keep_code (c % 64) rest s,
        place_of-code_of (a / 4) p,
        place_of-code_of (a % 4 * 16 + b / 16) q,
        place_of-code_of (b % 16 * 4 + c / 64) r,
        place_of-code_of (c % 64) s,
        decode-encode l bytes,
      )
      (bytes_3 (omega arith) (omega (arith, hb)) (omega (arith, hc)))

enough_bytes : (n : ℕ) → n < 256 ^ ((bit_length n + 7) / 8)
enough_bytes n =
    let k = (bit_length n + 7) / 8 in
    let wide : 2 ^ bit_length n ≤ 2 ^ (8 * k) = pow-le-pow_right (omega arith) (omega arith) in
    omega (arith, bits_bound n n (omega arith), wide, bytes_of_bits k)

-- The form of a number of the key: `to_bytes` never overflows, whatever the number, and the decoder
-- of RFC 7515 gives bytes back whose number it is.
pub b64url_uint_lem :
    (n : ℕ)
    → (text : List ℕ) × (b64url_uint n ≡ some text) × (value_of_bytes 0 (b64url_decode text) ≡ n)
unfolding b64url_uint
b64url_uint_lem n =
    let k = (bit_length n + 7) / 8 in
    let fits = lt→ltb n (256 ^ k) (enough_bytes n) in
    (
      rstrip (urlsafe_b64encode (big_endian k n)),
      rw fits refl,
      rw (decode-encode (big_endian k n) (big_endian-bytes k n))
          (value-big_endian k n (enough_bytes n)),
    )
