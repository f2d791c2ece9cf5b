-- ===== src/Core/Jwks.antt =====
-- src/core/security.py: the public key in the form of RFC 7517. A text is the list of its ASCII codes.
use smartcourse_core.Base.{
  List, Option, String, [], if◌then◌else◌, length, ltb, none, some, suc, zero, ℕ, ◌%◌, ◌*◌, ◌++◌,
  ◌+◌, ◌-◌, ◌/◌, ◌==◌, ◌^◌, ◌∷◌, nat_eq, string_eq,
}
use smartcourse_core.Platform.{Platform}
use smartcourse_core.Config.{SecuritySettings}
use smartcourse_core.Core.Errors.{unexpected}
use smartcourse_core.Core.Security.{load_public_key}
use smartcourse_core.Effects.{M, ◌>>=◌, pure, or_raise}

-- `int.bit_length`, with as much fuel as the number.
abbrev pub bits : ℕ → ℕ → ℕ
bits zero n = 0
bits (suc fuel) n = let rest = bits fuel (n / 2) in if n == 0 then 0 else suc rest

abbrev pub bit_length : ℕ → ℕ
bit_length n = bits n n

-- `int.to_bytes(length, "big")`: none is an OverflowError.
abbrev pub big_endian : ℕ → ℕ → List ℕ
big_endian zero value = []
big_endian (suc length) value = big_endian length (value / 256) ++ value % 256 ∷ []

abbrev pub to_bytes : ℕ → ℕ → Option (List ℕ)
to_bytes length value = if ltb value (256 ^ length) then some (big_endian length value) else none

-- The URL-safe alphabet of base64.
abbrev pub code_of : ℕ → ℕ
code_of s =
    if ltb s 26
    then s + 65
    else if ltb s 52
    then s + 71
    else if ltb s 62
    then s - 4
    else if s == 62
    then 45
    else 95

abbrev pub padding : ℕ
padding = 61

-- `base64.urlsafe_b64encode`
abbrev pub urlsafe_b64encode : List ℕ → List ℕ
urlsafe_b64encode [] = []
urlsafe_b64encode (a ∷ []) = code_of (a / 4) ∷ code_of (a % 4 * 16) ∷ padding ∷ padding ∷ []
urlsafe_b64encode (a ∷ b ∷ []) =
    code_of (a / 4) ∷ code_of (a % 4 * 16 + b / 16) ∷ code_of (b % 16 * 4) ∷ padding ∷ []
urlsafe_b64encode (a ∷ b ∷ c ∷ l) =
    code_of (a / 4)
    ∷ code_of (a % 4 * 16 + b / 16)
    ∷ code_of (b % 16 * 4 + c / 64)
    ∷ code_of (c % 64)
    ∷ urlsafe_b64encode l

-- `rstrip(b"=")`
abbrev pub keep_unless_last : ℕ → List ℕ → List ℕ
keep_unless_last c [] = if c == padding then [] else c ∷ []
keep_unless_last c (d ∷ l) = c ∷ d ∷ l

abbrev pub rstrip : List ℕ → List ℕ
rstrip [] = []
rstrip (c ∷ l) = keep_unless_last c (rstrip l)

abbrev stripped : Option (List ℕ) → Option (List ℕ)
stripped none = none
stripped (some bytes) = some (rstrip (urlsafe_b64encode bytes))

-- `_b64url_uint`
unfoldable pub b64url_uint : ℕ → Option (List ℕ)
b64url_uint value = stripped (to_bytes ((bit_length value + 7) / 8) value)

pub record Jwk : Type 0 where
  pub kty : String
  pub use_for : String
  pub alg : String
  pub kid : String
  pub n : List ℕ
  pub e : List ℕ

module _ {P : Platform} where
  unfoldable pub build_jwks : SecuritySettings → M P (List Jwk)
  unfolding load_public_key b64url_uint
  build_jwks settings = do
    public_key ← load_public_key settings.jwt_public_key_path
    let numbers = P.public_numbers public_key
    n ← or_raise (b64url_uint numbers.0) (unexpected "OverflowError")
    e ← or_raise (b64url_uint numbers.1) (unexpected "OverflowError")
    pure (
        record {
          kty = "RSA";
          use_for = "sig";
          alg = settings.jwt_algorithm;
          kid = settings.jwt_kid;
          n = n;
          e = e;
        }
        ∷ [])
