-- ===== src/Platform/Crypto.antt =====
-- The cryptographic libraries (argon2, PyJWT, cryptography, hashlib, secrets, uuid) as the program
-- uses them. What is drawn at random is a function of the number of the draw.
use smartcourse_core.Base.{Option, String, none, some, ℕ, ◌<◌, ◌≡◌, ◌≤◌}

-- How `PasswordHasher.verify` ends: `True`, or one of its exceptions.
pub data Verification : Type 0 where
  matches mismatch invalid_hash other_failure : Verification

-- How a PEM file loads: an RSA key, a key of another kind, or an exception of the loader.
pub data Pem (Key : Type 0) : Type 0 where
  rsa : Key → Pem Key
  other_key : Pem Key
  unreadable : Pem Key

-- The claims of a token; a claim may be missing from one that the program did not make.
pub record Payload : Type 0 where
  pub sub : Option String
  pub role : Option String
  pub type : Option String
  pub jti : Option String
  pub iat : Option ℕ
  pub exp : Option ℕ

-- `options={"require": ["exp", "iat", "sub", "jti", "type"]}`: the claims that must be there.
pub record Claims : Type 0 where
  pub sub : String
  pub role : Option String
  pub type : String
  pub jti : String
  pub iat : ℕ
  pub exp : ℕ

pub record CryptoLibrary : Type 1 where
  pub Private : Type 0
  pub Public : Type 0
  -- the text of a token, which the program only passes on
  pub Token : Type 0
  pub private_pem : String → Pem Private
  pub public_pem : String → Pem Public
  pub public_of : Private → Public
  -- the modulus and the exponent, `public_numbers()`
  pub public_numbers : Public → ℕ × ℕ
  pub hash : ℕ → String → String
  pub verify : String → String → Verification
  pub sha256_hex : String → String
  pub token_urlsafe : ℕ → String
  pub uuid4 : ℕ → ℕ
  pub str_uuid : ℕ → String
  pub parse_uuid : String → Option ℕ
  -- `jwt.encode(payload, key, algorithm, headers={"kid": …})` and `jwt.decode` at a time in
  -- seconds, under the algorithm and the required claims; none is a PyJWTError.
  pub encode : Claims → Private → String → String → Token
  pub decode : ℕ → Token → Public → String → Option Claims
  pub verify-hash : (salt : ℕ) (password : String) → verify (hash salt password) password ≡ matches
  pub parse_uuid-str_uuid : (i : ℕ) → parse_uuid (str_uuid i) ≡ some i
  pub decode-encode :
      (now : ℕ) (c : Claims) (k : Private) (alg kid : String)
      → c.iat ≤ now
      → now < c.exp
      → decode now (encode c k alg kid) (public_of k) alg ≡ some c
  pub decode_expired :
      (now : ℕ) (c : Claims) (k : Private) (alg kid : String)
      → c.exp ≤ now
      → decode now (encode c k alg kid) (public_of k) alg ≡ none
