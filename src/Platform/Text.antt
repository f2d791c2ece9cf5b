-- ===== src/Platform/Text.antt =====
-- The texts that the program only makes and takes apart through libraries: times in ISO format,
-- JSON of a flat object of texts, URL-safe base64, HTTP headers, ILIKE and the check of an e-mail
-- address (email-validator, which may respell it).
use smartcourse_core.Base.{Bool, List, Option, String, false, some, ℕ, ◌≡◌}

pub record TextLibrary : Type 1 where
  pub isoformat : ℕ → String
  pub fromisoformat : String → Option ℕ
  pub Json : Type 0
  pub dumps : List (String × String) → Json
  pub loads : Json → Option (List (String × String))
  pub Base64 : Type 0
  pub b64encode : Json → Base64
  pub b64decode : Base64 → Option Json
  -- the empty text
  pub is_empty : Base64 → Bool
  pub Headers : Type 0
  pub header : Headers → String → Option String
  pub set_header : String → String → Headers → Headers
  pub ilike : String → String → Bool
  pub email : String → Option String
  pub fromisoformat-isoformat : (t : ℕ) → fromisoformat (isoformat t) ≡ some t
  pub loads-dumps : (p : List (String × String)) → loads (dumps p) ≡ some p
  pub b64decode-b64encode : (j : Json) → b64decode (b64encode j) ≡ some j
  -- JSON has at least its two braces.
  pub b64encode-is_empty : (p : List (String × String)) → is_empty (b64encode (dumps p)) ≡ false
  pub header-set_header : (k v : String) (h : Headers) → header (set_header k v h) k ≡ some v
