-- ===== src/Core/Validation.antt =====
-- The checks of request fields that the pydantic models declare: a value, or the kind of the error.
use Prim.Native.String.{count as count_characters}
use smartcourse_core.Base.{List, Option, String, [], if◌then◌else◌, ltb, none, some, ℕ, ◌∷◌}
use smartcourse_core.Platform.{Platform}

pub data Checked (A : Type 0) : Type 0 where
  good : A → Checked A
  bad : String → Checked A

-- The error of a field of the body, or of the query string, at its location.
abbrev pub errors_of : {A : Type 0} → String → Checked A → List (List String × String)
errors_of field (good a) = []
errors_of field (bad kind) = ("body" ∷ field ∷ [], kind) ∷ []

abbrev pub query_errors_of : {A : Type 0} → String → Checked A → List (List String × String)
query_errors_of field (good a) = []
query_errors_of field (bad kind) = ("query" ∷ field ∷ [], kind) ∷ []

-- `str = Field(min_length=lo, max_length=hi)`
abbrev pub sized : ℕ → ℕ → String → Checked String
sized lo hi s =
    if ltb (count_characters s) lo
    then bad "string_too_short"
    else if ltb hi (count_characters s)
    then bad "string_too_long"
    else good s

abbrev pub text_field : ℕ → ℕ → Option String → Checked String
text_field lo hi none = bad "missing"
text_field lo hi (some s) = sized lo hi s

-- `str | None = Field(default=None, min_length=lo, max_length=hi)`
abbrev some_checked : {A : Type 0} → Checked A → Checked (Option A)
some_checked (good a) = good (some a)
some_checked (bad kind) = bad kind

abbrev pub optional_field : ℕ → ℕ → Option String → Checked (Option String)
optional_field lo hi none = good none
optional_field lo hi (some s) = some_checked (sized lo hi s)

-- `str` with no bounds
abbrev pub any_text : Option String → Checked String
any_text none = bad "missing"
any_text (some s) = good s

-- `EmailStr`
abbrev address : Option String → Checked String
address none = bad "value_error"
address (some e) = good e

abbrev pub email_field : Platform → Option String → Checked String
email_field P none = bad "missing"
email_field P (some s) = address (P.email s)
