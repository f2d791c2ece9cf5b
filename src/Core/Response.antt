-- ===== src/Core/Response.antt =====
-- src/core/response.py: the success envelope and the cursor of a page.
use Prim.Native.Nat.{Ordering}
use Prim.Native.String.{compare as compare_texts}
use smartcourse_core.Base.{
  Bool, List, Option, String, [], if◌then◌else◌, none, some, ◌==◌, ◌∷◌, nat_eq, string_eq,
}
use smartcourse_core.Platform.{Platform}
use smartcourse_core.Core.Errors.{unexpected}
use smartcourse_core.Core.Logging.{current_request_id}
use smartcourse_core.Effects.{M, ◌>>=◌, pure, now, or_raise}

pub record Meta : Type 0 where
  pub request_id : Option String
  pub timestamp : String

pub record Envelope (A : Type 0) : Type 0 where
  pub value : A
  pub meta : Meta

pub record CursorPage (P : Platform) (A : Type 0) : Type 0 where
  pub items : List A
  pub next_cursor : Option P.Base64
  pub has_more : Bool

-- `sort_keys=True`
abbrev insert_key : String × String → List (String × String) → List (String × String)
insert_key e [] = e ∷ []
insert_key e (f ∷ l) = elim (compare_texts e.0 f.0) [
  | Ordering.gt ↦ f ∷ insert_key e l
  | _ ↦ e ∷ f ∷ l
]

abbrev pub sort_keys : List (String × String) → List (String × String)
sort_keys [] = []
sort_keys (e ∷ l) = insert_key e (sort_keys l)

abbrev pub lookup : String → List (String × String) → Option String
lookup k [] = none
lookup k (e ∷ l) = if e.0 == k then some e.1 else lookup k l

module _ {P : Platform} where
  unfoldable pub success : {A : Type 0} → A → M P (Envelope A)
  unfolding current_request_id
  success value = do
    request_id ← current_request_id
    t ← now
    pure (record {
      value = value;
      meta = record { request_id = request_id; timestamp = P.isoformat t };
    })

-- A text that is not base64, and one that is not JSON, raise a ValueError.
unfoldable pub encode_cursor : (P : Platform) → List (String × String) → P.Base64
encode_cursor P payload = P.b64encode (P.dumps (sort_keys payload))

module _ {P : Platform} where
  unfoldable pub decode_cursor : P.Base64 → M P (List (String × String))
  decode_cursor cursor = do
    raw ← or_raise (P.b64decode cursor) (unexpected "ValueError")
    or_raise (P.loads raw) (unexpected "ValueError")
