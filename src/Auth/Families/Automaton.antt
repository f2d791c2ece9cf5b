-- ===== src/Auth/Families/Automaton.antt =====
-- `refresh_tokens` of src/modules/auth/service.py against an automaton of the families: what can
-- happen to the holder of each family, on every branch.
use smartcourse_core.Base.{
  Bool, List, Option, String, [], false, filter, map, none, some, true, ℕ, ◌==◌, ◌∷◌, ◌≡◌, nat_eq,
  string_eq,
}
use smartcourse_core.Platform.{Platform}
use smartcourse_core.Auth.Model.{RefreshToken}
use smartcourse_core.Effects.{World}

-- The families of the tokens of a hash.
abbrev pub families_of : String → List RefreshToken → List ℕ
families_of hash rows = map (λ r. r.family_id) (filter (λ r. r.token_hash == hash) rows)

-- Why a token that is refused changes nothing: it belongs to no family, it holds its family, or it
-- is of more than one row.
pub data Unspent (hash : String) (families : List ℕ) (before : ℕ → Option String) : Type 0 where
  unknown : families ≡ [] → Unspent hash families before
  holding :
      (family : ℕ)
      → families ≡ family ∷ []
      → before family ≡ some hash
      → Unspent hash families before
  ambiguous : (f g : ℕ) (l : List ℕ) → families ≡ f ∷ g ∷ l → Unspent hash families before

-- What happens to the holders when a token is presented that belongs to certain families: it is
-- refused and nothing changes, it is accepted and hands its family on, or it is one that holds no
-- family any more, and its family is closed.
pub data Move (hash : String) (families : List ℕ) (before after : ℕ → Option String)
    : Bool → Type 0 where
  refused :
      Unspent hash families before
      → ((f : ℕ) → after f ≡ before f)
      → Move hash families before after false
  handed_on :
      (family : ℕ) (next : String)
      → families ≡ family ∷ []
      → before family ≡ some hash
      → after family ≡ some next
      → ((f : ℕ) → (family == f) ≡ false → after f ≡ before f)
      → Move hash families before after true
  closed :
      (family : ℕ)
      → families ≡ family ∷ []
      → ((f : ℕ) → ¬ (before f ≡ some hash))
      → after family ≡ none
      → ((f : ℕ) → (family == f) ≡ false → after f ≡ before f)
      → Move hash families before after false

-- Between two requests the session sees what is committed.
abbrev pub Settled : {P : Platform} → World P → Type 0
Settled {P} w = (P.view w.session).working ≡ (P.view w.session).stored
