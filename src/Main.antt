-- ===== src/Main.antt =====
-- src/main.py: the command that the script becomes.
use Prim.Native.String.{◌++◌ as append}
use smartcourse_core.Base.{
  Bool-cases, List, String, [], ap, arith, if◌then◌else◌, inl, inr, ltb, suc, zero, ℕ, ◌%◌, ◌*◌,
  ◌++◌, ◌+◌, ◌/◌, ◌<◌, ◌∙◌, ◌∷◌, ◌≡◌,
}
use smartcourse_core.Config.{Settings}

-- The decimal digits of a number in front of others, from the last on; the fuel bounds their count.
abbrev digits_onto : ℕ → ℕ → List ℕ → List ℕ
digits_onto zero n rest = rest
digits_onto (suc fuel) n rest =
    let more = digits_onto fuel (n / 10) (n % 10 ∷ rest) in if ltb n 10 then n ∷ rest else more

-- A number has at most as many digits as its successor counts.
abbrev pub decimal : ℕ → List ℕ
decimal n = digits_onto (n + 1) n []

-- The number that digits stand for, after those that were read.
abbrev pub read_after : ℕ → List ℕ → ℕ
read_after n [] = n
read_after n (d ∷ l) = read_after (n * 10 + d) l

abbrev at : List String → ℕ → String
at [] n = ""
at (x ∷ l) zero = x
at (x ∷ l) (suc n) = at l n

abbrev digit : ℕ → String
digit = at ("0" ∷ "1" ∷ "2" ∷ "3" ∷ "4" ∷ "5" ∷ "6" ∷ "7" ∷ "8" ∷ "9" ∷ [])

abbrev joined_digits : List ℕ → String
joined_digits [] = ""
joined_digits (d ∷ l) = append (digit d) (joined_digits l)

-- `str` of a number.
abbrev pub str : ℕ → String
str n = joined_digits (decimal n)

-- `command`, for the interpreter at `executable`
unfoldable pub command : String → Settings → List String
command executable settings =
    (executable
      ∷ "-m"
      ∷ "uvicorn"
      ∷ "src.main:app"
      ∷ "--host"
      ∷ settings.app.host
      ∷ "--port"
      ∷ str settings.app.port
      ∷ [])
    ++ (if settings.app.reload then "--reload" ∷ "--reload-dir" ∷ "src" ∷ [] else [])

read_digits_onto :
    (fuel n : ℕ) (rest : List ℕ)
    → n < fuel
    → read_after 0 (digits_onto fuel n rest) ≡ read_after n rest
read_digits_onto zero n rest enough = absurd (omega arith)
read_digits_onto (suc fuel) n rest enough = elim (Bool-cases (ltb n 10)) [
  | inl h ↦ let start : 0 + n ≡ n = omega arith in rw h (ap (λ m. read_after m rest) start)
  | inr h ↦
      let smaller : n / 10 < fuel = ground (arith) in
      let whole : n / 10 * 10 + n % 10 ≡ n = omega arith in
      rw h
        (read_digits_onto fuel (n / 10) (n % 10 ∷ rest) smaller ∙ ap (λ m. read_after m rest) whole)
]

-- The digits of a number are read back as the number: the fuel is enough.
pub read-decimal : (n : ℕ) → read_after 0 (decimal n) ≡ n
read-decimal n = read_digits_onto (n + 1) n [] (omega arith)
