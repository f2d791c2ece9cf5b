-- ===== src/Platform/Redis.antt =====
-- The Redis client (redis.asyncio) as the program uses it. `now` is the server's clock, in
-- microseconds; a time to live is in seconds.
use smartcourse_core.Base.{
  Bool, Option, String, false, if◌then◌else◌, ltb, none, some, suc, true, ℕ, ◌*◌, ◌+◌, ◌==◌, ◌≡◌,
  nat_eq, string_eq,
}

-- A Redis string: the decimal numeral that INCR keeps, or any other text.
pub data Value : Type 0 where
  number : ℕ → Value
  text : String → Value

pub record Entry : Type 0 where
  pub value : Value
  pub deadline : Option ℕ

abbrev pub second : ℕ
second = 1000000

abbrev pub is_live : ℕ → Option ℕ → Bool
is_live now none = true
is_live now (some d) = ltb now d

-- What a read at `now` sees of a key: a lapsed entry is gone.
abbrev pub live : ℕ → Option Entry → Option Entry
live now none = none
live now (some e) = if is_live now e.deadline then some e else none

abbrev pub value_of : Option Entry → Option Value
value_of none = none
value_of (some e) = some e.value

abbrev pub deadline_of : Option Entry → Option ℕ
deadline_of none = none
deadline_of (some e) = e.deadline

-- The number that INCR adds one to; none for a text, which INCR refuses.
abbrev pub count_of : Option Entry → Option ℕ
count_of none = some 0
count_of (some e) = elim e.value [ number n ↦ some n | text _ ↦ none ]

abbrev pub is_found : Option Entry → Bool
is_found none = false
is_found (some _) = true

abbrev pub expiring : ℕ → Option Entry → Option Entry
expiring d none = none
expiring d (some e) = some (record e { deadline = some d })

-- The commands and what the Redis documentation says of them, over the entry of each key.
pub record RedisClient : Type 1 where
  pub Conn : Type 0
  pub entry : Conn → String → Option Entry
  pub get : ℕ → String → Conn → Option Value
  pub exists : ℕ → String → Conn → Bool
  pub incr : ℕ → String → Conn → Option (ℕ × Conn)
  pub expire : ℕ → String → ℕ → Conn → Conn
  pub set : ℕ → String → Value → ℕ → Conn → Conn
  pub delete : ℕ → String → Conn → Conn
  pub getdel : ℕ → String → Conn → Option Value × Conn
  pub get_lem : (now : ℕ) (k : String) (c : Conn) → get now k c ≡ value_of (live now (entry c k))
  pub exists_lem :
      (now : ℕ) (k : String) (c : Conn) → exists now k c ≡ is_found (live now (entry c k))
  pub incr_lem :
      (now : ℕ) (k : String) (c : Conn) (n : ℕ)
      → count_of (live now (entry c k)) ≡ some n
      → (c' : Conn) × (incr now k c ≡ some (suc n, c'))
        × ((j : String)
            → entry c' j ≡ (
                if k == j
                then some (record {
                  value = number (suc n);
                  deadline = deadline_of (live now (entry c k));
                })
                else entry c j))
  pub entry-expire :
      (now : ℕ) (k : String) (ttl : ℕ) (c : Conn) (j : String)
      → entry (expire now k ttl c) j
        ≡ (if k == j then expiring (now + ttl * second) (live now (entry c k)) else entry c j)
  pub entry-set :
      (now : ℕ) (k : String) (v : Value) (ttl : ℕ) (c : Conn) (j : String)
      → entry (set now k v ttl c) j ≡ (
          if k == j
          then some (record { value = v; deadline = some (now + ttl * second) })
          else entry c j)
  pub entry-delete :
      (now : ℕ) (k : String) (c : Conn) (j : String)
      → entry (delete now k c) j ≡ (if k == j then none else entry c j)
  pub getdel_value :
      (now : ℕ) (k : String) (c : Conn) → (getdel now k c).0 ≡ value_of (live now (entry c k))
  pub entry-getdel :
      (now : ℕ) (k : String) (c : Conn) (j : String)
      → entry (getdel now k c).1 j ≡ (if k == j then none else entry c j)
