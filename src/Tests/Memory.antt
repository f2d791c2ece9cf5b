-- ===== src/Tests/Memory.antt =====
-- A platform that meets every law of the interfaces: tables and keys in memory, and toy crypto.
use mathlib.Core.Option
use smartcourse_core.Base.{
  ==-refl, List, Option, String, ap, arith, filter, head?, if◌then◌else◌, is_none, leb, le→leb, ltb,
  lt→ltb, none, refl, some, suc, take, zero, ℕ, ◌&&◌, ◌*◌, ◌+◌, ◌<◌, ◌==◌, ◌≡◌, ◌≤◌, nat_eq,
  string_eq,
}
use smartcourse_core.Platform.{Platform}
use smartcourse_core.Platform.Redis.{
  RedisClient, number, Entry, second, live, value_of, deadline_of, count_of, is_found, expiring,
}
use smartcourse_core.Platform.Orm.{
  newest_first, OrmSession, Transaction, insert_user, insert_token, insert_course, replace_user,
  replace_token, replace_course, with_working,
}
use smartcourse_core.Platform.Text.{TextLibrary}
use smartcourse_core.Platform.Crypto.{CryptoLibrary, Claims, rsa, matches, mismatch}

abbrev pub Keys : Type 0
Keys = String → Option Entry

abbrev put : String → Option Entry → Keys → Keys
put k e c j = if k == j then e else c j

abbrev incremented : ℕ → String → Keys → Option ℕ → Option (ℕ × Keys)
incremented now k c none = none
incremented now k c (some n) = some (
  suc n,
  put k (some (record { value = number (suc n); deadline = deadline_of (live now (c k)) })) c,
)

abbrev incr_counted :
    (now : ℕ) (k : String) (c : Keys) (o : Option ℕ) (n : ℕ)
    → o ≡ some n
    → (c' : Keys) × (incremented now k c o ≡ some (suc n, c'))
      × ((j : String)
          → c' j ≡ (
              if k == j
              then some (record { value = number (suc n); deadline = deadline_of (live now (c k)) })
              else c j))
incr_counted now k c o n h = (
  put k (some (record { value = number (suc n); deadline = deadline_of (live now (c k)) })) c,
  rw h,
  λ j. refl,
)

abbrev redis : RedisClient
redis = record {
  Conn = Keys;
  entry = λ c k. c k;
  get = λ now k c. value_of (live now (c k));
  exists = λ now k c. is_found (live now (c k));
  incr = λ now k c. incremented now k c (count_of (live now (c k)));
  expire = λ now k ttl c. put k (expiring (now + ttl * second) (live now (c k))) c;
  set =
      λ now k v ttl c. put k (some (record { value = v; deadline = some (now + ttl * second) })) c;
  delete = λ now k c. put k none c;
  getdel = λ now k c. (value_of (live now (c k)), put k none c);
  get_lem = λ now k c. refl;
  exists_lem = λ now k c. refl;
  incr_lem = λ now k c n h. incr_counted now k c (count_of (live now (c k))) n h;
  entry-expire = λ now k ttl c j. refl;
  entry-set = λ now k v ttl c j. refl;
  entry-delete = λ now k c j. refl;
  getdel_value = λ now k c. refl;
  entry-getdel = λ now k c j. refl;
}

pub option_map_id : (o : Option Transaction) → Option.map (λ t. t) o ≡ o
option_map_id none = refl
option_map_id (some t) = refl

abbrev orm : OrmSession
orm = record {
  Session = Transaction;
  view = λ t. t;
  select_users = λ p t. filter p t.working.users;
  select_tokens = λ p t. filter p t.working.refresh_tokens;
  select_courses = λ p n t. take n (filter p (newest_first t.working.courses));
  get_user = λ i t. head? (filter (λ u. u.id == i) t.working.users);
  get_course = λ i t. head? (filter (λ c. c.id == i) t.working.courses);
  add_user = λ u t. with_working t (insert_user u t.working);
  add_token = λ r t. with_working t (insert_token r t.working);
  add_course = λ c t. with_working t (insert_course c t.working);
  save_user =
      λ u t. record t { working = record t.working { users = replace_user u t.working.users } };
  save_token = λ r t. record t {
    working = record t.working { refresh_tokens = replace_token r t.working.refresh_tokens };
  };
  save_course = λ c t. record t {
    working = record t.working { courses = replace_course c t.working.courses };
  };
  commit = λ t. record t { stored = t.working };
  rollback = λ t. record t { working = t.stored };
  select_users_lem = λ p t. refl;
  select_tokens_lem = λ p t. refl;
  select_courses_lem = λ p n t. refl;
  get_user_lem = λ i t. refl;
  get_course_lem = λ i t. refl;
  add_user_lem = λ u t. option_map_id _;
  add_token_lem = λ r t. option_map_id _;
  add_course_lem = λ c t. option_map_id _;
  view-save_user = λ u t. refl;
  view-save_token = λ r t. refl;
  view-save_course = λ c t. refl;
  view-commit = λ t. refl;
  view-rollback = λ t. refl;
}

-- A UUID is printed as so many strokes.
abbrev strokes : ℕ → String
strokes zero = ""
strokes (suc n) = String.◌∷◌ "1" (strokes n)

abbrev count_strokes : String → ℕ
count_strokes String.[] = 0
count_strokes (String.◌∷◌ c s) = suc (count_strokes s)

pub count_strokes-strokes : (n : ℕ) → count_strokes (strokes n) ≡ n
count_strokes-strokes zero = refl
count_strokes-strokes (suc n) = ap suc (count_strokes-strokes n)

abbrev decoded : ℕ → Claims × Unit {0} → Option Claims
decoded now t = if leb t.0.iat now && ltb now t.0.exp then some t.0 else none

pub verify_hash : (s : String) → (if s == s then matches else mismatch) ≡ matches
verify_hash s = rw ==-refl

pub header_same : (k v : String) (o : Option String) → (if k == k then some v else o) ≡ some v
header_same k v o = rw ==-refl

pub decoded-some : (now : ℕ) (c : Claims) → c.iat ≤ now → now < c.exp → decoded now (c, tt) ≡ some c
decoded-some now c h k = rw (le→leb _ _ h, lt→ltb _ _ k)

pub decoded-none : (now : ℕ) (c : Claims) → c.exp ≤ now → decoded now (c, tt) ≡ none
decoded-none now c h = ground arith

abbrev crypto : CryptoLibrary
crypto = record {
  Private = Unit {0};
  Public = Unit {0};
  Token = Claims × Unit {0};
  private_pem = λ path. rsa tt;
  public_pem = λ path. rsa tt;
  public_of = λ k. tt;
  public_numbers = λ k. (3233, 17);
  hash = λ salt password. password;
  verify = λ hashed password. if hashed == password then matches else mismatch;
  sha256_hex = λ raw. raw;
  token_urlsafe = strokes;
  uuid4 = λ n. n;
  str_uuid = strokes;
  parse_uuid = λ s. some (count_strokes s);
  encode = λ c k alg kid. (c, tt);
  decode = λ now t k alg. decoded now t;
  verify-hash = λ salt password. verify_hash password;
  parse_uuid-str_uuid = λ i. ap some (count_strokes-strokes i);
  decode-encode = λ now c k alg kid h l. decoded-some now c h l;
  decode_expired = λ now c k alg kid h. decoded-none now c h;
}

-- Texts that keep what they encode.
abbrev texts : TextLibrary
texts = record {
  isoformat = strokes;
  fromisoformat = λ s. some (count_strokes s);
  Json = List (String × String);
  dumps = λ p. p;
  loads = λ j. some j;
  Base64 = Option (List (String × String));
  b64encode = λ j. some j;
  b64decode = λ b. b;
  is_empty = is_none;
  Headers = String → Option String;
  header = λ h k. h k;
  set_header = λ k v h j. if k == j then some v else h j;
  ilike = λ title pattern. title == pattern;
  email = λ s. some s;
  fromisoformat-isoformat = λ t. ap some (count_strokes-strokes t);
  loads-dumps = λ p. refl;
  b64decode-b64encode = λ j. refl;
  b64encode-is_empty = λ p. refl;
  header-set_header = λ k v h. header_same k v (h k);
}

abbrev pub memory : Platform
memory = record { redis = redis; orm = orm; crypto = crypto; texts = texts }
