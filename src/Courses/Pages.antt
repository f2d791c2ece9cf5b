-- ===== src/Courses/Pages.antt =====
-- The pages of `list_courses`, from one cursor to the next.
use smartcourse_core.Base.{
  Bool, List, Option, String, [], ap, arith, drop, false, filter, inl, inr, last?, length, le→ltb,
  lt-or-≤, lt→ltb, map, none, refl, some, suc, take, true, zero, ℕ, ◌&&◌, ◌++◌, ◌+◌, ◌<◌, ◌∙◌, ◌∷◌,
  ◌≡◌, ◌≤◌, nat_eq, string_eq,
}
use smartcourse_core.Base.Rows.{Unique}
use smartcourse_core.Base.Prefixes.{
  take-take, take-all, more-take, length-drop, drop-drop, last-some, last-drop, map-take-drop,
  append_nil,
}
use smartcourse_core.Platform.{Platform}
use smartcourse_core.Platform.Orm.{newest_first}
use smartcourse_core.Core.Response.{sort_keys, CursorPage, encode_cursor, decode_cursor}
use smartcourse_core.Core.Errors.{unexpected}
use smartcourse_core.Courses.Model.{Course, CourseLevel, CourseStatus}
use smartcourse_core.Courses.Service.{
  CoursePublic, public_course, selects, is_after, cursor_of, next_cursor, page_of, position_of,
  read_position, list_courses,
}
use smartcourse_core.Courses.Order.{position, newest_first-Sorted, filter-Sorted, filter-is_after}
use smartcourse_core.Effects.{World, or_raise, M, ok, query, pure, bind-ok, ◌>>=◌}

filter-and :
    (p q : Course → Bool) (l : List Course) → filter (λ c. p c && q c) l ≡ filter q (filter p l)
filter-and p q [] = refl
filter-and p q (c ∷ l) = ground (arith, filter-and p q l)

filter-true : (p : Course → Bool) (l : List Course) → filter (λ c. p c && true) l ≡ filter p l
filter-true p [] = refl
filter-true p (c ∷ l) = ground (arith, filter-true p l)

module _ {P : Platform} where
  -- What is written into a cursor is read back, in the order of the keys.
  decode-encode_cursor :
      (payload : List (String × String)) (w : World P)
      → decode_cursor (encode_cursor P payload) w ≡ (ok (sort_keys payload), w)
  unfolding encode_cursor decode_cursor
  decode-encode_cursor payload w =
      bind-ok (or_raise (P.b64decode (encode_cursor P payload)) (unexpected "ValueError"))
        (λ raw. or_raise (P.loads raw) (unexpected "ValueError")) w
        (ap (λ o. or_raise o (unexpected "ValueError") w)
          (P.b64decode-b64encode (P.dumps (sort_keys payload))))
      ∙ ap (λ o. or_raise o (unexpected "ValueError") w) (P.loads-dumps (sort_keys payload))

  read_position-ok :
      (c : Course) (w : World P)
      → read_position (("created_at", P.isoformat c.created_at) ∷ ("id", P.str_uuid c.id) ∷ []) w
        ≡ (ok (position c), w)
  read_position-ok c w =
      let time = P.fromisoformat-isoformat c.created_at in
      let uuid = P.parse_uuid-str_uuid c.id in simp (time, uuid, ◌>>=◌)

  -- A cursor holds the position of the course that it was made from.
  pub position_of-cursor_of :
      (c : Course) (w : World P) → position_of (some (cursor_of P c)) w ≡ (ok (position c), w)
  unfolding encode_cursor
  position_of-cursor_of c w =
      let payload = ("created_at", P.isoformat c.created_at) ∷ ("id", P.str_uuid c.id) ∷ [] in
      let full : P.is_empty (cursor_of P c) ≡ false = P.b64encode-is_empty (sort_keys payload) in
      rw full (
        bind-ok (decode_cursor (cursor_of P c)) read_position w (decode-encode_cursor payload w)
        ∙ read_position-ok c w)

module _ {P : Platform} (q : Option String) (level : Option CourseLevel)
    (status : Option CourseStatus) (limit : ℕ) (w : World P) where
  -- All rows of the listing, in order.
  abbrev pub listed : List Course
  listed = filter (selects P q level status) (newest_first (P.view w.session).working.courses)

  first_page :
      list_courses q level status limit none w ≡ (ok (page_of P limit (take (limit + 1) listed)), w)
  unfolding list_courses
  first_page =
      ap (λ l. (ok (page_of P limit l), w))
        (P.select_courses_lem (λ c. selects P q level status c && true) (limit + 1) w.session
          ∙ ap (take (limit + 1)) (
              filter-true (selects P q level status)
                (newest_first (P.view w.session).working.courses)))

  -- The cursor to the last of the first `n` rows gives the page that begins after them.
  next_page :
      (n : ℕ) {c : Course}
      → Unique (λ d. d.id) (P.view w.session).working.courses
      → last? (take n listed) ≡ some c
      → list_courses q level status limit (some (cursor_of P c)) w
        ≡ (ok (page_of P limit (take (limit + 1) (drop n listed))), w)
  unfolding list_courses
  next_page n {c} unique last =
      let rows = newest_first (P.view w.session).working.courses in
      let sorted =
        filter-Sorted (selects P q level status) rows
          (newest_first-Sorted (P.view w.session).working.courses unique) in
      bind-ok (position_of (some (cursor_of P c)))
        (λ at_. do
          found ←
              query
                (P.select_courses (λ d. selects P q level status d && is_after at_ d) (limit + 1))
          pure (page_of P limit found))
        w (position_of-cursor_of c w)
      ∙ ap (λ l. (ok (page_of P limit l), w))
          (P.select_courses_lem (λ d. selects P q level status d && is_after (position c) d)
              (limit + 1) w.session
            ∙ ap (take (limit + 1)) (
                filter-and (selects P q level status) (is_after (position c)) rows
                ∙ filter-is_after n listed sorted last))

module _ {P : Platform} (list : Option P.Base64 → M P (CursorPage P CoursePublic)) where
  -- A client that asks for one page after the other, at most `fuel` of them.
  abbrev pub follow : ℕ → Option P.Base64 → M P (List CoursePublic)
  follow zero cursor = pure []
  follow (suc fuel) cursor = do
    page ← list cursor
    rest ← elim page.next_cursor [ none ↦ pure [] | some c ↦ follow fuel (some c) ]
    pure (page.items ++ rest)

module _ {P : Platform} (q : Option String) (level : Option CourseLevel)
    (status : Option CourseStatus) (m : ℕ) (w : World P)
    (unique : Unique (λ d. d.id) (P.view w.session).working.courses) where
  abbrev rows : List Course
  rows = listed q level status (suc m) w

  -- A page of the rows `l` that are left: the last one, and one with more to come.
  page_of-last :
      (l : List Course)
      → length l ≤ suc m
      → page_of P (suc m) (take (suc m + 1) l)
        ≡ record { items = map public_course l; next_cursor = none; has_more = false }
  page_of-last l few =
      let one : suc m + 1 ≡ suc (suc m) = omega arith in
      let no_more = more-take (suc m) l ∙ le→ltb (suc m) (length l) few in
      rw (one, no_more, take-take (suc m) l, take-all (suc m) l few) refl

  page_of-more :
      (l : List Course) {c : Course}
      → suc m < length l
      → last? (take (suc m) l) ≡ some c
      → page_of P (suc m) (take (suc m + 1) l) ≡ record {
        items = map public_course (take (suc m) l);
        next_cursor = some (cursor_of P c);
        has_more = true;
      }
  page_of-more l many last =
      let one : suc m + 1 ≡ suc (suc m) = omega arith in
      let has_more = more-take (suc m) l ∙ lt→ltb (suc m) (length l) many in
      rw (one, has_more, take-take (suc m) l, next_cursor, last) refl

  -- What `follow` does after a page.
  abbrev after_page : ℕ → CursorPage P CoursePublic → M P (List CoursePublic)
  after_page fuel page = do
    rest ← elim page.next_cursor [
      | none ↦ pure []
      | some c ↦ follow (list_courses q level status (suc m)) fuel (some c)
    ]
    pure (page.items ++ rest)

  last_of :
      (fuel n : ℕ) (cursor : Option P.Base64)
      → list_courses q level status (suc m) cursor w
        ≡ (ok (page_of P (suc m) (take (suc m + 1) (drop n rows))), w)
      → length (drop n rows) ≤ suc m
      → follow (list_courses q level status (suc m)) (suc fuel) cursor w
        ≡ (ok (map public_course (drop n rows)), w)
  last_of fuel n cursor here few =
      bind-ok (list_courses q level status (suc m) cursor) (after_page fuel) w
        (here ∙ ap (λ page. (ok page, w)) (page_of-last (drop n rows) few))
      ∙ ap (λ l. (ok l, w)) (append_nil (map public_course (drop n rows)))

  follow-from :
      (fuel n : ℕ) (cursor : Option P.Base64)
      → list_courses q level status (suc m) cursor w
        ≡ (ok (page_of P (suc m) (take (suc m + 1) (drop n rows))), w)
      → n ≤ length rows
      → length (drop n rows) ≤ fuel
      → follow (list_courses q level status (suc m)) (suc fuel) cursor w
        ≡ (ok (map public_course (drop n rows)), w)
  follow-from zero n cursor here n_in enough = last_of zero n cursor here (omega arith)
  follow-from (suc fuel) n cursor here n_in enough = elim (lt-or-≤ (suc m) (length (drop n rows))) [
    | inr few ↦ last_of (suc fuel) n cursor here few
    | inl many ↦
        let (c, last) = last-some m (drop n rows) (omega arith) in
        let left = length-drop n rows n_in in
        let short = length-drop (suc m) (drop n rows) (omega arith) in
        let beyond = drop-drop n (suc m) rows in
        let fewer : length (drop (n + suc m) rows) ≤ fuel = rw (← beyond) (omega arith) in
        let rest =
          follow-from fuel (n + suc m) (some (cursor_of P c))
            (next_page q level status (suc m) w (n + suc m) unique (last-drop n (suc m) rows last))
            (omega arith) fewer in
        bind-ok (list_courses q level status (suc m) cursor) (after_page (suc fuel)) w
          (here ∙ ap (λ page. (ok page, w)) (page_of-more (drop n rows) many last))
        ∙ bind-ok (follow (list_courses q level status (suc m)) (suc fuel) (some (cursor_of P c)))
            (λ later. pure (map public_course (take (suc m) (drop n rows)) ++ later)) w rest
        ∙ ap (λ l. (ok l, w)) (rw (← beyond) (map-take-drop public_course (suc m) (drop n rows)))
  ]

  -- Following the cursors from the first page to the end gives every course that the filters
  -- select, newest first, each once: no page skips one or repeats one, whatever the limit (from 1).
  pub follow_lists_all :
      (fuel : ℕ)
      → length rows ≤ fuel
      → follow (list_courses q level status (suc m)) (suc fuel) none w
        ≡ (ok (map public_course rows), w)
  follow_lists_all fuel enough =
      follow-from fuel 0 none (first_page q level status (suc m) w) (omega arith) enough
