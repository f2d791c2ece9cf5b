-- ===== src/Courses/Bounds.antt =====
-- How much a listing of the courses gives out: src/modules/courses/routes.py bounds the limit of a
-- page, and `list_courses` of src/modules/courses/service.py keeps to the limit.
use smartcourse_core.Base.{
  List, Option, String, [], arith, length, length-map, none, refl, some, suc, take, zero, ℕ, ◌&&◌,
  ◌+◌, ◌∷◌, ◌≡◌, ◌≤◌,
}
use smartcourse_core.Platform.{Platform}
use smartcourse_core.Core.Handlers.{JsonResponse}
use smartcourse_core.Core.Logging.{current_request_id}
use smartcourse_core.Core.Response.{Envelope, CursorPage, success}
use smartcourse_core.Core.Validation.{Checked, good}
use smartcourse_core.Courses.Model.{Course, CourseLevel, CourseStatus}
use smartcourse_core.Courses.Schemas.{
  ListQuery, level_of, status_of_text, optional_member, limit_field, search_field,
}
use smartcourse_core.Courses.Service.{
  CoursePublic, public_course, list_courses, page_of, position_of, selects, is_after,
}
use smartcourse_core.Courses.Routes.{list_courses_route, list_of, respond}
use smartcourse_core.Db.Postgres.{in_transaction}
use smartcourse_core.Effects.{World, M, Result, ok, err, ◌>>=◌, pure, query}

-- What is returned, if anything is, has the property.
abbrev pub Returned : {A : Type 0} → (A → Type 0) → Result A → Type 0
Returned Q (ok a) = Q a
Returned Q (err e) = Unit

length-take-≤ : {A : Type 0} (n : ℕ) (l : List A) → length (take n l) ≤ n
length-take-≤ zero l = omega arith
length-take-≤ (suc n) [] = omega arith
length-take-≤ (suc n) (x ∷ l) = omega (arith, length-take-≤ n l)

page_of-length :
    (P : Platform) (limit : ℕ) (rows : List Course) → length (page_of P limit rows).items ≤ limit
page_of-length P limit rows =
    rw (length-map public_course (take limit rows)) (length-take-≤ limit rows)

-- A page of at most so many items.
abbrev AtMost : {P : Platform} → ℕ → CursorPage P CoursePublic → Type 0
AtMost n page = length page.items ≤ n

-- The limit that a request asks for.
abbrev pub asked : Option ℕ → ℕ
asked none = 20
asked (some n) = n

limit_field-good : (o : Option ℕ) (n : ℕ) → limit_field o ≡ good n → (n ≤ asked o) × (n ≤ 100)
limit_field-good none n h = (ground arith, ground arith)
limit_field-good (some m) n h = (ground arith, ground arith)

-- A page as long as it may be: no longer than what is asked for, and than 100.
abbrev pub Fits : {P : Platform} → Option ℕ → CursorPage P CoursePublic → Type 0
Fits o page = (length page.items ≤ asked o) × (length page.items ≤ 100)

module _ {P : Platform} where
  abbrev Returns : {A : Type 0} → (A → Type 0) → M P A → Type 0
  Returns Q m = (w : World P) → Returned Q (m w).0

  Returned-after :
      {A B : Type 0} (Q : B → Type 0) (f : A → M P B) (r : Result A) (w : World P)
      → ((a : A) → Returns Q (f a))
      → Returned Q (elim r as (λ _. Result B × World P) [ ok a ↦ f a w | err e ↦ (err e, w) ]).0
  Returned-after Q f (ok a) w h = h a w
  Returned-after Q f (err e) w h = tt

  Returns-bind :
      {A B : Type 0} (Q : B → Type 0) (m : M P A) (f : A → M P B)
      → ((a : A) → Returns Q (f a))
      → Returns Q (m >>= f)
  Returns-bind Q m f h w = Returned-after Q f (m w).0 (m w).1 h

  -- The property of what goes in decides that of what comes out.
  Returned-with :
      {A B : Type 0} (R : A → Type 0) (Q : B → Type 0) (f : A → M P B) (r : Result A) (w : World P)
      → Returned R r
      → ((a : A) → R a → Returns Q (f a))
      → Returned Q (elim r as (λ _. Result B × World P) [ ok a ↦ f a w | err e ↦ (err e, w) ]).0
  Returned-with R Q f (ok a) w g h = h a g w
  Returned-with R Q f (err e) w g h = tt

  Returns-with :
      {A B : Type 0} (R : A → Type 0) (Q : B → Type 0) (m : M P A) (f : A → M P B)
      → Returns R m
      → ((a : A) → R a → Returns Q (f a))
      → Returns Q (m >>= f)
  Returns-with R Q m f g h w = Returned-with R Q f (m w).0 (m w).1 (g w) h

  Returned-transaction :
      {A : Type 0} (Q : A → Type 0) (r : Result A) (w : World P)
      → Returned Q r
      → Returned Q
          (elim r as (λ _. Result A × World P) [
            | ok a ↦ (ok a, record w { session = P.commit w.session })
            | err e ↦ (err e, record w { session = P.rollback w.session })
          ]).0
  Returned-transaction Q (ok a) w h = h
  Returned-transaction Q (err e) w h = tt

  Returns-transaction :
      {A : Type 0} (Q : A → Type 0) (m : M P A) → Returns Q m → Returns Q (in_transaction m)
  unfolding in_transaction
  Returns-transaction Q m h w = Returned-transaction Q (m w).0 (m w).1 (h w)

  list_courses-AtMost :
      (q : Option String) (level : Option CourseLevel) (status : Option CourseStatus) (limit : ℕ)
      (cursor : Option P.Base64)
      → Returns (AtMost limit) (list_courses q level status limit cursor)
  unfolding list_courses
  list_courses-AtMost q level status limit cursor =
      Returns-bind (AtMost limit) (position_of cursor)
        (λ position. do
          rows ← query (
              P.select_courses (λ c. selects P q level status c && is_after position c) (limit + 1))
          pure (page_of P limit rows))
        (λ position w. page_of-length P limit (
          P.select_courses (λ c. selects P q level status c && is_after position c) (limit + 1)
            w.session))

  fitting :
      (r : Result (CursorPage P CoursePublic)) (limit : ℕ) (o : Option ℕ)
      → Returned (AtMost limit) r
      → (limit ≤ asked o) × (limit ≤ 100)
      → Returned (Fits o) r
  fitting (ok page) limit o h (a, b) = (omega (arith, h), omega (arith, h))
  fitting (err e) limit o h b = tt

  list_of-Fits :
      (q : Checked (Option String)) (level : Checked (Option CourseLevel))
      (status : Checked (Option CourseStatus)) (limit : Checked ℕ) (cursor : Option P.Base64)
      (o : Option ℕ)
      → ((n : ℕ) → limit ≡ good n → (n ≤ asked o) × (n ≤ 100))
      → Returns (Fits o) (list_of q level status limit cursor)
  list_of-Fits (good q) (good level) (good status) (good limit) cursor o h w =
      fitting (list_courses q level status limit cursor w).0 limit o
        (list_courses-AtMost q level status limit cursor w) (h limit refl)
  list_of-Fits q level status limit cursor o h w = tt

  -- Whatever the query of a listing: if it is answered, the page has no more courses than the limit
  -- that was asked for, which is 20 if none was, and no more than 100.
  pub list_courses_route_bound :
      (query : ListQuery P) (w : World P)
      → Returned (λ r. Fits query.limit r.content.value) (list_courses_route query w).0
  unfolding list_courses_route success current_request_id
  list_courses_route_bound query =
      let Q : JsonResponse (Envelope (CursorPage P CoursePublic)) → Type 0 =
        λ r. Fits query.limit r.content.value in
      let listing =
        list_of (search_field query.q) (optional_member level_of query.level)
          (optional_member status_of_text query.status) (limit_field query.limit) query.cursor in
      let reply : CursorPage P CoursePublic
          → M P (JsonResponse (Envelope (CursorPage P CoursePublic))) =
        λ page. success page >>= λ content. respond 200 content in
      Returns-transaction Q (listing >>= reply) (
        Returns-with (Fits query.limit) Q listing reply
          (list_of-Fits (search_field query.q) (optional_member level_of query.level)
            (optional_member status_of_text query.status) (limit_field query.limit) query.cursor
            query.limit (limit_field-good query.limit))
          (λ page fits v. fits))
