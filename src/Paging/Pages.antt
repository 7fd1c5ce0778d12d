-- ===== src/Paging/Pages.antt =====
-- What queries for the pages of a list give.
use native.Mathlib.Nat.{mul-suc, suc-mul}
use notai_api.Base.{
  Bool-cases, List, [], ap, arith, drop, false, if◌then◌else◌, inl, inr, is_empty, length, not,
  refl, suc, take, take-all, take-append-drop, true, zero, ℕ, ◌&&◌, ◌*◌, ◌++◌, ◌+◌, ◌<◌, ◌^◌, ◌||◌,
  ◌∙◌, ◌≡◌, ◌≤◌,
}
use notai_api.Base.Int.{leb_ℤ, ltb_ℤ, mul64-pos, pos, sub64, sub64-pred, ℤ, ◌≤ℤ◌}
use notai_api.Base.Text.{Text, codes, text_eq}
use notai_api.Errors.{Result, ok, ◌>>=◌}
use notai_api.Paging.{
  PaginateQuery, Rows, max_limit, new_paginate_response, normalize, offset, order_by_asc,
  order_by_desc, paginate,
}

-- The members of the pages 1 to n, one after the other.
abbrev pub fetch_pages : {A : Type 0} → Rows A → PaginateQuery → ℕ → Result (List A)
fetch_pages rows q zero = ok []
fetch_pages rows q (suc n) = fetch_pages rows q n >>= λ before.
    paginate rows (record q { page = pos (suc n) }) >>= λ answer. ok (before ++ answer.0)

-- LIMIT and OFFSET select from these rows under this ORDER BY.
abbrev pub SelectsFrom : {A : Type 0} → Rows A → Text → List A → Type 0
SelectsFrom rows order xs = (l o : ℕ) → rows.select order (pos l) (pos o) ≡ ok (take l (drop o xs))

-- The ORDER BY of a query: by the time of creation where it names no column, and downwards unless it
-- asks for "asc".
abbrev pub ordering : PaginateQuery → Text
ordering q =
    (if is_empty q.sort_by then codes "created_at" else q.sort_by)
    ++ (if text_eq q.order_by (codes "asc") then codes " asc" else codes " desc")

ordering_lem :
    (q : PaginateQuery)
    → (if is_empty q.sort_by then codes "created_at" else q.sort_by)
        ++ (codes " " ++ (if text_eq q.order_by order_by_asc then order_by_asc else order_by_desc))
      ≡ ordering q
ordering_lem q = elim (Bool-cases (text_eq q.order_by (codes "asc"))) [
  | inl e ↦ rw e refl
  | inr e ↦ rw e refl
]

-- math.Ceil rounds this quotient up.
abbrev pub RoundsUp : (ℤ → ℤ → ℤ) → ℕ → ℕ → Type 0
RoundsUp ceil_quotient a b =
    (n : ℕ) × (ceil_quotient (pos a) (pos b) ≡ pos n) × (a ≤ n * b) × (n * b < a + b)

normalize_normal :
    (q : PaginateQuery)
    → leb_ℤ q.page (pos 0) ≡ false
    → leb_ℤ q.limit (pos 0) ≡ false
    → ltb_ℤ (pos max_limit) q.limit ≡ false
    → (text_eq q.order_by order_by_asc || text_eq q.order_by order_by_desc) ≡ true
    → normalize q ≡ q
unfolding normalize
normalize_normal q a b c d =
    let e : (not (text_eq q.order_by order_by_asc) && not (text_eq q.order_by order_by_desc))
        ≡ false =
      ground arith in
    rw (a, b, c, e) refl

order-normalize :
    (q : PaginateQuery)
    → let r = normalize q in
      (text_eq r.order_by order_by_asc || text_eq r.order_by order_by_desc) ≡ true
unfolding normalize
order-normalize q =
    elim (Bool-cases
      (not (text_eq q.order_by order_by_asc) && not (text_eq q.order_by order_by_desc))) [
        | inl e ↦ rw e refl
        | inr e ↦ rw e (ground arith)
      ]

bounds-normalize :
    (q : PaginateQuery)
    → let r = normalize q in
      (leb_ℤ r.page (pos 0) ≡ false)
      × (leb_ℤ r.limit (pos 0) ≡ false)
      × (ltb_ℤ (pos max_limit) r.limit ≡ false)
unfolding normalize
bounds-normalize q = ground arith

-- Normalize leaves a page from 1, a limit from 1 to 200 and one of the two orders, and a query that
-- is so already as it is.
normalize_lem :
    (q : PaginateQuery)
    → let r = normalize q in
      (pos 1 ≤ℤ r.page)
      × (pos 1 ≤ℤ r.limit)
      × (r.limit ≤ℤ pos max_limit)
      × ((text_eq r.order_by order_by_asc || text_eq r.order_by order_by_desc) ≡ true)
      × (normalize r ≡ r)
normalize_lem q =
    let r = normalize q in
    let (a, b, c) = bounds-normalize q in
    let d = order-normalize q in
    (ground arith, ground arith, ground arith, d, normalize_normal r a b c d)

offset-page :
    (q : PaginateQuery) (n l : ℕ)
    → q.limit ≡ pos l
    → n < 2 ^ 63
    → n * l < 2 ^ 63
    → offset (record q { page = pos (suc n) }) ≡ pos (n * l)
unfolding offset
offset-page q n l e h k =
    let a : sub64 (pos (suc n)) (pos 1) ≡ pos n = sub64-pred n h in rw (a, e) (mul64-pos n l k)

le_mul : (n l : ℕ) → 0 < l → n ≤ n * l
le_mul n zero z = absurd (omega arith)
le_mul n (suc l) z = omega (arith, mul-suc n l)

module _ {A : Type 0} (rows : Rows A) (xs : List A) where
  fetch_pages-take :
      (q : PaginateQuery) (n l : ℕ)
      → rows.count ≡ ok (pos (length xs))
      → SelectsFrom rows (ordering q) xs
      → q.limit ≡ pos l
      → n < 2 ^ 63
      → n * l < 2 ^ 63
      → fetch_pages rows q n ≡ ok (take (n * l) xs)
  unfolding paginate
  fetch_pages-take q zero l c f e h k = let z : 0 * l ≡ 0 = omega arith in rw z refl
  fetch_pages-take q (suc n) l c f e h k =
      let s : suc n * l ≡ n * l + l = suc-mul n l in
      let before = fetch_pages-take q n l c f e (omega arith) (omega (arith, s)) in
      let o = offset-page q n l e (omega arith) (omega (arith, s)) in
      rw (before, c, o, e, ordering_lem q, f, s) (ap (λ ys. ok ys) (take-append-drop (n * l) l xs))

  -- For a table of less than 2 ^ 53 rows whose LIMIT and OFFSET, under the ORDER BY of the query (its
  -- column, or else the time of creation, upwards for "asc" and else downwards), select from the rows
  -- in one order, and a query with a limit from 1 to 200 whose number of pages is rounded up: the
  -- members of the pages from 1 to the number of pages that the response reports, one after the other,
  -- are all rows in that order.
  pub pages-roundtrip :
      (ceil_quotient : ℤ → ℤ → ℤ) (q : PaginateQuery) (l : ℕ)
      → RoundsUp ceil_quotient (length xs) l
      → rows.count ≡ ok (pos (length xs))
      → SelectsFrom rows (ordering q) xs
      → length xs < 2 ^ 53
      → q.limit ≡ pos l
      → 0 < l
      → l ≤ max_limit
      → (n : ℕ) × ((new_paginate_response ceil_quotient xs (pos (length xs)) q).total_pages ≡ pos n)
        × (fetch_pages rows q n ≡ ok xs)
  unfolding new_paginate_response
  pages-roundtrip ceil_quotient q l ceil c f b e z m =
      let (n, p, above, below) = ceil in
      let k : n ≤ n * l = le_mul n l z in
      (
        n,
        rw e p,
        fetch_pages-take q n l c f e (omega (arith, k)) (omega arith)
            ∙ ap (λ ys. ok ys) (take-all (n * l) xs above),
      )
