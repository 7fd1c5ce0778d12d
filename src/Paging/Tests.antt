-- ===== src/Paging/Tests.antt =====
-- The pages of a table of five rows.
use notai_api.Base.{List, [], arith, drop, if◌then◌else◌, refl, take, ℕ, ◌+◌, ◌-◌, ◌^◌, ◌∷◌, ◌≡◌}
use notai_api.Base.Int.{mul64, negsuc, pos, sub64, wrap64, ℤ, ◌*ℤ◌, ◌-ℤ◌}
use notai_api.Base.Text.{codes, text_eq}
use notai_api.Errors.{ok}
use notai_api.Paging.{PaginateQuery, Rows, new_paginate_response, offset}
use notai_api.Paging.Pages.{fetch_pages, pages-roundtrip}

abbrev five : List ℕ
five = 1 ∷ 2 ∷ 3 ∷ 4 ∷ 5 ∷ []

abbrev downwards : List ℕ
downwards = 5 ∷ 4 ∷ 3 ∷ 2 ∷ 1 ∷ []

abbrev magnitude : ℤ → ℕ
magnitude (pos n) = n
magnitude (negsuc n) = 0

abbrev table : Rows ℕ
table = record {
  count = ok (pos 5);
  select = λ order l o.
      let rows = if text_eq order (codes "created_at asc") then five else downwards in
      ok (take (magnitude l) (drop (magnitude o) rows));
}

abbrev query : PaginateQuery
query = record { page = pos 1; limit = pos 2; sort_by = []; order_by = codes "asc"; search = [] }

pages-roundtrip_example :
    (n : ℕ) × ((new_paginate_response (λ a b. pos 3) five (pos 5) query).total_pages ≡ pos n)
    × (fetch_pages table query n ≡ ok five)
pages-roundtrip_example =
    pages-roundtrip table five (λ a b. pos 3) query 2 (3, refl, omega arith, omega arith) refl
      (λ l o. refl) (omega arith) refl (omega arith) (omega arith)

-- A page far beyond the last one: the product of the offset wraps around.
offset_wraps :
    offset (record query { page = pos (2 ^ 62 + 1); limit = pos 2 }) ≡ negsuc (2 ^ 63 - 1)
unfolding offset sub64 ◌-ℤ◌ mul64 ◌*ℤ◌ wrap64
offset_wraps = refl
