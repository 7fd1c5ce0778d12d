-- ===== src/Paging.antt =====
-- internal/domain/paginate/paginate.go and internal/infrastructure/persistence/read/paginate.go.
pub mod Pages
mod Tests
use notai_api.Base.{List, if◌then◌else◌, is_empty, not, ℕ, ◌&&◌, ◌++◌}
use notai_api.Base.Int.{leb_ℤ, ltb_ℤ, mul64, pos, sub64, ℤ}
use notai_api.Base.Text.{Text, codes, text_eq}
use notai_api.Errors.{◌>>=◌, Result, ok}

pub record PaginateQuery : Type 0 where
  pub page : ℤ
  pub limit : ℤ
  pub sort_by : Text
  pub order_by : Text
  pub search : Text

abbrev pub order_by_asc : Text
order_by_asc = codes "asc"

abbrev pub order_by_desc : Text
order_by_desc = codes "desc"

abbrev pub default_limit : ℕ
default_limit = 20

abbrev pub max_limit : ℕ
max_limit = 200

unfoldable pub normalize : PaginateQuery → PaginateQuery
normalize q =
    let l = if leb_ℤ q.limit (pos 0) then pos default_limit else q.limit in
    record q {
      page = if leb_ℤ q.page (pos 0) then pos 1 else q.page;
      limit = if ltb_ℤ (pos max_limit) l then pos max_limit else l;
      order_by =
          if not (text_eq q.order_by order_by_asc) && not (text_eq q.order_by order_by_desc)
          then order_by_asc
          else q.order_by;
    }

unfoldable pub offset : PaginateQuery → ℤ
offset q = mul64 (sub64 q.page (pos 1)) q.limit

pub record PaginateResponse (A : Type 0) : Type 0 where
  pub total : ℤ
  pub page : ℤ
  pub limit : ℤ
  pub total_pages : ℤ
  pub members : List A

-- `ceil_quotient a b` is int(math.Ceil(float64(a) / float64(b))).
unfoldable pub new_paginate_response :
    {A : Type 0} → (ℤ → ℤ → ℤ) → List A → ℤ → PaginateQuery → PaginateResponse A
new_paginate_response ceil_quotient members total q = record {
  total = total;
  page = q.page;
  limit = q.limit;
  total_pages = ceil_quotient total q.limit;
  members = members;
}

-- What Paginate asks of the database: the number of rows, and the rows in an order, from an offset,
-- up to a limit.
pub record Rows (A : Type 0) : Type 0 where
  pub count : Result ℤ
  pub select : Text → ℤ → ℤ → Result (List A)

-- Paginate, and the query that it prepares. The order is descending unless it is "asc".
unfoldable pub paginate : {A : Type 0} → Rows A → PaginateQuery → Result (List A × ℤ)
paginate rows q =
    let sort_by = if is_empty q.sort_by then codes "created_at" else q.sort_by in
    let order_by = if text_eq q.order_by order_by_asc then order_by_asc else order_by_desc in
    rows.count >>= λ total.
    rows.select (sort_by ++ (codes " " ++ order_by)) q.limit (offset q) >>= λ members.
    ok (members, total)
