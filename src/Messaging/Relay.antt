-- ===== src/Messaging/Relay.antt =====
-- internal/infrastructure/persistence/outbox: the outbox table (repository.go) and the relay that
-- publishes it (relay.go).
pub mod Delivery
use notai_api.Base.{
  Bool, List, Option, [], any_of, false, true, not, if◌then◌else◌, is_empty, is_none, keep_if, leb,
  none, some, suc, take, zero, ℕ, ◌++◌, ◌==◌, ◌∷◌,
}
use notai_api.Base.Int.{negsuc, pos, ℤ}
use notai_api.Base.Text.{Text}
use notai_api.Base.Values.{Time, Uuid}
use notai_api.Errors.{Err, external}

-- A row of outbox_events.
pub record OutboxRow : Type 0 where
  pub id : Uuid
  pub aggregate_id : Text
  pub event_type : Text
  pub payload : Text
  pub created_at : Time
  pub published_at : Option Time

abbrev pub has_id : Uuid → OutboxRow → Bool
has_id i r = i == r.id

abbrev pub is_unpublished : OutboxRow → Bool
is_unpublished r = is_none r.published_at

-- StoreEvents: the rows of new events; a row whose primary key is there is left out.
unfoldable pub store_events : List OutboxRow → List OutboxRow → List OutboxRow
store_events [] table = table
store_events (r ∷ rs) table =
    store_events rs (
      if any_of (has_id r.id) table
      then table
      else table ++ (record r { published_at = none } ∷ []))

-- ORDER BY created_at ASC
unfoldable pub insert_row : OutboxRow → List OutboxRow → List OutboxRow
insert_row r [] = r ∷ []
insert_row r (x ∷ xs) = if leb r.created_at x.created_at then r ∷ x ∷ xs else x ∷ insert_row r xs

unfoldable pub sort_rows : List OutboxRow → List OutboxRow
unfolding insert_row
sort_rows [] = []
sort_rows (r ∷ rs) = insert_row r (sort_rows rs)

unfoldable pub fetch_unpublished : ℕ → List OutboxRow → List OutboxRow
unfolding sort_rows
fetch_unpublished limit table = take limit (sort_rows (keep_if is_unpublished table))

abbrev pub is_among : List Uuid → Uuid → Bool
is_among ids i = any_of (λ j. j == i) ids

abbrev pub mark_row : List Uuid → Time → OutboxRow → OutboxRow
mark_row ids now r = if is_among ids r.id then record r { published_at = some now } else r

unfoldable pub mark_published : List Uuid → Time → List OutboxRow → List OutboxRow
mark_published ids now [] = []
mark_published ids now (r ∷ rs) = mark_row ids now r ∷ mark_published ids now rs

-- What goes wrong in one round, and its time.
pub record Round : Type 0 where
  pub fetch_fails : Bool
  pub publish_fails : Uuid → Bool
  pub mark_fails : Bool
  pub now : Time

-- The table, and the ids that the broker has taken, the latest last.
pub record Relay : Type 0 where
  pub table : List OutboxRow
  pub sent : List Uuid

-- Publish: what the broker has afterwards, and whether the call succeeded.
abbrev pub publish : (Uuid → Bool) → OutboxRow → List Uuid → List Uuid × Bool
publish fails r sent = if fails r.id then (sent, false) else (sent ++ (r.id ∷ []), true)

-- The loop over the messages: what the broker has afterwards, and publishedIDs.
unfoldable pub publish_until_failure :
    (Uuid → Bool) → List OutboxRow → List Uuid → List Uuid × List Uuid
publish_until_failure fails [] sent = (sent, [])
publish_until_failure fails (r ∷ rs) sent =
    let p = publish fails r sent in
    let rest = publish_until_failure fails rs p.0 in
    if not p.1 then (p.0, []) else (rest.0, r.id ∷ rest.1)

unfoldable pub new_batch_size : ℤ → ℕ
new_batch_size (pos zero) = 50
new_batch_size (pos (suc n)) = suc n
new_batch_size (negsuc n) = 50

-- The end of publishBatch, for the ids that were published.
unfoldable pub finish_batch : List Uuid → Round → Relay → Relay × Option Err
unfolding mark_published
finish_batch ids o s =
    if is_empty ids
    then (s, none)
    else if o.mark_fails
    then (s, some (external []))
    else (record s { table = mark_published ids o.now s.table }, none)

unfoldable pub publish_batch : ℕ → Round → Relay → Relay × Option Err
publish_batch batch_size o s =
    let rows = fetch_unpublished batch_size s.table in
    let p = publish_until_failure o.publish_fails rows s.sent in
    if o.fetch_fails then (s, some (external [])) else finish_batch p.1 o (record s { sent = p.0 })

-- Start: a failed round is logged, and the next tick makes another.
unfoldable pub run_rounds : ℕ → List Round → Relay → Relay
run_rounds batch_size [] s = s
run_rounds batch_size (o ∷ os) s = run_rounds batch_size os (publish_batch batch_size o s).0
