-- ===== src/Messaging/Relay/Delivery.antt =====
-- What the relay guarantees of the events in the outbox.
use notai_api.Base.{
  All, All-append, Bool, Bool-cases, List, [], any_of, arith, inl, inr, is_some, map, none, refl,
  true, ℕ, ◌++◌, ◌==◌, ◌||◌, ◌∙◌, ◌∷◌, ◌≡◌,
}
use notai_api.Base.Values.{Time, Uuid}
use notai_api.Messaging.Relay.{
  OutboxRow, Relay, Round, fetch_unpublished, finish_batch, has_id, is_among, mark_published,
  publish_batch, publish_until_failure, run_rounds, store_events,
}
use notai_api.Processing.Recover.Requeue.{ids}

-- Every row that is marked as published has been taken by the broker.
abbrev pub IsHonest : List Uuid → List OutboxRow → Type 0
IsHonest sent = All (λ r. (is_some r.published_at ≡ true) → (is_among sent r.id ≡ true))

is_among-append :
    (xs ys : List Uuid) (i : Uuid) → is_among (xs ++ ys) i ≡ (is_among xs i || is_among ys i)
is_among-append [] ys i = refl
is_among-append (x ∷ xs) ys i = ground (arith, is_among-append xs ys i)

-- What the one list has, the other has too.
abbrev Within : List Uuid → List Uuid → Type 0
Within xs ys = (i : Uuid) → is_among xs i ≡ true → is_among ys i ≡ true

IsHonest-Within :
    (xs ys : List Uuid) (t : List OutboxRow) → Within xs ys → IsHonest xs t → IsHonest ys t
IsHonest-Within xs ys [] w h = tt
IsHonest-Within xs ys (r ∷ t) w h = (λ p. w r.id (h.0 p), IsHonest-Within xs ys t w h.1)

IsHonest-mark :
    (sent ids : List Uuid) (now : Time) (t : List OutboxRow)
    → Within ids sent
    → IsHonest sent t
    → IsHonest sent (mark_published ids now t)
unfolding mark_published
IsHonest-mark sent ids now [] w h = tt
IsHonest-mark sent ids now (r ∷ t) w h = elim (Bool-cases (is_among ids r.id)) [
  | inl e ↦ (λ p. ground (arith, w r.id e, e), IsHonest-mark sent ids now t w h.1)
  | inr e ↦ (λ p. ground (arith, h.0, e, p), IsHonest-mark sent ids now t w h.1)
]

-- The broker keeps what it has, and has taken what the loop counts as published.
publish_until_failure-Within :
    (fails : Uuid → Bool) (rs : List OutboxRow) (sent : List Uuid)
    → let p = publish_until_failure fails rs sent in Within sent p.0 × Within p.1 p.0
unfolding publish_until_failure
publish_until_failure-Within fails [] sent = (λ i h. h, λ i h. cc)
publish_until_failure-Within fails (r ∷ rs) sent = elim (Bool-cases (fails r.id)) [
  | inl e ↦ rw e (λ i h. h, λ i h. cc)
  | inr e ↦
      let (keeps, has) = publish_until_failure-Within fails rs (sent ++ (r.id ∷ [])) in
      rw e (
        λ i h. keeps i (ground (arith, is_among-append sent (r.id ∷ []) i, h)),
        λ i h. elim (Bool-cases (r.id == i)) [
          | inl q ↦ keeps i (ground (arith, is_among-append sent (r.id ∷ []) i, q))
          | inr q ↦ has i (ground (arith, h, q))
        ],
      )
]

finish_batch-IsHonest :
    (ids : List Uuid) (o : Round) (s : Relay)
    → Within ids s.sent
    → IsHonest s.sent s.table
    → IsHonest (finish_batch ids o s).0.sent (finish_batch ids o s).0.table
unfolding finish_batch
finish_batch-IsHonest [] o s w h = h
finish_batch-IsHonest (i ∷ ids) o s w h = elim (Bool-cases o.mark_fails) [
  | inl e ↦ rw e h
  | inr e ↦ rw e (IsHonest-mark s.sent (i ∷ ids) o.now s.table w h)
]

publish_batch-IsHonest :
    (n : ℕ) (o : Round) (s : Relay)
    → IsHonest s.sent s.table
    → IsHonest (publish_batch n o s).0.sent (publish_batch n o s).0.table
unfolding publish_batch
publish_batch-IsHonest n o s h = elim (Bool-cases o.fetch_fails) [
  | inl e ↦ simp e h
  | inr e ↦
      let rows = fetch_unpublished n s.table in
      let p = publish_until_failure o.publish_fails rows s.sent in
      let (keeps, has) = publish_until_failure-Within o.publish_fails rows s.sent in
      simp e (
        finish_batch-IsHonest p.1 o (record s { sent = p.0 }) has
          (IsHonest-Within s.sent p.0 s.table keeps h))
]

run_rounds-IsHonest :
    (n : ℕ) (os : List Round) (s : Relay)
    → IsHonest s.sent s.table
    → IsHonest (run_rounds n os s).sent (run_rounds n os s).table
unfolding run_rounds
run_rounds-IsHonest n [] s h = h
run_rounds-IsHonest n (o ∷ os) s h =
    run_rounds-IsHonest n os (publish_batch n o s).0 (publish_batch-IsHonest n o s h)

store_events-IsHonest :
    (rs t : List OutboxRow) (sent : List Uuid) → IsHonest sent t → IsHonest sent (store_events rs t)
unfolding store_events
store_events-IsHonest [] t sent h = h
store_events-IsHonest (r ∷ rs) t sent h = elim (Bool-cases (any_of (has_id r.id) t)) [
  | inl e ↦ rw e (store_events-IsHonest rs t sent h)
  | inr e ↦ rw e (
      store_events-IsHonest rs (t ++ (record r { published_at = none } ∷ [])) sent (
        All-append (λ r. (is_some r.published_at ≡ true) → (is_among sent r.id ≡ true)) t
          (record r { published_at = none } ∷ []) h (λ p. cc, tt)))
]

-- The ids of the table's rows, in order.
abbrev pub row_ids : List OutboxRow → List Uuid
row_ids = map (λ r. r.id)

row_ids-mark :
    (ids : List Uuid) (now : Time) (t : List OutboxRow)
    → row_ids (mark_published ids now t) ≡ row_ids t
unfolding mark_published
row_ids-mark ids now [] = refl
row_ids-mark ids now (r ∷ t) = ground (arith, row_ids-mark ids now t)

row_ids-finish_batch :
    (ids : List Uuid) (o : Round) (s : Relay)
    → row_ids (finish_batch ids o s).0.table ≡ row_ids s.table
unfolding finish_batch
row_ids-finish_batch ids o s = ground (arith, row_ids-mark ids o.now s.table)

row_ids-publish_batch :
    (n : ℕ) (o : Round) (s : Relay) → row_ids (publish_batch n o s).0.table ≡ row_ids s.table
unfolding publish_batch
row_ids-publish_batch n o s = elim (Bool-cases o.fetch_fails) [
  | inl e ↦ simp e
  | inr e ↦
      let p = publish_until_failure o.publish_fails (fetch_unpublished n s.table) s.sent in
      simp e (row_ids-finish_batch p.1 o (record s { sent = p.0 }))
]

row_ids-run_rounds :
    (n : ℕ) (os : List Round) (s : Relay) → row_ids (run_rounds n os s).table ≡ row_ids s.table
unfolding run_rounds
row_ids-run_rounds n [] s = refl
row_ids-run_rounds n (o ∷ os) s =
    row_ids-run_rounds n os (publish_batch n o s).0 ∙ row_ids-publish_batch n o s

-- Events stored in an empty outbox and relayed in any rounds, whatever fails in them, are never
-- lost: no row leaves the table, and a row is marked as published only once the broker has it.
pub run_rounds_keeps :
    (n : ℕ) (os : List Round) (rows : List OutboxRow)
    → let table = store_events rows [] in
      let s = run_rounds n os (record { table = table; sent = [] }) in
      IsHonest s.sent s.table × (row_ids s.table ≡ row_ids table)
run_rounds_keeps n os rows =
    let s : Relay = record { table = store_events rows []; sent = [] } in
    (run_rounds-IsHonest n os s (store_events-IsHonest rows [] [] tt), row_ids-run_rounds n os s)
