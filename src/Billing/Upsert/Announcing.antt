-- ===== src/Billing/Upsert/Announcing.antt =====
-- A payment is announced once, however often the provider reports it: the events of an upsert, stored
-- in the table of the outbox.
use notai_api.Base.{
  ==_iff, ==_refl, Bool, Bool-cases, List, Option, Option-cases, [], any_of, ap, arith, count_if,
  count_if-append, if◌then◌else◌, inl, inr, ltb, map, none, refl, subst, true, ℕ, ◌++◌, ◌==◌, ◌∷◌,
  ◌≡◌, ◌≤◌,
}
use notai_api.Base.Text.{Text, codes, text_eq}
use notai_api.Base.Values.{Time, Uuid}
use notai_api.Billing.Invoice.{
  Invoice, InvoiceEvent, invoice_created, invoice_payment_failed, invoice_payment_succeeded,
  invoice_updated, pull_events, raise_payment_succeeded,
}
use notai_api.Billing.Upsert.{UpsertInvoiceCommand, invoice_of, payment_succeeded_id, raise_outcome}
use notai_api.Messaging.Relay.{OutboxRow, has_id, store_events}

-- What a run of the handler found and was given.
pub record Run : Type 0 where
  pub workspace : Uuid
  pub subscription : Option Uuid
  pub now : Time
  pub id : Uuid
  pub eid1 : Uuid
  pub eid2 : Uuid
  pub found : Option Invoice

-- EventID
abbrev pub event_id : InvoiceEvent → Uuid
event_id (invoice_created e) = e.id
event_id (invoice_updated e) = e.id
event_id (invoice_payment_succeeded e) = e.id
event_id (invoice_payment_failed e) = e.id

-- The events that a run stores.
abbrev pub run_events : (List Text → Uuid) → UpsertInvoiceCommand → Run → List InvoiceEvent
run_events deterministic_id cmd r =
    (pull_events (
      invoice_of deterministic_id cmd r.workspace r.subscription r.now r.id r.eid1 r.eid2
        r.found)).1

-- The table of the outbox after runs for the same command; `encode` makes the row of an event.
abbrev pub store_runs :
    (List Text → Uuid)
    → UpsertInvoiceCommand
    → (InvoiceEvent → OutboxRow)
    → List Run
    → List OutboxRow
    → List OutboxRow
store_runs deterministic_id cmd encode [] table = table
store_runs deterministic_id cmd encode (r ∷ rs) table =
    store_runs deterministic_id cmd encode rs
      (store_events (map encode (run_events deterministic_id cmd r)) table)

-- How many rows have this id.
abbrev pub count_id : Uuid → List OutboxRow → ℕ
count_id i table = count_if (has_id i) table

any_of-count : (p : OutboxRow → Bool) (rs : List OutboxRow) → any_of p rs ≡ ltb 0 (count_if p rs)
any_of-count p [] = refl
any_of-count p (r ∷ rs) = ground (arith, any_of-count p rs)

count_id-cons :
    (i : Uuid) (r : OutboxRow) (table : List OutboxRow)
    → count_id i table ≤ 1
    → let table' =
        if any_of (has_id r.id) table
        then table
        else table ++ (record r { published_at = none } ∷ []) in
      (count_id i table' ≤ 1)
      × (count_id i table ≤ count_id i table')
      × ((if has_id i r then 1 else 0) ≤ count_id i table')
count_id-cons i r table h =
    let k = any_of-count (has_id i) table in
    let l = count_if-append (has_id i) table (record r { published_at = none } ∷ []) in
    let same : (i == r.id) ≡ true → any_of (has_id i) table ≡ any_of (has_id r.id) table = λ q.
      let j : i ≡ r.id = ground (arith, ==_iff i r.id) in ap (λ j. any_of (has_id j) table) j in
    elim (Bool-cases (any_of (has_id r.id) table)) [
      | inl e ↦ elim (Bool-cases (i == r.id)) [
        | inl q ↦ let m = same q in rw (e, q) (ground arith)
        | inr q ↦ rw (e, q) (ground arith)
      ]
      | inr e ↦ elim (Bool-cases (i == r.id)) [
        | inl q ↦ let m = same q in rw (e, l, q) (ground arith)
        | inr q ↦ rw (e, l, q) (ground arith)
      ]
    ]

store_events-count :
    (i : Uuid) (rs table : List OutboxRow)
    → count_id i table ≤ 1
    → let table' = store_events rs table in
      (count_id i table' ≤ 1)
      × (count_id i table ≤ count_id i table')
      × ((if any_of (has_id i) rs then 1 else 0) ≤ count_id i table')
unfolding store_events
store_events-count i [] table h = (h, omega arith, omega arith)
store_events-count i (r ∷ rs) table h =
    let (a, b, c) = count_id-cons i r table h in
    let (d, e, f) =
      store_events-count i rs
        (if any_of (has_id r.id) table
          then table
          else table ++ (record r { published_at = none } ∷ []))
        a in
    (d, omega (arith, b, e), ground (arith, c, e, f))

any_of-last :
    (p : OutboxRow → Bool) (encode : InvoiceEvent → OutboxRow) (es : List InvoiceEvent)
    (e : InvoiceEvent)
    → p (encode e) ≡ true
    → any_of p (map encode (es ++ (e ∷ []))) ≡ true
any_of-last p encode [] e h = rw h refl
any_of-last p encode (x ∷ es) e h = let k = any_of-last p encode es e h in ground arith

module _ (deterministic_id : List Text → Uuid) (cmd : UpsertInvoiceCommand)
    (encode : InvoiceEvent → OutboxRow) where
  raise_outcome-last :
      (eid : Uuid) (i : Invoice)
      → ((e : InvoiceEvent) → (encode e).id ≡ event_id e)
      → text_eq cmd.payment_outcome (codes "succeeded") ≡ true
      → any_of
          (has_id (payment_succeeded_id deterministic_id cmd))
          (map encode (raise_outcome deterministic_id cmd eid i).events)
        ≡ true
  unfolding raise_outcome raise_payment_succeeded
  raise_outcome-last eid i keep h =
      let pid = payment_succeeded_id deterministic_id cmd in
      rw h (any_of-last (has_id pid) encode i.events _ (rw (keep _) (==_refl pid)))

  run_events-last :
      (r : Run)
      → ((e : InvoiceEvent) → (encode e).id ≡ event_id e)
      → text_eq cmd.payment_outcome (codes "succeeded") ≡ true
      → any_of
          (has_id (payment_succeeded_id deterministic_id cmd))
          (map encode (run_events deterministic_id cmd r))
        ≡ true
  unfolding invoice_of pull_events
  run_events-last r keep h = elim (Option-cases r.found) [
    | inl n ↦ rw n (raise_outcome-last r.eid2 _ keep h)
    | inr (i, n) ↦ rw n (raise_outcome-last r.eid2 _ keep h)
  ]

  store_runs-count :
      (i : Uuid) (rs : List Run) (table : List OutboxRow)
      → count_id i table ≤ 1
      → let table' = store_runs deterministic_id cmd encode rs table in
        (count_id i table' ≤ 1) × (count_id i table ≤ count_id i table')
  store_runs-count i [] table h = (h, omega arith)
  store_runs-count i (r ∷ rs) table h =
      let events = map encode (run_events deterministic_id cmd r) in
      let (a, b, c) = store_events-count i events table h in
      let (d, e) = store_runs-count i rs (store_events events table) a in (d, omega (arith, b, e))

  -- For rows that keep the ids of their events, and a table with at most one row of the payment's
  -- event id: after one or more upserts for a payment that succeeded, for the same event of the
  -- provider and whichever invoices they found, the table has exactly one row with the id of the
  -- payment's event.
  pub upsert_announces_once :
      (r : Run) (rs : List Run) (table : List OutboxRow)
      → ((e : InvoiceEvent) → (encode e).id ≡ event_id e)
      → text_eq cmd.payment_outcome (codes "succeeded") ≡ true
      → count_id (payment_succeeded_id deterministic_id cmd) table ≤ 1
      → count_id
          (payment_succeeded_id deterministic_id cmd)
          (store_runs deterministic_id cmd encode (r ∷ rs) table)
        ≡ 1
  upsert_announces_once r rs table keep h k =
      let pid = payment_succeeded_id deterministic_id cmd in
      let events = map encode (run_events deterministic_id cmd r) in
      let (a, b, c) = store_events-count pid events table k in
      let (d, e) = store_runs-count pid rs (store_events events table) a in
      let l : 1 ≤ count_id pid (store_events events table) =
        subst (λ b. (if b then 1 else 0) ≤ count_id pid (store_events events table))
          (run_events-last r keep h) c in
      omega (arith, d, e, l)
