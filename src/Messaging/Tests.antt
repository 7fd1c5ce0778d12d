-- ===== src/Messaging/Tests.antt =====
-- Small runs of the messaging components.
use notai_api.Base.{
  Option, [], any_of, arith, count_if, false, none, refl, some, suc, true, zero, ℕ, ◌+◌, ◌==◌, ◌∷◌,
  ◌≡◌, ◌≤◌,
}
use notai_api.Base.Float.{Float64}
use notai_api.Base.Int.{pos, ℤ}
use notai_api.Base.Text.{Text, codes}
use notai_api.Base.Values.{Time, Uuid}
use notai_api.Messaging.Consumer.{Envelope, XDeath, handle_delivery, int64, retry_count}
use notai_api.Messaging.Consumer.Settling.{
  deliveries, deliveries_lem, handle_delivery_settles, is_dlq, is_nack, is_settling,
}
use notai_api.Messaging.Dedup.{Store, deliver, outside_error, with_dedup}
use notai_api.Messaging.Dedup.AtMostOnce.{counting, with_dedup_again, with_dedup_at_most_once}
use notai_api.Messaging.Failure.{deferred, retryable, unclassified}
use notai_api.Messaging.Registry.{Handler, Registry, dispatch}
use notai_api.Messaging.Relay.{OutboxRow, Round, run_rounds, store_events}
use notai_api.Messaging.Relay.Delivery.{IsHonest, row_ids, run_rounds_keeps}

-- The handlers of these tests count their runs; the payload is the id of an event.
abbrev counter : Handler ℕ ℕ
counter p n = (n + 1, none)

-- It fails for good with event 0, asks for a retry with event 1, and else succeeds.
abbrev picky : Handler ℕ ℕ
picky zero n = (n + 1, some (unclassified outside_error))
picky (suc zero) n = (n + 1, some (retryable outside_error))
picky p n = (n + 1, none)

abbrev id_of : ℕ → Option Text
id_of p = some (p ∷ [])

abbrev parse : Text → Option Uuid
parse [] = none
parse (c ∷ s) = some c

-- The delivery of event 3 again, twice, with a database that fails once.
with_dedup_at_most_once_example :
    (deliver id_of parse
      (with_dedup id_of parse (codes "media") (counting id_of parse 3 picky))
      (3 ∷ 1 ∷ 3 ∷ 3 ∷ [])
      (record { processed = []; faults = true ∷ []; inner = (0, 0) })).inner.1
    ≤ 1
with_dedup_at_most_once_example =
    with_dedup_at_most_once id_of parse 3 (codes "media") picky (3 ∷ 1 ∷ 3 ∷ 3 ∷ []) [] (true ∷ [])
      0

-- A retryable failure: the handler runs again.
with_dedup_again_example :
    let h = with_dedup id_of parse (codes "media") picky in
    let fresh : Store ℕ = record { processed = []; faults = []; inner = 0 } in
    ((h 1 fresh).1 ≡ some (retryable outside_error))
    × ((h 1 (h 1 fresh).0).0.inner ≡ 2)
    × ((h 1 (h 1 fresh).0).1 ≡ some (retryable outside_error))
with_dedup_again_example =
    with_dedup_again id_of parse (codes "media") picky 1 (1 ∷ []) 1 0 refl refl refl

abbrev registry : Registry ℕ ℕ
registry = (codes "media.deleted.v1", picky ∷ []) ∷ []

-- Go's conversion, for the tests.
abbrev truncate : Float64 → ℤ
truncate x = pos 0

-- The third redelivery of a message whose handler asks for a retry.
handle_delivery_settles_example :
    let e : Envelope ℕ = record { event_type = codes "media.deleted.v1"; payload = 1 } in
    let actions =
      (handle_delivery truncate (pos 3) registry (some (some (int64 (pos 3)) ∷ [])) (some e) 0).1 in
    (count_if is_settling actions ≡ 1)
    × (any_of is_nack actions ≡ false)
    × (any_of is_dlq actions ≡ true)
unfolding dispatch retry_count
handle_delivery_settles_example =
    handle_delivery_settles truncate (pos 3) registry (some (some (int64 (pos 3)) ∷ []))
      (some (record { event_type = codes "media.deleted.v1"; payload = 1 })) 0

-- The count that the broker keeps.
abbrev death : ℕ → XDeath
death k = some (some (int64 (pos k)) ∷ [])

deaths_counted : (k : ℕ) → retry_count truncate (death k) ≡ pos k
unfolding retry_count
deaths_counted k = refl

deliveries_lem_example :
    (deliveries truncate (pos 3) death (some (retryable outside_error)) 10 0 ≡ 4)
    × (deliveries truncate (pos 3) death (some (deferred outside_error)) 10 0 ≡ 10)
deliveries_lem_example =
    deliveries_lem truncate 3 death deaths_counted outside_error 10 (omega arith)

abbrev row_of : Uuid → Time → OutboxRow
row_of i t = record {
  id = i;
  aggregate_id = [];
  event_type = [];
  payload = [];
  created_at = t;
  published_at = none;
}

-- A round in which the broker refuses event 6.
abbrev bad_round : Round
bad_round = record {
  fetch_fails = false;
  publish_fails = λ i. i == 6;
  mark_fails = false;
  now = 50;
}

run_rounds_keeps_example :
    let s =
      run_rounds 50
        (bad_round ∷ bad_round ∷ [])
        (record { table = store_events (row_of 6 20 ∷ row_of 5 10 ∷ []) []; sent = [] }) in
    IsHonest s.sent s.table × (row_ids s.table ≡ 6 ∷ 5 ∷ [])
unfolding store_events
run_rounds_keeps_example =
    run_rounds_keeps 50 (bad_round ∷ bad_round ∷ []) (row_of 6 20 ∷ row_of 5 10 ∷ [])
