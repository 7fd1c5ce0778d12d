-- ===== src/Billing/Upsert.antt =====
-- internal/application/command/subscription/upsert_invoice.go. `now` is what time.Now() answers, `id`,
-- `eid1` and `eid2` are fresh UUIDs, and `deterministic_id` is event.DeterministicID.
pub mod Announcing
use notai_api.Base.{List, Option, [], if◌then◌else◌, is_empty, map, none, some, ◌==◌, ◌∷◌}
use notai_api.Base.Text.{Text, codes, text_eq}
use notai_api.Base.Values.{Time, Uuid, uuid_nil}
use notai_api.Billing.Invoice.{
  Invoice, StripeSnapshot, apply_stripe_snapshot, new_invoice, pull_events, raise_created,
  raise_payment_failed, raise_payment_succeeded, raise_updated,
}
use notai_api.Billing.Ledger.{Ledger, find_subscription, of_invoice}
use notai_api.Billing.Subscription.{Subscription}
use notai_api.Billing.Webhooks.Periods.{succeeded}
use notai_api.Database.{M, ask, fail_with, reporting, ret, with_transaction, write, ◌>>=◌, ◌>>◌}
use notai_api.Errors.{new_error, stripe_subscription_not_linked}
use notai_api.Messaging.Relay.{store_events}
use notai_api.Quota.Usage.{found}

-- The fields of the snapshot are the provider's, in the command as in the invoice.
pub record UpsertInvoiceCommand : Type 0 where
  pub stripe_invoice_id : Text
  pub snapshot : StripeSnapshot
  pub stripe_event_id : Text
  pub payment_outcome : Text

abbrev pub payment_succeeded_id : (List Text → Uuid) → UpsertInvoiceCommand → Uuid
payment_succeeded_id deterministic_id cmd =
    deterministic_id (codes "stripe" ∷ cmd.stripe_event_id ∷ codes "invoice.paymentSucceeded" ∷ [])

abbrev pub payment_failed_id : (List Text → Uuid) → UpsertInvoiceCommand → Uuid
payment_failed_id deterministic_id cmd =
    deterministic_id (codes "stripe" ∷ cmd.stripe_event_id ∷ codes "invoice.paymentFailed" ∷ [])

-- The switch over PaymentOutcome.
unfoldable pub raise_outcome : (List Text → Uuid) → UpsertInvoiceCommand → Uuid → Invoice → Invoice
raise_outcome deterministic_id cmd eid i =
    if text_eq cmd.payment_outcome (codes "succeeded")
    then raise_payment_succeeded (some (payment_succeeded_id deterministic_id cmd)) eid i
    else if text_eq cmd.payment_outcome (codes "failed")
    then raise_payment_failed (some (payment_failed_id deterministic_id cmd)) eid i
    else i

-- The invoice that Handle saves: a new one, or the one that was found.
unfoldable pub invoice_of :
    (List Text → Uuid)
    → UpsertInvoiceCommand
    → Uuid
    → Option Uuid
    → Time
    → Uuid
    → Uuid
    → Uuid
    → Option Invoice
    → Invoice
invoice_of deterministic_id cmd workspace subscription now id eid1 eid2 none =
    let i = new_invoice workspace subscription cmd.stripe_invoice_id now id in
    raise_outcome deterministic_id cmd eid2
      (raise_created eid1 (apply_stripe_snapshot cmd.snapshot now i))
invoice_of deterministic_id cmd workspace subscription now id eid1 eid2 (some i) =
    let i' = record i { workspace_id = workspace; subscription_id = subscription } in
    raise_outcome deterministic_id cmd eid2
      (raise_updated eid1 (apply_stripe_snapshot cmd.snapshot now i'))

module _ {S : Type 0} (ledger : Ledger S) where
  unfoldable pub workspace_of : Option Subscription → M S (Uuid × Option Uuid)
  workspace_of none = ret (uuid_nil, none)
  workspace_of (some s) =
      reporting (new_error (codes "failed to get workspace by subscription"))
        (ask (ledger.get_by_subscription_id s.id))
      >>= λ found. elim found [ none ↦ ret (uuid_nil, none) | some w ↦ ret (w.id, some s.id) ]

  unfoldable pub resolve_owner : Text → Text → M S (Uuid × Option Uuid)
  resolve_owner subscription_id customer_id =
      find_subscription ledger subscription_id customer_id >>= workspace_of

  unfoldable pub save_invoice : Invoice → M S (Unit {0})
  unfolding pull_events
  save_invoice i = reporting (new_error (codes "failed to upsert invoice")) (
      with_transaction ledger.commit (
        write (ledger.upsert_by_stripe_invoice_id i)
        >> write (ledger.store_events (map of_invoice (pull_events i).1))))

  unfoldable pub upsert_owned :
      (List Text → Uuid)
      → UpsertInvoiceCommand
      → Time
      → Uuid
      → Uuid
      → Uuid
      → Uuid × Option Uuid
      → M S (Unit {0})
  upsert_owned deterministic_id cmd now id eid1 eid2 (workspace, subscription) =
      if workspace == uuid_nil
      then fail_with stripe_subscription_not_linked
      else (reporting (new_error (codes "failed to get invoice"))
            (ask (ledger.get_by_stripe_invoice_id cmd.stripe_invoice_id))
          >>= λ found.
              save_invoice
                (invoice_of deterministic_id cmd workspace subscription now id eid1 eid2 found))

  unfoldable pub upsert_invoice :
      (List Text → Uuid) → UpsertInvoiceCommand → Time → Uuid → Uuid → Uuid → M S (Unit {0})
  upsert_invoice deterministic_id cmd now id eid1 eid2 =
      let c = cmd.snapshot in
      if is_empty cmd.stripe_invoice_id
      then ret tt
      else (resolve_owner c.stripe_subscription_id c.stripe_customer_id
          >>= upsert_owned deterministic_id cmd now id eid1 eid2)
