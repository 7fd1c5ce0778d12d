-- ===== src/Billing/Checkout.antt =====
-- internal/application/command/subscription/checkout_completed.go. `now` is what time.Now() answers,
-- `new_id` numbers the fresh UUIDs, and the payment provider's answers come from `gateway`.
pub mod Periods
use notai_api.Base.{
  Bool, List, Option, [], false, if◌then◌else◌, is_empty, map, none, not, some, true, ℕ, ◌++◌, ◌==◌,
  ◌||◌,
}
use notai_api.Base.Text.{Text, codes, text_eq}
use notai_api.Base.Values.{Time, Uuid}
use notai_api.Billing.Invoice.{StripeSnapshot}
use notai_api.Billing.Ledger.{
  Ledger, PlanRef, free_plan_slug, of_subscription, of_workspace, text_or, time_or,
}
use notai_api.Billing.Subscription.{
  Subscription, Update, apply_update, new_subscription, pull_events,
}
use notai_api.Billing.Types.{map_billing_status}
use notai_api.Billing.Upsert.{UpsertInvoiceCommand, upsert_invoice}
use notai_api.Billing.Webhooks.{stripe_id_required}
use notai_api.Billing.Workspace.{
  Workspace, assign_subscription, pull_events as pull_workspace_events,
}
use notai_api.Database.{M, ask, fail_with, reporting, ret, with_transaction, write, ◌>>=◌, ◌>>◌}
use notai_api.Errors.{Result, new_error}

pub record CheckoutCompletedCommand : Type 0 where
  pub workspace_id : Uuid
  pub stripe_customer_id : Text
  pub stripe_subscription_id : Text

-- port.SubscriptionData
pub record SubscriptionData : Type 0 where
  pub id : Text
  pub item_id : Text
  pub customer_id : Text
  pub price_id : Text
  pub status : Text
  pub current_period_start : Time
  pub current_period_end : Time
  pub cancel_at_period_end : Bool

-- port.InvoiceData: its other fields are those of the snapshot.
pub record InvoiceData : Type 0 where
  pub id : Text
  pub snapshot : StripeSnapshot

pub record Gateway : Type 0 where
  pub retrieve : Text → Result SubscriptionData
  pub retrieve_latest_invoice : Text → Result (Option InvoiceData)

-- `wasFree`, for the subscription of the workspace and the plan that is found for it.
unfoldable pub was_free : Subscription → Option PlanRef → Bool
was_free s none = true
was_free s (some p) = text_eq p.slug free_plan_slug || is_empty s.stripe_subscription_id

-- What ApplyUpdate is called with; `previous` is the quota period of the subscription there is, and the
-- zero time without one.
unfoldable pub checkout_update :
    CheckoutCompletedCommand → SubscriptionData → PlanRef → Bool → Time → Time → Update
checkout_update cmd d plan free previous now = record {
  plan_id = plan.id;
  status = map_billing_status d.status;
  stripe_customer_id = text_or cmd.stripe_customer_id d.customer_id;
  stripe_subscription_id = d.id;
  start_date = time_or d.current_period_start now;
  end_date = time_or d.current_period_end now;
  cancel_at_period_end = d.cancel_at_period_end;
  quota_period_start = if free then time_or d.current_period_start now else previous;
}

module _ {S : Type 0} (ledger : Ledger S) (gateway : Gateway) (now : Time) (new_id : ℕ → Uuid) where
  -- The subscription of the workspace.
  unfoldable pub current_subscription : Workspace → M S (Option Subscription)
  current_subscription w = elim w.subscription_id [
    | none ↦ ret none
    | some i ↦
        reporting (new_error (codes "failed to get subscription")) (ask (ledger.get_subscription i))
  ]

  unfoldable pub is_free : Option Subscription → M S Bool
  is_free none = ret true
  is_free (some s) =
      reporting (new_error (codes "failed to get current plan")) (ask (ledger.plan_by_id s.plan_id))
      >>= λ found. ret (was_free s found)

  -- A subscription is made or changed, and saved.
  unfoldable pub renew :
      CheckoutCompletedCommand
      → SubscriptionData
      → PlanRef
      → Bool
      → Option Subscription
      → M S Subscription
  renew cmd d plan free none =
      let u = checkout_update cmd d plan free 0 now in
      let s = new_subscription plan.id u.status u.start_date u.end_date now (new_id 0) (new_id 1) in
      let s' = apply_update u now (new_id 2) (new_id 3) s in
      reporting (new_error (codes "failed to create subscription"))
        (write (ledger.save_subscription s'))
      >> ret s'
  renew cmd d plan free (some s) =
      let u = checkout_update cmd d plan free s.quota_period_start now in
      let s' = apply_update u now (new_id 2) (new_id 3) s in
      reporting (new_error (codes "failed to update subscription"))
        (write (ledger.update_subscription s'))
      >> ret s'

  abbrev pub is_linked : Workspace → Uuid → Bool
  is_linked w i = elim w.subscription_id [ none ↦ false | some j ↦ j == i ]

  -- The workspace is linked to the subscription, unless it is already.
  unfoldable pub link : Workspace → Subscription → M S (Unit {0})
  unfolding pull_events pull_workspace_events
  link w s =
      let w' = assign_subscription s.id now (new_id 4) w in
      let events = map of_subscription (pull_events s).1 in
      if is_linked w s.id
      then write (ledger.store_events events)
      else (reporting (new_error (codes "failed to link subscription to workspace"))
            (write (ledger.update_workspace w'))
          >> write (ledger.store_events (events ++ map of_workspace (pull_workspace_events w').1)))

  -- The command that syncLatestInvoice makes of an invoice.
  unfoldable pub sync_command : Text → InvoiceData → UpsertInvoiceCommand
  sync_command subscription_id i =
      let c = i.snapshot in
      record {
        stripe_invoice_id = i.id;
        snapshot = record c {
          stripe_subscription_id = text_or c.stripe_subscription_id subscription_id;
        };
        stripe_event_id = codes "checkout.session.completed:" ++ subscription_id;
        payment_outcome = if text_eq c.status (codes "paid") then codes "succeeded" else [];
      }

  -- `upserts` is false where the handler has no UpsertInvoiceHandler.
  unfoldable pub sync_latest_invoice : (List Text → Uuid) → Bool → Text → M S (Unit {0})
  sync_latest_invoice deterministic_id upserts subscription_id =
      if not upserts
      then ret tt
      else (ask (λ s. gateway.retrieve_latest_invoice subscription_id) >>= λ found. elim found [
        | none ↦ ret tt
        | some i ↦
            if is_empty i.id
            then ret tt
            else upsert_invoice ledger deterministic_id (sync_command subscription_id i) now
                (new_id 5) (new_id 6) (new_id 7)
      ])

  -- The plan that was bought; no price is without a plan.
  unfoldable pub bought_plan : Text → M S PlanRef
  bought_plan price_id =
      reporting (new_error (codes "failed to get plan"))
        (ask (ledger.plan_by_stripe_price_id price_id))
      >>= λ found. elim found [
        | none ↦ fail_with (new_error (codes "plan not found for stripe price id"))
        | some p ↦ ret p
      ]

  unfoldable pub check_out : CheckoutCompletedCommand → Workspace → M S (Unit {0})
  check_out cmd w = ask (λ s. gateway.retrieve cmd.stripe_subscription_id) >>= λ d.
      bought_plan d.price_id >>= λ plan. current_subscription w >>= λ current.
      is_free current >>= λ free.
      with_transaction ledger.commit (renew cmd d plan free current >>= link w)

  unfoldable pub checkout_completed :
      (List Text → Uuid) → Bool → CheckoutCompletedCommand → M S (Unit {0})
  checkout_completed deterministic_id upserts cmd =
      let found =
        reporting (new_error (codes "failed to get workspace"))
          (ask (ledger.get_workspace cmd.workspace_id)) in
      if is_empty cmd.stripe_subscription_id
      then fail_with stripe_id_required
      else (found >>= λ workspace. elim workspace [
        | none ↦ fail_with (new_error (codes "workspace not found"))
        | some w ↦
            check_out cmd w
            >> sync_latest_invoice deterministic_id upserts cmd.stripe_subscription_id
      ])
