-- ===== src/Billing/Webhooks.antt =====
-- internal/application/command/subscription: subscription_updated.go, subscription_deleted.go,
-- invoice_payment_succeeded.go, invoice_payment_failed.go, renewal_upcoming.go and
-- payment_method_expiring.go. `now` is what time.Now() answers; `eid1` and `eid2` are fresh UUIDs;
-- `deterministic_id` is event.DeterministicID, a UUID made of texts.
pub mod Keeping
pub mod Periods
use notai_api.Base.{Bool, List, Option, [], if◌then◌else◌, is_empty, none, not, some, ◌&&◌, ◌∷◌}
use notai_api.Base.Int.{ℤ}
use notai_api.Base.Text.{Text, codes}
use notai_api.Base.Values.{Time, Uuid}
use notai_api.Billing.Ledger.{
  Ledger, find_subscription, free_plan_slug, save_update, text_or, time_or,
}
use notai_api.Billing.Subscription.{
  Subscription, Update, apply_update, downgrade_to_free, record_payment_method_expiring,
  record_renewal_upcoming,
}
use notai_api.Billing.Types.{SubscriptionStatus, active, map_billing_status, past_due}
use notai_api.Database.{M, ask, fail_with, reporting, ret, ◌>>=◌}
use notai_api.Errors.{Err, new_error, stripe_subscription_not_linked}
use notai_api.Quota.Usage.{found}

pub record SubscriptionUpdatedCommand : Type 0 where
  pub stripe_subscription_id : Text
  pub stripe_customer_id : Text
  pub stripe_price_id : Text
  pub status : Text
  pub cancel_at_period_end : Bool
  pub current_period_start : Time
  pub current_period_end : Time

pub record InvoicePaymentSucceededCommand : Type 0 where
  pub stripe_subscription_id : Text
  pub stripe_customer_id : Text
  pub billing_reason : Text
  pub period_start : Time
  pub period_end : Time

pub record InvoicePaymentFailedCommand : Type 0 where
  pub stripe_subscription_id : Text
  pub stripe_customer_id : Text

pub record SubscriptionRenewalUpcomingCommand : Type 0 where
  pub stripe_event_id : Text
  pub stripe_subscription_id : Text
  pub stripe_customer_id : Text
  pub amount_due : ℤ
  pub currency : Text
  pub period_end : Time

pub record PaymentMethodExpiringCommand : Type 0 where
  pub stripe_event_id : Text
  pub stripe_customer_id : Text
  pub stripe_subscription_id : Text
  pub brand : Text
  pub last4 : Text
  pub exp_month : ℤ
  pub exp_year : ℤ

abbrev pub stripe_id_required : Err
stripe_id_required = new_error (codes "stripe subscription id is required")

module _ {S : Type 0} (ledger : Ledger S) (now : Time) (eid1 eid2 : Uuid) where
  -- The update that keeps the plan, the dates and the quota period of a subscription.
  abbrev pub update_of : Subscription → Text → Text → SubscriptionStatus → Update
  update_of s subscription_id customer_id status = record {
    plan_id = s.plan_id;
    status = status;
    stripe_customer_id = text_or customer_id s.stripe_customer_id;
    stripe_subscription_id = subscription_id;
    start_date = s.start_date;
    end_date = s.end_date;
    cancel_at_period_end = s.cancel_at_period_end;
    quota_period_start = s.quota_period_start;
  }

  -- The plan of the price, where there is one.
  unfoldable pub target_plan : Text → Uuid → M S Uuid
  target_plan price_id plan_id =
      if is_empty price_id
      then ret plan_id
      else (reporting (new_error (codes "failed to get plan"))
            (ask (ledger.plan_by_stripe_price_id price_id))
          >>= λ found. elim found [ none ↦ ret plan_id | some p ↦ ret p.id ])

  unfoldable pub apply_updated : SubscriptionUpdatedCommand → Option Subscription → M S (Unit {0})
  apply_updated cmd none = fail_with stripe_subscription_not_linked
  apply_updated cmd (some s) = target_plan cmd.stripe_price_id s.plan_id >>= λ plan_id.
      let status = map_billing_status cmd.status in
      let u = record (update_of s cmd.stripe_subscription_id cmd.stripe_customer_id status) {
        plan_id = plan_id;
        start_date = time_or cmd.current_period_start s.start_date;
        end_date = time_or cmd.current_period_end s.end_date;
        cancel_at_period_end = cmd.cancel_at_period_end;
      } in
      save_update ledger (apply_update u now eid1 eid2 s)

  unfoldable pub handle_subscription_updated : SubscriptionUpdatedCommand → M S (Unit {0})
  handle_subscription_updated cmd =
      if is_empty cmd.stripe_subscription_id
      then fail_with stripe_id_required
      else (reporting (new_error (codes "failed to get subscription"))
            (ask (ledger.get_by_stripe_subscription_id cmd.stripe_subscription_id))
          >>= apply_updated cmd)

  unfoldable pub apply_deleted : (Time → Time) → Option Subscription → M S (Unit {0})
  apply_deleted in_a_century none = ret tt
  apply_deleted in_a_century (some s) =
      reporting (new_error (codes "failed to get free plan"))
        (ask (ledger.plan_by_slug free_plan_slug))
      >>= λ found. elim found [
        | none ↦ fail_with (new_error (codes "free plan not found"))
        | some p ↦ save_update ledger (downgrade_to_free in_a_century p.id now eid1 eid2 s)
      ]

  unfoldable pub handle_subscription_deleted : (Time → Time) → Text → M S (Unit {0})
  handle_subscription_deleted in_a_century subscription_id =
      if is_empty subscription_id
      then fail_with stripe_id_required
      else (reporting (new_error (codes "failed to get subscription"))
            (ask (ledger.get_by_stripe_subscription_id subscription_id))
          >>= apply_deleted in_a_century)

  -- `nil` becomes ErrStripeSubscriptionNotLinked.
  abbrev pub linked : (Subscription → M S (Unit {0})) → Option Subscription → M S (Unit {0})
  linked f none = fail_with stripe_subscription_not_linked
  linked f (some s) = f s

  unfoldable pub apply_succeeded : InvoicePaymentSucceededCommand → Subscription → M S (Unit {0})
  apply_succeeded cmd s =
      let u = record (update_of s cmd.stripe_subscription_id cmd.stripe_customer_id active) {
        start_date = time_or cmd.period_start s.start_date;
        end_date = time_or cmd.period_end s.end_date;
      } in
      save_update ledger (apply_update u now eid1 eid2 s)

  unfoldable pub handle_invoice_payment_succeeded : InvoicePaymentSucceededCommand → M S (Unit {0})
  handle_invoice_payment_succeeded cmd =
      if is_empty cmd.stripe_subscription_id
      then ret tt
      else (find_subscription ledger cmd.stripe_subscription_id cmd.stripe_customer_id
          >>= linked (apply_succeeded cmd))

  unfoldable pub apply_failed : InvoicePaymentFailedCommand → Subscription → M S (Unit {0})
  apply_failed cmd s =
      let u = update_of s cmd.stripe_subscription_id cmd.stripe_customer_id past_due in
      save_update ledger (apply_update u now eid1 eid2 s)

  unfoldable pub handle_invoice_payment_failed : InvoicePaymentFailedCommand → M S (Unit {0})
  handle_invoice_payment_failed cmd =
      if is_empty cmd.stripe_subscription_id
      then ret tt
      else (find_subscription ledger cmd.stripe_subscription_id cmd.stripe_customer_id
          >>= linked (apply_failed cmd))

  unfoldable pub apply_renewal :
      (List Text → Uuid) → SubscriptionRenewalUpcomingCommand → Subscription → M S (Unit {0})
  apply_renewal deterministic_id cmd s =
      let id =
        deterministic_id
          (codes "stripe" ∷ cmd.stripe_event_id ∷ codes "subscription.renewalUpcoming.v1" ∷ []) in
      save_update ledger
        (record_renewal_upcoming (some id) cmd.amount_due cmd.currency cmd.period_end now eid1 s)

  unfoldable pub handle_renewal_upcoming :
      (List Text → Uuid) → SubscriptionRenewalUpcomingCommand → M S (Unit {0})
  handle_renewal_upcoming deterministic_id cmd =
      if is_empty cmd.stripe_subscription_id && is_empty cmd.stripe_customer_id
      then ret tt
      else (find_subscription ledger cmd.stripe_subscription_id cmd.stripe_customer_id
          >>= linked (apply_renewal deterministic_id cmd))

  unfoldable pub apply_expiring :
      (List Text → Uuid) → PaymentMethodExpiringCommand → Subscription → M S (Unit {0})
  apply_expiring deterministic_id cmd s =
      let id = deterministic_id (
        codes "stripe"
        ∷ cmd.stripe_event_id
        ∷ codes "subscription.paymentMethodExpiring.v1"
        ∷ []) in
      save_update ledger (
        record_payment_method_expiring (some id) cmd.brand cmd.last4 cmd.exp_month cmd.exp_year now
          eid1 s)

  unfoldable pub handle_payment_method_expiring :
      (List Text → Uuid) → PaymentMethodExpiringCommand → M S (Unit {0})
  handle_payment_method_expiring deterministic_id cmd =
      if is_empty cmd.stripe_customer_id && is_empty cmd.stripe_subscription_id
      then ret tt
      else (find_subscription ledger cmd.stripe_subscription_id cmd.stripe_customer_id
          >>= linked (apply_expiring deterministic_id cmd))
