-- ===== src/Billing/Types.antt =====
-- internal/domain/subscription: status.go, billing.go and events.go. A status of the payment provider is
-- a text; Valid holds of every SubscriptionStatus, which stands for the named values only.
use notai_api.Base.{Bool, if◌then◌else◌, ◌||◌}
use notai_api.Base.Int.{ℤ}
use notai_api.Base.Text.{Text, codes, text_eq}
use notai_api.Base.Values.{Time, Uuid}

pub data SubscriptionStatus : Type 0 where
  active inactive cancelled pending past_due : SubscriptionStatus

unfoldable pub map_billing_status : Text → SubscriptionStatus
map_billing_status s =
    if text_eq s (codes "active") || text_eq s (codes "trialing")
    then active
    else if text_eq s (codes "past_due") || text_eq s (codes "unpaid")
    then past_due
    else if text_eq s (codes "canceled")
    then cancelled
    else inactive

pub record SubscriptionCreated : Type 0 where
  pub id : Uuid
  pub subscription_id : Uuid
  pub plan_id : Uuid
  pub stripe_customer_id : Text
  pub stripe_subscription_id : Text
  pub status : SubscriptionStatus
  pub start_date : Time
  pub end_date : Time
  pub cancel_at_period_end : Bool
  pub quota_period_start : Time
  pub timestamp : Time

pub record SubscriptionUpdated : Type 0 where
  pub id : Uuid
  pub subscription_id : Uuid
  pub plan_id : Uuid
  pub stripe_customer_id : Text
  pub stripe_subscription_id : Text
  pub status : SubscriptionStatus
  pub start_date : Time
  pub end_date : Time
  pub cancel_at_period_end : Bool
  pub quota_period_start : Time
  pub timestamp : Time

pub record SubscriptionPlanChanged : Type 0 where
  pub id : Uuid
  pub subscription_id : Uuid
  pub previous_plan_id : Uuid
  pub plan_id : Uuid
  pub status : SubscriptionStatus
  pub timestamp : Time

pub record SubscriptionRenewalUpcoming : Type 0 where
  pub id : Uuid
  pub subscription_id : Uuid
  pub plan_id : Uuid
  pub amount_due : ℤ
  pub currency : Text
  pub period_end : Time
  pub timestamp : Time

pub record SubscriptionPaymentMethodExpiring : Type 0 where
  pub id : Uuid
  pub subscription_id : Uuid
  pub brand : Text
  pub last4 : Text
  pub exp_month : ℤ
  pub exp_year : ℤ
  pub timestamp : Time

pub data SubscriptionEvent : Type 0 where
  subscription_created : SubscriptionCreated → SubscriptionEvent
  subscription_updated : SubscriptionUpdated → SubscriptionEvent
  subscription_plan_changed : SubscriptionPlanChanged → SubscriptionEvent
  subscription_renewal_upcoming : SubscriptionRenewalUpcoming → SubscriptionEvent
  subscription_payment_method_expiring : SubscriptionPaymentMethodExpiring → SubscriptionEvent
