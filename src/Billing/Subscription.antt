-- ===== src/Billing/Subscription.antt =====
-- internal/domain/subscription/entity.go. `now` is what time.Now() answers, `eid`, `eid1` and `eid2` are
-- fresh UUIDs, and `in_a_century` is AddDate(100, 0, 0).
use notai_api.Base.{Bool, List, Option, [], false, if◌then◌else◌, value_or, ◌++◌, ◌==◌, ◌∷◌}
use notai_api.Base.Int.{ℤ}
use notai_api.Base.Text.{Text}
use notai_api.Base.Values.{Time, Uuid}
use notai_api.Billing.Types.{
  SubscriptionCreated, SubscriptionEvent, SubscriptionPaymentMethodExpiring,
  SubscriptionPlanChanged, SubscriptionRenewalUpcoming, SubscriptionStatus, SubscriptionUpdated,
  active, subscription_created, subscription_payment_method_expiring, subscription_plan_changed,
  subscription_renewal_upcoming, subscription_updated,
}

pub record Subscription : Type 0 where
  pub id : Uuid
  pub plan_id : Uuid
  pub stripe_customer_id : Text
  pub stripe_subscription_id : Text
  pub status : SubscriptionStatus
  pub start_date : Time
  pub end_date : Time
  pub cancel_at_period_end : Bool
  pub quota_period_start : Time
  pub created_at : Time
  pub updated_at : Time
  pub events : List SubscriptionEvent

unfoldable pub record_event : SubscriptionEvent → Subscription → Subscription
record_event e s = record s { events = s.events ++ (e ∷ []) }

unfoldable pub pull_events : Subscription → Subscription × List SubscriptionEvent
pull_events s = (record s { events = [] }, s.events)

abbrev updated_event : Uuid → Subscription → SubscriptionUpdated
updated_event eid s = record {
  id = eid;
  subscription_id = s.id;
  plan_id = s.plan_id;
  stripe_customer_id = s.stripe_customer_id;
  stripe_subscription_id = s.stripe_subscription_id;
  status = s.status;
  start_date = s.start_date;
  end_date = s.end_date;
  cancel_at_period_end = s.cancel_at_period_end;
  quota_period_start = s.quota_period_start;
  timestamp = s.updated_at;
}

abbrev plan_changed_event : Uuid → Uuid → Subscription → SubscriptionPlanChanged
plan_changed_event eid previous s = record {
  id = eid;
  subscription_id = s.id;
  previous_plan_id = previous;
  plan_id = s.plan_id;
  status = s.status;
  timestamp = s.updated_at;
}

unfoldable pub new_subscription :
    Uuid → SubscriptionStatus → Time → Time → Time → Uuid → Uuid → Subscription
unfolding record_event
new_subscription plan status start_date end_date now id eid =
    let start = if start_date == 0 then now else start_date in
    let end = if end_date == 0 then start else end_date in
    let s : Subscription = record {
      id = id;
      plan_id = plan;
      stripe_customer_id = [];
      stripe_subscription_id = [];
      status = status;
      start_date = start;
      end_date = end;
      cancel_at_period_end = false;
      quota_period_start = start;
      created_at = now;
      updated_at = now;
      events = [];
    } in
    let e : SubscriptionCreated = record {
      id = eid;
      subscription_id = id;
      plan_id = plan;
      stripe_customer_id = [];
      stripe_subscription_id = [];
      status = status;
      start_date = start;
      end_date = end;
      cancel_at_period_end = false;
      quota_period_start = start;
      timestamp = now;
    } in
    record_event (subscription_created e) s

unfoldable pub new_free_subscription : (Time → Time) → Uuid → Time → Uuid → Uuid → Subscription
unfolding new_subscription
new_free_subscription in_a_century plan now id eid =
    new_subscription plan active now (in_a_century now) now id eid

-- The arguments of ApplyUpdate.
pub record Update : Type 0 where
  pub plan_id : Uuid
  pub status : SubscriptionStatus
  pub stripe_customer_id : Text
  pub stripe_subscription_id : Text
  pub start_date : Time
  pub end_date : Time
  pub cancel_at_period_end : Bool
  pub quota_period_start : Time

unfoldable pub apply_update : Update → Time → Uuid → Uuid → Subscription → Subscription
unfolding record_event
apply_update u now eid1 eid2 s =
    let q = u.quota_period_start in
    let s' = record s {
      plan_id = u.plan_id;
      status = u.status;
      stripe_customer_id = u.stripe_customer_id;
      stripe_subscription_id = u.stripe_subscription_id;
      start_date = u.start_date;
      end_date = u.end_date;
      cancel_at_period_end = u.cancel_at_period_end;
      quota_period_start = if q == 0 then s.quota_period_start else q;
      updated_at = now;
    } in
    let changed =
      if s.plan_id == u.plan_id
      then s'
      else record_event (subscription_plan_changed (plan_changed_event eid1 s.plan_id s')) s' in
    record_event (subscription_updated (updated_event eid2 s')) changed

-- eventIDOrNew; none is an empty text.
abbrev pub event_id_or_new : Option Uuid → Uuid → Uuid
event_id_or_new given eid = value_or given eid

unfoldable pub record_renewal_upcoming :
    Option Uuid → ℤ → Text → Time → Time → Uuid → Subscription → Subscription
unfolding record_event
record_renewal_upcoming event_id amount_due currency period_end now eid s =
    let e : SubscriptionRenewalUpcoming = record {
      id = event_id_or_new event_id eid;
      subscription_id = s.id;
      plan_id = s.plan_id;
      amount_due = amount_due;
      currency = currency;
      period_end = period_end;
      timestamp = now;
    } in
    record_event (subscription_renewal_upcoming e) (record s { updated_at = now })

unfoldable pub record_payment_method_expiring :
    Option Uuid → Text → Text → ℤ → ℤ → Time → Uuid → Subscription → Subscription
unfolding record_event
record_payment_method_expiring event_id brand last4 exp_month exp_year now eid s =
    let e : SubscriptionPaymentMethodExpiring = record {
      id = event_id_or_new event_id eid;
      subscription_id = s.id;
      brand = brand;
      last4 = last4;
      exp_month = exp_month;
      exp_year = exp_year;
      timestamp = now;
    } in
    record_event (subscription_payment_method_expiring e) (record s { updated_at = now })

unfoldable pub downgrade_to_free :
    (Time → Time) → Uuid → Time → Uuid → Uuid → Subscription → Subscription
unfolding apply_update
downgrade_to_free in_a_century free_plan now eid1 eid2 s =
    apply_update
      (record {
        plan_id = free_plan;
        status = active;
        stripe_customer_id = s.stripe_customer_id;
        stripe_subscription_id = [];
        start_date = now;
        end_date = in_a_century now;
        cancel_at_period_end = false;
        quota_period_start = s.quota_period_start;
      })
      now eid1 eid2 s
