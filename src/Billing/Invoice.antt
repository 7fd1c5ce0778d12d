-- ===== src/Billing/Invoice.antt =====
-- internal/domain/invoice: entity.go and events.go. The fields that the provider dictates are one
-- record, which ApplyStripeSnapshot replaces as a whole.
use notai_api.Base.{List, Option, [], none, ◌++◌, ◌∷◌}
use notai_api.Base.Int.{pos, ℤ}
use notai_api.Base.Text.{Text}
use notai_api.Base.Values.{Time, Uuid}
use notai_api.Billing.Subscription.{event_id_or_new}

pub record StripeSnapshot : Type 0 where
  pub stripe_customer_id : Text
  pub stripe_subscription_id : Text
  pub number : Text
  pub status : Text
  pub currency : Text
  pub amount_due : ℤ
  pub amount_paid : ℤ
  pub total : ℤ
  pub hosted_invoice_url : Text
  pub invoice_pdf : Text
  pub billing_reason : Text
  pub description : Text
  pub attempt_count : ℤ
  pub period_start : Time
  pub period_end : Time
  pub paid_at : Option Time
  pub stripe_created_at : Time

-- InvoiceCreated and InvoiceUpdated have the same fields.
pub record InvoiceState : Type 0 where
  pub id : Uuid
  pub invoice_id : Uuid
  pub workspace_id : Uuid
  pub subscription_id : Option Uuid
  pub stripe_invoice_id : Text
  pub stripe_customer_id : Text
  pub stripe_subscription_id : Text
  pub number : Text
  pub status : Text
  pub currency : Text
  pub amount_due : ℤ
  pub amount_paid : ℤ
  pub total : ℤ
  pub billing_reason : Text
  pub paid_at : Option Time
  pub stripe_created_at : Time
  pub timestamp : Time

pub record InvoicePaymentSucceeded : Type 0 where
  pub id : Uuid
  pub invoice_id : Uuid
  pub workspace_id : Uuid
  pub number : Text
  pub currency : Text
  pub amount_paid : ℤ
  pub total : ℤ
  pub hosted_invoice_url : Text
  pub invoice_pdf : Text
  pub billing_reason : Text
  pub paid_at : Option Time
  pub timestamp : Time

pub record InvoicePaymentFailed : Type 0 where
  pub id : Uuid
  pub invoice_id : Uuid
  pub workspace_id : Uuid
  pub number : Text
  pub currency : Text
  pub amount_due : ℤ
  pub total : ℤ
  pub attempt_count : ℤ
  pub hosted_invoice_url : Text
  pub billing_reason : Text
  pub timestamp : Time

pub data InvoiceEvent : Type 0 where
  invoice_created : InvoiceState → InvoiceEvent
  invoice_updated : InvoiceState → InvoiceEvent
  invoice_payment_succeeded : InvoicePaymentSucceeded → InvoiceEvent
  invoice_payment_failed : InvoicePaymentFailed → InvoiceEvent

pub record Invoice : Type 0 where
  pub id : Uuid
  pub workspace_id : Uuid
  pub subscription_id : Option Uuid
  pub stripe_invoice_id : Text
  pub snapshot : StripeSnapshot
  pub created_at : Time
  pub updated_at : Time
  pub events : List InvoiceEvent

abbrev no_snapshot : StripeSnapshot
no_snapshot = record {
  stripe_customer_id = [];
  stripe_subscription_id = [];
  number = [];
  status = [];
  currency = [];
  amount_due = pos 0;
  amount_paid = pos 0;
  total = pos 0;
  hosted_invoice_url = [];
  invoice_pdf = [];
  billing_reason = [];
  description = [];
  attempt_count = pos 0;
  period_start = 0;
  period_end = 0;
  paid_at = none;
  stripe_created_at = 0;
}

unfoldable pub new_invoice : Uuid → Option Uuid → Text → Time → Uuid → Invoice
new_invoice workspace subscription stripe_invoice_id now id = record {
  id = id;
  workspace_id = workspace;
  subscription_id = subscription;
  stripe_invoice_id = stripe_invoice_id;
  snapshot = no_snapshot;
  created_at = now;
  updated_at = now;
  events = [];
}

unfoldable pub record_event : InvoiceEvent → Invoice → Invoice
record_event e i = record i { events = i.events ++ (e ∷ []) }

unfoldable pub pull_events : Invoice → Invoice × List InvoiceEvent
pull_events i = (record i { events = [] }, i.events)

unfoldable pub apply_stripe_snapshot : StripeSnapshot → Time → Invoice → Invoice
apply_stripe_snapshot s now i = record i { snapshot = s; updated_at = now }

abbrev state_event : Uuid → Invoice → InvoiceState
state_event eid i = record {
  id = eid;
  invoice_id = i.id;
  workspace_id = i.workspace_id;
  subscription_id = i.subscription_id;
  stripe_invoice_id = i.stripe_invoice_id;
  stripe_customer_id = i.snapshot.stripe_customer_id;
  stripe_subscription_id = i.snapshot.stripe_subscription_id;
  number = i.snapshot.number;
  status = i.snapshot.status;
  currency = i.snapshot.currency;
  amount_due = i.snapshot.amount_due;
  amount_paid = i.snapshot.amount_paid;
  total = i.snapshot.total;
  billing_reason = i.snapshot.billing_reason;
  paid_at = i.snapshot.paid_at;
  stripe_created_at = i.snapshot.stripe_created_at;
  timestamp = i.updated_at;
}

unfoldable pub raise_created : Uuid → Invoice → Invoice
unfolding record_event
raise_created eid i = record_event (invoice_created (state_event eid i)) i

unfoldable pub raise_updated : Uuid → Invoice → Invoice
unfolding record_event
raise_updated eid i = record_event (invoice_updated (state_event eid i)) i

unfoldable pub raise_payment_succeeded : Option Uuid → Uuid → Invoice → Invoice
unfolding record_event
raise_payment_succeeded event_id eid i =
    let e : InvoicePaymentSucceeded = record {
      id = event_id_or_new event_id eid;
      invoice_id = i.id;
      workspace_id = i.workspace_id;
      number = i.snapshot.number;
      currency = i.snapshot.currency;
      amount_paid = i.snapshot.amount_paid;
      total = i.snapshot.total;
      hosted_invoice_url = i.snapshot.hosted_invoice_url;
      invoice_pdf = i.snapshot.invoice_pdf;
      billing_reason = i.snapshot.billing_reason;
      paid_at = i.snapshot.paid_at;
      timestamp = i.updated_at;
    } in
    record_event (invoice_payment_succeeded e) i

unfoldable pub raise_payment_failed : Option Uuid → Uuid → Invoice → Invoice
unfolding record_event
raise_payment_failed event_id eid i =
    let e : InvoicePaymentFailed = record {
      id = event_id_or_new event_id eid;
      invoice_id = i.id;
      workspace_id = i.workspace_id;
      number = i.snapshot.number;
      currency = i.snapshot.currency;
      amount_due = i.snapshot.amount_due;
      total = i.snapshot.total;
      attempt_count = i.snapshot.attempt_count;
      hosted_invoice_url = i.snapshot.hosted_invoice_url;
      billing_reason = i.snapshot.billing_reason;
      timestamp = i.updated_at;
    } in
    record_event (invoice_payment_failed e) i
