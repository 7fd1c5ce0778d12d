-- ===== src/Billing/Tests.antt =====
-- Runs on a small database in memory, with one subscription, on a plan that costs, and one workspace.
use notai_api.Base.{
  ==_iff, ==_refl, Bool-cases, List, [], arith, false, if◌then◌else◌, inl, inr, none, refl, some,
  ◌+◌, ◌==◌, ◌∷◌, ◌≡◌,
}
use notai_api.Base.Text.{codes, text_eq}
use notai_api.Base.Values.{Time, Uuid}
use notai_api.Billing.Checkout.{
  CheckoutCompletedCommand, Gateway, SubscriptionData, bought_plan, check_out, checkout_update,
  current_subscription, is_free, link, renew, was_free,
}
use notai_api.Billing.Checkout.Periods.{check_out-period}
use notai_api.Billing.Invoice.{InvoiceEvent, new_invoice}
use notai_api.Billing.Ledger.{Ledger, find_subscription, save_update}
use notai_api.Billing.Subscription.{Subscription, apply_update, downgrade_to_free}
use notai_api.Billing.Types.{active}
use notai_api.Billing.Upsert.{UpsertInvoiceCommand}
use notai_api.Billing.Upsert.Announcing.{Run, count_id, event_id, store_runs, upsert_announces_once}
use notai_api.Billing.Webhooks.{
  apply_deleted, apply_failed, handle_invoice_payment_failed, handle_subscription_deleted,
}
use notai_api.Billing.Webhooks.Keeping.{IsLawful, period_of}
use notai_api.Billing.Webhooks.Periods.{
  Delivery, deleted, failing, handle_all, handle_all-keeps_period,
}
use notai_api.Billing.Workspace.{Workspace}
use notai_api.Database.{with_transaction}
use notai_api.Errors.{err, new_error, ok}
use notai_api.Messaging.Relay.{OutboxRow}

abbrev paid : Subscription
paid = record {
  id = 7;
  plan_id = 5;
  stripe_customer_id = codes "cus";
  stripe_subscription_id = codes "sub";
  status = active;
  start_date = 100;
  end_date = 200;
  cancel_at_period_end = false;
  quota_period_start = 50;
  created_at = 50;
  updated_at = 50;
  events = [];
}

abbrev workspace : Workspace
workspace = record {
  id = 3;
  owner_user_id = 4;
  subscription_id = some 7;
  created_at = 50;
  updated_at = 50;
  events = [];
}

abbrev memory_ledger : Ledger Subscription
memory_ledger = record {
  get_subscription = λ i s. ok (if i == s.id then some s else none);
  get_by_stripe_subscription_id =
      λ k s. ok (if text_eq k s.stripe_subscription_id then some s else none);
  get_by_stripe_customer_id = λ k s. ok (if text_eq k s.stripe_customer_id then some s else none);
  save_subscription = λ x s. err (new_error []);
  update_subscription =
      λ x s. if x.id == s.id then ok (record x { events = [] }) else err (new_error []);
  plan_by_id = λ i s. ok (some (record { id = i; slug = codes "pro" }));
  plan_by_slug = λ k s. ok (some (record { id = 1; slug = k }));
  plan_by_stripe_price_id = λ k s. ok (some (record { id = 6; slug = codes "team" }));
  get_workspace = λ i s. ok (some workspace);
  get_by_subscription_id = λ i s. ok (some workspace);
  update_workspace = λ w s. ok s;
  get_by_stripe_invoice_id = λ k s. ok none;
  upsert_by_stripe_invoice_id = λ i s. ok s;
  store_events = λ es s. ok s;
  commit = λ s. ok s;
}

memory_update :
    (i : Uuid) (x s t : Subscription)
    → memory_ledger.update_subscription x s ≡ ok t
    → memory_ledger.get_subscription i t ≡ (
        if i == x.id
        then ok (some (record x { events = [] }))
        else memory_ledger.get_subscription i s)
memory_update i x s t h = elim (Bool-cases (x.id == s.id)) [
  | inl e ↦ elim (Bool-cases (i == x.id)) [
    | inl q ↦ ground (arith, ==_iff x.id s.id, ==_iff i x.id)
    | inr q ↦ ground (arith, ==_iff x.id s.id, ==_iff i x.id)
  ]
  | inr e ↦ ground arith
]

memory_ledger-IsLawful : IsLawful memory_ledger
memory_ledger-IsLawful = record {
  found_by_subscription = λ {k} {s} h. ground (arith, ==_refl s.id);
  found_by_customer = λ {k} {s} h. ground (arith, ==_refl s.id);
  update_seen = λ {x} {s} {t} h. (x.updated_at, λ i. memory_update i x s t h);
  kept_by_outbox = λ i h. ground arith;
  kept_by_commit = λ i h. ground arith;
}

-- A failed payment, and the deletion of the subscription.
abbrev deliveries : List Delivery
deliveries =
    record {
      webhook =
          failing
            (record { stripe_subscription_id = codes "sub"; stripe_customer_id = codes "cus" });
      now = 300;
      eid1 = 21;
      eid2 = 22;
    }
    ∷ record { webhook = deleted (λ t. t + 1000) (codes "sub"); now = 400; eid1 = 23; eid2 = 24 }
    ∷ []

handle_all-keeps_period_example :
    period_of memory_ledger 7 (handle_all memory_ledger deliveries paid) ≡ some 50
handle_all-keeps_period_example =
    handle_all-keeps_period memory_ledger memory_ledger-IsLawful deliveries 7 paid

-- They do change the subscription.
deliveries_change : (handle_all memory_ledger deliveries paid).plan_id ≡ 1
unfolding handle_invoice_payment_failed handle_subscription_deleted find_subscription apply_failed
    apply_deleted downgrade_to_free apply_update save_update with_transaction
deliveries_change = refl

abbrev bought : SubscriptionData
bought = record {
  id = codes "sub";
  item_id = [];
  customer_id = codes "cus";
  price_id = codes "price";
  status = codes "active";
  current_period_start = 500;
  current_period_end = 900;
  cancel_at_period_end = false;
}

abbrev gateway : Gateway
gateway = record { retrieve = λ k. ok bought; retrieve_latest_invoice = λ k. ok none }

abbrev checkout : CheckoutCompletedCommand
checkout = record {
  workspace_id = 3;
  stripe_customer_id = [];
  stripe_subscription_id = codes "sub";
}

-- From one paid plan to another, in the midst of a period.
check_out-period_example :
    period_of memory_ledger 7
      (check_out memory_ledger gateway 600 (λ n. n + 30) checkout workspace paid).1
    ≡ some 50
unfolding check_out bought_plan current_subscription is_free was_free renew link with_transaction
    checkout_update apply_update
check_out-period_example =
    check_out-period memory_ledger memory_ledger-IsLawful gateway 600 (λ n. n + 30)
      (λ i w s t h. ground arith) checkout workspace 7 paid
      (some (record { id = 5; slug = codes "pro" })) bought paid refl refl refl refl (omega arith)
      refl

abbrev row_of : InvoiceEvent → OutboxRow
row_of e = record {
  id = event_id e;
  aggregate_id = [];
  event_type = [];
  payload = [];
  created_at = 1;
  published_at = none;
}

abbrev upsert : UpsertInvoiceCommand
upsert = record {
  stripe_invoice_id = codes "in";
  snapshot = (new_invoice 3 none (codes "in") 1 2).snapshot;
  stripe_event_id = codes "evt";
  payment_outcome = codes "succeeded";
}

abbrev run_at : Time → Run
run_at t = record {
  workspace = 3;
  subscription = some 7;
  now = t;
  id = t + 1;
  eid1 = t + 2;
  eid2 = t + 3;
  found = none;
}

upsert_announces_once_example :
    count_id 99 (store_runs (λ parts. 99) upsert row_of (run_at 10 ∷ run_at 20 ∷ []) []) ≡ 1
upsert_announces_once_example =
    upsert_announces_once (λ parts. 99) upsert row_of (run_at 10) (run_at 20 ∷ []) [] (λ e. refl)
      refl (omega arith)
