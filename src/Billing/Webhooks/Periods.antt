-- ===== src/Billing/Webhooks/Periods.antt =====
-- Webhooks never move the period in which a subscription's quota is counted.
-- The webhooks of a subscription, with what they carry.
use notai_api.Base.{
  Bool-cases, List, Option-cases, [], inl, inr, is_empty, refl, some, ◌&&◌, ◌∙◌, ◌∷◌, ◌≡◌, ◌⊎◌,
}
use notai_api.Base.Text.{Text}
use notai_api.Base.Values.{Time, Uuid}
use notai_api.Billing.Ledger.{Ledger, find_subscription, free_plan_slug, save_update}
use notai_api.Billing.Subscription.{
  Subscription, Update, apply_update, downgrade_to_free, record_payment_method_expiring,
  record_renewal_upcoming,
}
use notai_api.Billing.Webhooks.{
  InvoicePaymentFailedCommand, InvoicePaymentSucceededCommand, PaymentMethodExpiringCommand,
  SubscriptionRenewalUpcomingCommand, SubscriptionUpdatedCommand, apply_deleted, apply_expiring,
  apply_failed, apply_renewal, apply_succeeded, apply_updated, handle_invoice_payment_failed,
  handle_invoice_payment_succeeded, handle_payment_method_expiring, handle_renewal_upcoming,
  handle_subscription_deleted, handle_subscription_updated, linked, target_plan,
}
use notai_api.Billing.Webhooks.Keeping.{
  IsLawful, Keeps, apply_update-keeps, find_subscription-Finds, period_of, save_update-Keeps,
}
use notai_api.Database.{M, and_then}
use notai_api.Errors.{Err, Result-cases, err, ok}
use notai_api.Quota.Usage.{found}

-- The webhooks of a subscription that is there. The remaining one, the completed checkout, starts a
-- period where a plan is bought (Billing/Checkout).
pub data Webhook : Type 0 where
  updated : SubscriptionUpdatedCommand → Webhook
  deleted : (Time → Time) → Text → Webhook
  succeeded : InvoicePaymentSucceededCommand → Webhook
  failing : InvoicePaymentFailedCommand → Webhook
  renewing : (List Text → Uuid) → SubscriptionRenewalUpcomingCommand → Webhook
  expiring : (List Text → Uuid) → PaymentMethodExpiringCommand → Webhook

-- A webhook, and the time and the UUIDs of its run.
pub record Delivery : Type 0 where
  pub webhook : Webhook
  pub now : Time
  pub eid1 : Uuid
  pub eid2 : Uuid

abbrev pub handle : {S : Type 0} → Ledger S → Delivery → M S (Unit {0})
handle ledger d = elim d.webhook [
  | updated cmd ↦ handle_subscription_updated ledger d.now d.eid1 d.eid2 cmd
  | deleted later k ↦ handle_subscription_deleted ledger d.now d.eid1 d.eid2 later k
  | succeeded cmd ↦ handle_invoice_payment_succeeded ledger d.now d.eid1 d.eid2 cmd
  | failing cmd ↦ handle_invoice_payment_failed ledger d.now d.eid1 d.eid2 cmd
  | renewing id cmd ↦ handle_renewal_upcoming ledger d.now d.eid1 d.eid2 id cmd
  | expiring id cmd ↦ handle_payment_method_expiring ledger d.now d.eid1 d.eid2 id cmd
]

-- The database after webhooks, whatever they report.
abbrev pub handle_all : {S : Type 0} → Ledger S → List Delivery → S → S
handle_all ledger [] s = s
handle_all ledger (d ∷ ds) s = handle_all ledger ds (handle ledger d s).1

module _ {S : Type 0} (ledger : Ledger S) (law : IsLawful ledger) where
  module _ (now : Time) (eid1 eid2 : Uuid) where
    apply_update-Keeps :
        (u : Update) (x : Subscription) (s : S)
        → ledger.get_subscription x.id s ≡ ok (some x)
        → u.quota_period_start ≡ x.quota_period_start
        → Keeps ledger law s (save_update ledger (apply_update u now eid1 eid2 x) s)
    apply_update-Keeps u x s f h =
        let (e, q) = apply_update-keeps u now eid1 eid2 x h in
        save_update-Keeps ledger law x (apply_update u now eid1 eid2 x) s f e q

    linked-Keeps :
        (f : Subscription → M S (Unit {0})) (k c : Text) (s : S)
        → ((x : Subscription)
            → ledger.get_subscription x.id s ≡ ok (some x)
            → Keeps ledger law s (f x s))
        → Keeps ledger law s
            (and_then (find_subscription ledger k c s) (linked ledger now eid1 eid2 f))
    linked-Keeps f k c s g i = elim (find_subscription-Finds ledger law k c s) [
      | inl (e, p) ↦ rw p refl
      | inr (inl p) ↦ rw p refl
      | inr (inr (x, p, found)) ↦ rw p (g x found i)
    ]

    target_plan-cases :
        (price : Text) (plan : Uuid) (s : S)
        → ((e : Err) × (target_plan ledger now eid1 eid2 price plan s ≡ (err e, s)))
          ⊎ ((p : Uuid) × (target_plan ledger now eid1 eid2 price plan s ≡ (ok p, s)))
    unfolding target_plan
    target_plan-cases price plan s = elim (Bool-cases (is_empty price)) [
      | inl e ↦ rw e (inr (plan, refl))
      | inr e ↦ elim (Result-cases (ledger.plan_by_stripe_price_id price s)) [
        | inl (o, p) ↦ rw (e, p) (inl (_, refl))
        | inr (found, p) ↦ elim (Option-cases found) [
          | inl n ↦ rw (e, p, n) (inr (plan, refl))
          | inr (t, n) ↦ rw (e, p, n) (inr (t.id, refl))
        ]
      ]
    ]

    updated-Keeps :
        (cmd : SubscriptionUpdatedCommand) (s : S)
        → Keeps ledger law s (handle_subscription_updated ledger now eid1 eid2 cmd s)
    unfolding handle_subscription_updated apply_updated
    updated-Keeps cmd s i = elim (Bool-cases (is_empty cmd.stripe_subscription_id)) [
      | inl e ↦ rw e refl
      | inr e ↦
          elim (Result-cases (ledger.get_by_stripe_subscription_id cmd.stripe_subscription_id s)) [
            | inl (o, p) ↦ rw (e, p) refl
            | inr (found, p) ↦ elim (Option-cases found) [
              | inl n ↦ rw (e, p, n) refl
              | inr (x, n) ↦ elim (target_plan-cases cmd.stripe_price_id x.plan_id s) [
                | inl (o, q) ↦ rw (e, p, n, q) refl
                | inr (plan, q) ↦
                    rw (e, p, n, q)
                      (apply_update-Keeps _ x s (law.found_by_subscription (rw n at p)) refl i)
              ]
            ]
          ]
    ]

    deleted-Keeps :
        (later : Time → Time) (k : Text) (s : S)
        → Keeps ledger law s (handle_subscription_deleted ledger now eid1 eid2 later k s)
    unfolding handle_subscription_deleted apply_deleted downgrade_to_free
    deleted-Keeps later k s i = elim (Bool-cases (is_empty k)) [
      | inl e ↦ rw e refl
      | inr e ↦ elim (Result-cases (ledger.get_by_stripe_subscription_id k s)) [
        | inl (o, p) ↦ rw (e, p) refl
        | inr (found, p) ↦ elim (Option-cases found) [
          | inl n ↦ rw (e, p, n) refl
          | inr (x, n) ↦ elim (Result-cases (ledger.plan_by_slug free_plan_slug s)) [
            | inl (o, q) ↦ rw (e, p, n, q) refl
            | inr (plan, q) ↦ elim (Option-cases plan) [
              | inl m ↦ rw (e, p, n, q, m) refl
              | inr (t, m) ↦
                  rw (e, p, n, q, m)
                    (apply_update-Keeps _ x s (law.found_by_subscription (rw n at p)) refl i)
            ]
          ]
        ]
      ]
    ]

    succeeded-Keeps :
        (cmd : InvoicePaymentSucceededCommand) (s : S)
        → Keeps ledger law s (handle_invoice_payment_succeeded ledger now eid1 eid2 cmd s)
    unfolding handle_invoice_payment_succeeded apply_succeeded
    succeeded-Keeps cmd s i = elim (Bool-cases (is_empty cmd.stripe_subscription_id)) [
      | inl e ↦ rw e refl
      | inr e ↦ rw e (
          linked-Keeps (apply_succeeded ledger now eid1 eid2 cmd) cmd.stripe_subscription_id
            cmd.stripe_customer_id s (λ x f. apply_update-Keeps _ x s f refl) i)
    ]

    failing-Keeps :
        (cmd : InvoicePaymentFailedCommand) (s : S)
        → Keeps ledger law s (handle_invoice_payment_failed ledger now eid1 eid2 cmd s)
    unfolding handle_invoice_payment_failed apply_failed
    failing-Keeps cmd s i = elim (Bool-cases (is_empty cmd.stripe_subscription_id)) [
      | inl e ↦ rw e refl
      | inr e ↦ rw e (
          linked-Keeps (apply_failed ledger now eid1 eid2 cmd) cmd.stripe_subscription_id
            cmd.stripe_customer_id s (λ x f. apply_update-Keeps _ x s f refl) i)
    ]

    renewing-Keeps :
        (id : List Text → Uuid) (cmd : SubscriptionRenewalUpcomingCommand) (s : S)
        → Keeps ledger law s (handle_renewal_upcoming ledger now eid1 eid2 id cmd s)
    unfolding handle_renewal_upcoming apply_renewal record_renewal_upcoming
    renewing-Keeps id cmd s i =
        elim (Bool-cases (is_empty cmd.stripe_subscription_id && is_empty cmd.stripe_customer_id)) [
          | inl e ↦ rw e refl
          | inr e ↦ rw e (
              linked-Keeps (apply_renewal ledger now eid1 eid2 id cmd) cmd.stripe_subscription_id
                cmd.stripe_customer_id s (λ x f. save_update-Keeps ledger law x _ s f refl refl) i)
        ]

    expiring-Keeps :
        (id : List Text → Uuid) (cmd : PaymentMethodExpiringCommand) (s : S)
        → Keeps ledger law s (handle_payment_method_expiring ledger now eid1 eid2 id cmd s)
    unfolding handle_payment_method_expiring apply_expiring record_payment_method_expiring
    expiring-Keeps id cmd s i =
        elim (Bool-cases (is_empty cmd.stripe_customer_id && is_empty cmd.stripe_subscription_id)) [
          | inl e ↦ rw e refl
          | inr e ↦ rw e (
              linked-Keeps (apply_expiring ledger now eid1 eid2 id cmd) cmd.stripe_subscription_id
                cmd.stripe_customer_id s (λ x f. save_update-Keeps ledger law x _ s f refl refl) i)
        ]

  handle-Keeps :
      (w : Webhook) (now : Time) (eid1 eid2 : Uuid) (s : S)
      → Keeps ledger law s
          (handle ledger (record { webhook = w; now = now; eid1 = eid1; eid2 = eid2 }) s)
  handle-Keeps (updated cmd) now eid1 eid2 s = updated-Keeps now eid1 eid2 cmd s
  handle-Keeps (deleted later k) now eid1 eid2 s = deleted-Keeps now eid1 eid2 later k s
  handle-Keeps (succeeded cmd) now eid1 eid2 s = succeeded-Keeps now eid1 eid2 cmd s
  handle-Keeps (failing cmd) now eid1 eid2 s = failing-Keeps now eid1 eid2 cmd s
  handle-Keeps (renewing id cmd) now eid1 eid2 s = renewing-Keeps now eid1 eid2 id cmd s
  handle-Keeps (expiring id cmd) now eid1 eid2 s = expiring-Keeps now eid1 eid2 id cmd s

  -- For a database that keeps what it promises of its subscriptions: whichever of the six webhooks
  -- other than a completed checkout arrive (a subscription updated or deleted, an invoice paid or not,
  -- a renewal coming up, a payment method expiring), in any order and with repetitions, and whichever
  -- database calls fail, no subscription's quota period moves.
  pub handle_all-keeps_period :
      (ds : List Delivery) (i : Uuid) (s : S)
      → period_of ledger i (handle_all ledger ds s) ≡ period_of ledger i s
  handle_all-keeps_period [] i s = refl
  handle_all-keeps_period (d ∷ ds) i s =
      handle_all-keeps_period ds i (handle ledger d s).1
      ∙ handle-Keeps d.webhook d.now d.eid1 d.eid2 s i
