-- ===== src/Billing/Checkout/Periods.antt =====
-- A checkout starts a new quota period only where the workspace was on the free plan.
use notai_api.Base.{
  ==_iff, Bool, Bool-cases, List, Option, Option-cases, ap, arith, if◌then◌else◌, inl, inr,
  is_empty, map, none, refl, some, true, ℕ, ◌++◌, ◌<◌, ◌==◌, ◌||◌, ◌∙◌, ◌≡◌, ◌⊎◌,
}
use notai_api.Base.Text.{Text, codes, text_eq}
use notai_api.Base.Values.{Time, Uuid}
use notai_api.Billing.Checkout.{
  CheckoutCompletedCommand, Gateway, SubscriptionData, bought_plan, check_out, checkout_update,
  current_subscription, is_free, is_linked, link, renew, was_free,
}
use notai_api.Billing.Ledger.{BillingEvent, Ledger, PlanRef, of_subscription, of_workspace, time_or}
use notai_api.Billing.Subscription.{Subscription, apply_update, pull_events}
use notai_api.Billing.Webhooks.Keeping.{IsLawful, period_of}
use notai_api.Billing.Workspace.{
  Workspace, assign_subscription, pull_events as pull_workspace_events,
}
use notai_api.Database.{and_then, settled, with_transaction, write}
use notai_api.Errors.{Err, Result, Result-cases, err, ok}
use notai_api.Quota.Usage.{found}

module _ {S : Type 0} (ledger : Ledger S) (law : IsLawful ledger) where
  -- The update of a workspace changes no subscription.
  abbrev pub KeptByWorkspace : Type 0
  KeptByWorkspace =
      (i : Uuid) (w : Workspace) (s t : S)
      → ledger.update_workspace w s ≡ ok t
      → ledger.get_subscription i t ≡ ledger.get_subscription i s

  committed :
      (r : Result (Unit {0}) × S) (s : S)
      → (settled ledger.commit r s).0 ≡ ok tt
      → (r.0 ≡ ok tt)
        × ((i : Uuid)
            → ledger.get_subscription i (settled ledger.commit r s).1
              ≡ ledger.get_subscription i r.1)
  committed (err e, t) s h = ground arith
  committed (ok tt, t) s h = elim (Result-cases (ledger.commit t)) [
    | inl (e, p) ↦ ground arith
    | inr (u, p) ↦ (refl, λ i. rw (settled, p) (law.kept_by_commit i p))
  ]

  module _ (gateway : Gateway) (now : Time) (new_id : ℕ → Uuid) where
    write-kept :
        (events : List BillingEvent) (i : Uuid) (s : S)
        → ledger.get_subscription i (write (ledger.store_events events) s).1
          ≡ ledger.get_subscription i s
    write-kept events i s = elim (Result-cases (ledger.store_events events s)) [
      | inl (e, p) ↦ rw (write, p) refl
      | inr (t, p) ↦ rw (write, p) (law.kept_by_outbox i p)
    ]

    link-kept :
        (kept : KeptByWorkspace) (w : Workspace) (y : Subscription) (s : S) (i : Uuid)
        → ledger.get_subscription i (link ledger gateway now new_id w y s).1
          ≡ ledger.get_subscription i s
    unfolding link
    link-kept kept w y s i =
        let w' = assign_subscription y.id now (new_id 4) w in
        let events = map of_subscription (pull_events y).1 in
        let more = events ++ map of_workspace (pull_workspace_events w').1 in
        elim (Bool-cases (is_linked ledger gateway now new_id w y.id)) [
          | inl e ↦ rw e (write-kept events i s)
          | inr e ↦ elim (Result-cases (ledger.update_workspace w' s)) [
            | inl (o, p) ↦ rw (e, p) refl
            | inr (t, p) ↦ rw (e, p) (write-kept more i t ∙ kept i w' s t p)
          ]
        ]

    -- Where the quota period starts after a checkout.
    abbrev pub period_after : SubscriptionData → Bool → Subscription → Time
    period_after d free x =
        if free then time_or d.current_period_start now else x.quota_period_start

    -- The plan of the subscription is the free one or is not there, or the provider has no subscription.
    abbrev pub has_paid_nothing : Subscription → Option PlanRef → Bool
    has_paid_nothing x none = true
    has_paid_nothing x (some p) = text_eq p.slug (codes "free") || is_empty x.stripe_subscription_id

    was_free_lem :
        (x : Subscription) (found : Option PlanRef) → was_free x found ≡ has_paid_nothing x found
    unfolding was_free
    was_free_lem x none = refl
    was_free_lem x (some p) = refl

    checkout_update-period :
        (cmd : CheckoutCompletedCommand) (d : SubscriptionData) (plan : PlanRef) (free : Bool)
        (x : Subscription)
        → 0 < now
        → let u = checkout_update cmd d plan free x.quota_period_start now in
          let y = apply_update u now (new_id 2) (new_id 3) x in
          (y.id ≡ x.id) × (y.quota_period_start ≡ period_after d free x)
    unfolding checkout_update apply_update
    checkout_update-period cmd d plan free x z = elim (Bool-cases (x.plan_id == plan.id)) [
      | inl e ↦ rw e (refl, ground arith)
      | inr e ↦ rw e (refl, ground arith)
    ]

    renew-ends :
        (cmd : CheckoutCompletedCommand) (d : SubscriptionData) (plan : PlanRef) (free : Bool)
        (x : Subscription) (s : S)
        → 0 < now
        → ((e : Err) × (renew ledger gateway now new_id cmd d plan free (some x) s ≡ (err e, s)))
          ⊎ ((y : Subscription) × (t : S) × (renew ledger gateway now new_id cmd d plan free
                  (some x)
                  s
                ≡ (ok y, t))
              × (period_of ledger x.id t ≡ some (period_after d free x)))
    unfolding renew
    renew-ends cmd d plan free x s z =
        let u = checkout_update cmd d plan free x.quota_period_start now in
        let y = apply_update u now (new_id 2) (new_id 3) x in
        let (same, q) = checkout_update-period cmd d plan free x z in
        elim (Result-cases (ledger.update_subscription y s)) [
          | inl (e, p) ↦ rw p (inl (_, refl))
          | inr (t, p) ↦
              let k : (x.id == y.id) ≡ true = ground (arith, ==_iff x.id y.id) in
              let (at, seen) = law.update_seen p in
              inr (y, t, rw p refl, rw (seen x.id, k) (ap (λ n. some n) q))
        ]

    bought_plan-cases :
        (price : Text) (s : S)
        → ((e : Err) × (bought_plan ledger gateway now new_id price s ≡ (err e, s)))
          ⊎ ((p : PlanRef) × (bought_plan ledger gateway now new_id price s ≡ (ok p, s)))
    unfolding bought_plan
    bought_plan-cases price s = elim (Result-cases (ledger.plan_by_stripe_price_id price s)) [
      | inl (e, p) ↦ rw p (inl (_, refl))
      | inr (found, p) ↦ elim (Option-cases found) [
        | inl n ↦ rw (p, n) (inl (_, refl))
        | inr (t, n) ↦ inr (t, rw (p, n) refl)
      ]
    ]

    -- For a database that keeps what it promises of its subscriptions, and a workspace whose
    -- subscription and its plan can be read: after a checkout that reports no error, the quota period
    -- of that subscription starts with the period that was bought (now, if the provider names none)
    -- if the workspace was on the free plan, its plan is not there any more, or it had no subscription
    -- at the provider, and is else what it was.
    pub check_out-period :
        (kept : KeptByWorkspace) (cmd : CheckoutCompletedCommand) (w : Workspace) (i : Uuid)
        (x : Subscription) (found : Option PlanRef) (d : SubscriptionData) (s : S)
        → w.subscription_id ≡ some i
        → ledger.get_subscription i s ≡ ok (some x)
        → ledger.plan_by_id x.plan_id s ≡ ok found
        → gateway.retrieve cmd.stripe_subscription_id ≡ ok d
        → 0 < now
        → (check_out ledger gateway now new_id cmd w s).0 ≡ ok tt
        → period_of ledger x.id (check_out ledger gateway now new_id cmd w s).1
          ≡ some (period_after d (has_paid_nothing x found) x)
    unfolding check_out current_subscription is_free with_transaction
    check_out-period kept cmd w i x found d s a b c g z h = elim (bought_plan-cases d.price_id s) [
      | inl (e, p) ↦
          let refused : check_out ledger gateway now new_id cmd w s ≡ (err e, s) = rw (g, p) refl in
          absurd (cc (refused, h))
      | inr (plan, p) ↦
          let free = has_paid_nothing x found in
          let f = was_free_lem x found in
          let body =
            and_then (renew ledger gateway now new_id cmd d plan free (some x) s)
              (link ledger gateway now new_id w) in
          let q : check_out ledger gateway now new_id cmd w s ≡ settled ledger.commit body s =
            rw (g, p, a, b, c, f) refl in
          let (k, same) = committed body s (cc (q, h)) in
          elim (renew-ends cmd d plan free x s z) [
            | inl (e, r) ↦ absurd (cc (r, k))
            | inr (y, t, r, moved) ↦
                let linked : body ≡ link ledger gateway now new_id w y t = rw r refl in
                let found_as =
                  same x.id
                  ∙ ap (λ o. ledger.get_subscription x.id o.1) linked
                  ∙ link-kept kept w y t x.id in
                rw (q, found_as) moved
          ]
    ]
