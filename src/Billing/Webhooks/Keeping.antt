-- ===== src/Billing/Webhooks/Keeping.antt =====
-- What a webhook's lookups and its update leave of the quota periods.
-- What a database promises of its subscriptions: one that is found by a key is found by its id, an
-- update changes the one with its id and sets its time of change, and neither the outbox nor a commit changes any.
use notai_api.Base.{
  ==_iff, Bool-cases, List, Option, Option-cases, [], ap, arith, if◌then◌else◌, inl, inr, is_empty,
  map, none, refl, some, ◌==◌, ◌∙◌, ◌≡◌, ◌⊎◌,
}
use notai_api.Base.Text.{Text}
use notai_api.Base.Values.{Time, Uuid}
use notai_api.Billing.Ledger.{
  BillingEvent, Ledger, find_by_customer, find_subscription, is_other, of_subscription, save_update,
}
use notai_api.Billing.Subscription.{Subscription, Update, apply_update, pull_events}
use notai_api.Database.{M, with_transaction}
use notai_api.Errors.{Err, Result, Result-cases, err, ok}
use notai_api.Quota.Usage.{found}

pub record IsLawful {S : Type 0} (ledger : Ledger S) : Type 0 where
  pub found_by_subscription :
      {k : Text} {s : S} {x : Subscription}
      → ledger.get_by_stripe_subscription_id k s ≡ ok (some x)
      → ledger.get_subscription x.id s ≡ ok (some x)
  pub found_by_customer :
      {k : Text} {s : S} {x : Subscription}
      → ledger.get_by_stripe_customer_id k s ≡ ok (some x)
      → ledger.get_subscription x.id s ≡ ok (some x)
  pub update_seen :
      {x : Subscription} {s t : S}
      → ledger.update_subscription x s ≡ ok t
      → (u : Time) × ((i : Uuid)
          → ledger.get_subscription i t ≡ (
              if i == x.id
              then ok (some (record x { updated_at = u; events = [] }))
              else ledger.get_subscription i s))
  pub kept_by_outbox :
      (i : Uuid) {es : List BillingEvent} {s t : S}
      → ledger.store_events es s ≡ ok t
      → ledger.get_subscription i t ≡ ledger.get_subscription i s
  pub kept_by_commit :
      (i : Uuid) {s t : S}
      → ledger.commit s ≡ ok t
      → ledger.get_subscription i t ≡ ledger.get_subscription i s

abbrev pub period : Result (Option Subscription) → Option Time
period (ok (some x)) = some x.quota_period_start
period (ok none) = none
period (err e) = none

-- When the quota period of a subscription starts, where the subscription is found.
abbrev pub period_of : {S : Type 0} → Ledger S → Uuid → S → Option Time
period_of ledger i s = period (ledger.get_subscription i s)

period-or :
    (u : Update) (s : Subscription)
    → u.quota_period_start ≡ s.quota_period_start
    → (if u.quota_period_start == 0 then s.quota_period_start else u.quota_period_start)
      ≡ s.quota_period_start
period-or u s h = ground arith

pub apply_update-keeps :
    (u : Update) (now : Time) (eid1 eid2 : Uuid) (s : Subscription)
    → u.quota_period_start ≡ s.quota_period_start
    → let s' = apply_update u now eid1 eid2 s in
      (s'.id ≡ s.id) × (s'.quota_period_start ≡ s.quota_period_start)
unfolding apply_update
apply_update-keeps u now eid1 eid2 s h = elim (Bool-cases (s.plan_id == u.plan_id)) [
  | inl e ↦ rw e (refl, period-or u s h)
  | inr e ↦ rw e (refl, period-or u s h)
]

module _ {S : Type 0} (ledger : Ledger S) (law : IsLawful ledger) where
  abbrev pub Keeps : S → Result (Unit {0}) × S → Type 0
  Keeps s r = (i : Uuid) → period_of ledger i r.1 ≡ period_of ledger i s

  replaced :
      (x y : Subscription) (at : Time) (i : Uuid) (s : S)
      → ledger.get_subscription x.id s ≡ ok (some x)
      → y.id ≡ x.id
      → y.quota_period_start ≡ x.quota_period_start
      → period (
          if i == y.id
          then ok (some (record y { updated_at = at; events = [] }))
          else ledger.get_subscription i s)
        ≡ period_of ledger i s
  replaced x y at i s f e q = elim (Bool-cases (i == y.id)) [
    | inl h ↦
        let same : i ≡ x.id = ground (arith, ==_iff i y.id) in
        rw h (rw same (rw f (ap (λ t. some t) q)))
    | inr h ↦ rw h refl
  ]

  pub save_update-Keeps :
      (x y : Subscription) (s : S)
      → ledger.get_subscription x.id s ≡ ok (some x)
      → y.id ≡ x.id
      → y.quota_period_start ≡ x.quota_period_start
      → Keeps s (save_update ledger y s)
  unfolding save_update with_transaction
  save_update-Keeps x y s f e q i = elim (Result-cases (ledger.update_subscription y s)) [
    | inl (o, p) ↦ rw p refl
    | inr (t, p) ↦
        elim (Result-cases (ledger.store_events (map of_subscription (pull_events y).1) t)) [
          | inl (o, r) ↦ rw (p, r) refl
          | inr (u, r) ↦ elim (Result-cases (ledger.commit u)) [
            | inl (o, c) ↦ rw (p, r, c) refl
            | inr (v, c) ↦
                let (at, k) = law.update_seen p in
                let seen = law.kept_by_commit i c ∙ law.kept_by_outbox i r ∙ k i in
                rw (p, r, c) (ap (λ o. period o) seen ∙ replaced x y at i s f e q)
          ]
        ]
  ]

  -- What findSubscriptionByStripeIDs answers; it changes nothing.
  abbrev pub Finds : M S (Option Subscription) → S → Type 0
  Finds m s =
      ((e : Err) × (m s ≡ (err e, s)))
      ⊎ ((m s ≡ (ok none, s))
          ⊎ ((x : Subscription) × (m s ≡ (ok (some x), s))
              × (ledger.get_subscription x.id s ≡ ok (some x))))

  find_by_customer-Finds : (k c : Text) (s : S) → Finds (find_by_customer ledger k c) s
  unfolding find_by_customer
  find_by_customer-Finds k c s = elim (Bool-cases (is_empty c)) [
    | inl e ↦ rw e (inr (inl refl))
    | inr e ↦ elim (Result-cases (ledger.get_by_stripe_customer_id c s)) [
      | inl (o, p) ↦ rw (e, p) (inl (_, refl))
      | inr (found, p) ↦ elim (Option-cases found) [
        | inl n ↦ rw (e, p, n) (inr (inl refl))
        | inr (x, n) ↦ elim (Bool-cases (is_other k x)) [
          | inl q ↦ rw (e, p, n, q) (inr (inl refl))
          | inr q ↦ rw (e, p, n, q) (inr (inr (x, refl, law.found_by_customer (rw n at p))))
        ]
      ]
    ]
  ]

  pub find_subscription-Finds : (k c : Text) (s : S) → Finds (find_subscription ledger k c) s
  unfolding find_subscription
  find_subscription-Finds k c s = elim (Bool-cases (is_empty k)) [
    | inl e ↦ rw e (find_by_customer-Finds k c s)
    | inr e ↦ elim (Result-cases (ledger.get_by_stripe_subscription_id k s)) [
      | inl (o, p) ↦ rw (e, p) (inl (_, refl))
      | inr (found, p) ↦ elim (Option-cases found) [
        | inl n ↦ rw (e, p, n) (find_by_customer-Finds k c s)
        | inr (x, n) ↦ rw (e, p, n) (inr (inr (x, refl, law.found_by_subscription (rw n at p))))
      ]
    ]
  ]
