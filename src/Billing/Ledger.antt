-- ===== src/Billing/Ledger.antt =====
-- What the billing commands ask of the database: the repositories of subscriptions, plans, workspaces
-- and invoices, the outbox and the transactions, over a state of type S.
use notai_api.Base.{Bool, List, Option, if◌then◌else◌, is_empty, map, none, not, some, ◌&&◌, ◌==◌}
use notai_api.Base.Text.{Text, codes, text_eq}
use notai_api.Base.Values.{Time, Uuid}
use notai_api.Billing.Invoice.{Invoice, InvoiceEvent}
use notai_api.Billing.Subscription.{Subscription, pull_events}
use notai_api.Billing.Types.{SubscriptionEvent}
use notai_api.Billing.Workspace.{Workspace, WorkspaceEvent}
use notai_api.Database.{M, ask, reporting, ret, with_transaction, write, ◌>>=◌, ◌>>◌}
use notai_api.Errors.{Result, new_error}

-- What the commands read of a plan.
pub record PlanRef : Type 0 where
  pub id : Uuid
  pub slug : Text

-- The outbox takes the events of the three entities.
pub data BillingEvent : Type 0 where
  of_subscription : SubscriptionEvent → BillingEvent
  of_workspace : WorkspaceEvent → BillingEvent
  of_invoice : InvoiceEvent → BillingEvent

pub record Ledger (S : Type 0) : Type 0 where
  pub get_subscription : Uuid → S → Result (Option Subscription)
  pub get_by_stripe_subscription_id : Text → S → Result (Option Subscription)
  pub get_by_stripe_customer_id : Text → S → Result (Option Subscription)
  pub save_subscription : Subscription → S → Result S
  pub update_subscription : Subscription → S → Result S
  pub plan_by_id : Uuid → S → Result (Option PlanRef)
  pub plan_by_slug : Text → S → Result (Option PlanRef)
  pub plan_by_stripe_price_id : Text → S → Result (Option PlanRef)
  pub get_workspace : Uuid → S → Result (Option Workspace)
  pub get_by_subscription_id : Uuid → S → Result (Option Workspace)
  pub update_workspace : Workspace → S → Result S
  pub get_by_stripe_invoice_id : Text → S → Result (Option Invoice)
  pub upsert_by_stripe_invoice_id : Invoice → S → Result S
  pub store_events : List BillingEvent → S → Result S
  pub commit : S → Result S

-- plan.FreePlanSlug
abbrev pub free_plan_slug : Text
free_plan_slug = codes "free"

-- `if text != "" { value = text }`
abbrev pub text_or : Text → Text → Text
text_or t default = if is_empty t then default else t

-- `if !t.IsZero() { value = t }`
abbrev pub time_or : Time → Time → Time
time_or t default = if t == 0 then default else t

-- The subscription has another Stripe subscription than this one.
abbrev pub is_other : Text → Subscription → Bool
is_other subscription_id s =
    not (is_empty s.stripe_subscription_id)
    && not (is_empty subscription_id)
    && not (text_eq s.stripe_subscription_id subscription_id)

module _ {S : Type 0} (ledger : Ledger S) where
  -- findSubscriptionByStripeIDs, its second half.
  unfoldable pub find_by_customer : Text → Text → M S (Option Subscription)
  find_by_customer subscription_id customer_id =
      if is_empty customer_id
      then ret none
      else (reporting (new_error (codes "failed to get subscription by customer"))
            (ask (ledger.get_by_stripe_customer_id customer_id))
          >>= λ found. elim found [
            | none ↦ ret none
            | some s ↦ if is_other subscription_id s then ret none else ret (some s)
          ])

  unfoldable pub find_subscription : Text → Text → M S (Option Subscription)
  find_subscription subscription_id customer_id =
      if is_empty subscription_id
      then find_by_customer subscription_id customer_id
      else (reporting (new_error (codes "failed to get subscription"))
            (ask (ledger.get_by_stripe_subscription_id subscription_id))
          >>= λ found. elim found [
            | some s ↦ ret (some s)
            | none ↦ find_by_customer subscription_id customer_id
          ])

  -- The transaction that ends a handler: Update, and StoreEvents of what the entity pulls.
  unfoldable pub save_update : Subscription → M S (Unit {0})
  unfolding pull_events
  save_update s = with_transaction ledger.commit (
      reporting (new_error (codes "failed to update subscription"))
        (write (ledger.update_subscription s))
      >> write (ledger.store_events (map of_subscription (pull_events s).1)))
