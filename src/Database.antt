-- ===== src/Database.antt =====
-- What the command handlers ask of the database: the repositories of contents and media, the outbox
-- (internal/domain/port/outbox.go) and their shared WithTransaction, as an interface over a state of
-- type S. The SQL behind it is not modelled.
pub mod Runs
use notai_api.Account.Types.{ClientEvent, UserEvent}
use notai_api.Billing.Types.{SubscriptionEvent}
use notai_api.Billing.Workspace.{WorkspaceEvent}
use notai_api.Base.{List, Option, none, some, ℕ}
use notai_api.Base.Text.{Text}
use notai_api.Base.Values.{Time, Uuid}
use notai_api.Campaign.Types.{CampaignEvent}
use notai_api.Content.Entity.{Content}
use notai_api.Content.Types.{ContentEvent}
use notai_api.Errors.{Err, Result, err, ok}
use notai_api.Media.Entity.{Media}
use notai_api.Media.Types.{MediaEvent}

-- The outbox takes the events of all entities.
pub data DomainEvent : Type 0 where
  of_content : ContentEvent → DomainEvent
  of_media : MediaEvent → DomainEvent
  of_campaign : CampaignEvent → DomainEvent
  of_client : ClientEvent → DomainEvent
  of_user : UserEvent → DomainEvent
  of_workspace_event : WorkspaceEvent → DomainEvent
  of_subscription_event : SubscriptionEvent → DomainEvent

-- A nil entity is none. Updates leave the events alone, which are not persisted.
pub record Store (S : Type 0) : Type 0 where
  pub get_content : Uuid → S → Result (Option Content)
  pub update_content : Content → S → Result S
  pub save_content : Content → S → Result S
  pub list_by_media_id : Uuid → S → Result (List Content)
  pub get_media : Uuid → S → Result (Option Media)
  pub get_media_by_key : Text → S → Result (Option Media)
  pub list_processing_updated_before : Time → ℕ → S → Result (List Media)
  pub update_media : Media → S → Result S
  pub store_events : List DomainEvent → S → Result S
  pub commit : S → Result S

-- A computation on the database that may fail.
abbrev pub M : Type 0 → Type 0 → Type 0
M S A = S → Result A × S

module _ {S : Type 0} where
  abbrev pub ret : {A : Type 0} → A → M S A
  ret a s = (ok a, s)

  abbrev pub fail_with : {A : Type 0} → Err → M S A
  fail_with e s = (err e, s)

  abbrev pub and_then : {A B : Type 0} → Result A × S → (A → M S B) → Result B × S
  and_then (err e, s) f = (err e, s)
  and_then (ok a, s) f = f a s

  infixl 5 ◌>>=◌ ◌>>◌
  abbrev pub ◌>>=◌ : {A B : Type 0} → M S A → (A → M S B) → M S B
  (m >>= f) s = and_then (m s) f

  abbrev pub ◌>>◌ : {A B : Type 0} → M S A → M S B → M S B
  (m >> k) s = and_then (m s) (λ a. k)

  -- A query.
  abbrev pub ask : {A : Type 0} → (S → Result A) → M S A
  ask q s = (q s, s)

  abbrev pub written : Result S → S → Result (Unit {0}) × S
  written (err e) s = (err e, s)
  written (ok s') s = (ok tt, s')

  -- A statement that changes the database.
  abbrev pub write : (S → Result S) → M S (Unit {0})
  write w s = written (w s) s

  -- `errors.New(...)` in place of the error of a call.
  abbrev pub reported : {A : Type 0} → Err → Result A × S → Result A × S
  reported e (err f, s) = (err e, s)
  reported e (ok a, s) = (ok a, s)

  abbrev pub reporting : {A : Type 0} → Err → M S A → M S A
  reporting e m s = reported e (m s)

  -- The result of an entity's method.
  abbrev pub checked : {A : Type 0} → A × Option Err → M S A
  checked (a, none) = ret a
  checked (a, some e) = fail_with e

  abbrev pub settled : {A : Type 0} → (S → Result S) → Result A × S → S → Result A × S
  settled commit (err e, s') s = (err e, s)
  settled commit (ok a, s') s = elim (commit s') [ err e ↦ (err e, s) | ok s'' ↦ (ok a, s'') ]

  -- WithTransaction: a failure, of the body or of the commit, leaves the database as it was.
  unfoldable pub with_transaction : {A : Type 0} → (S → Result S) → M S A → M S A
  with_transaction commit body s = settled commit (body s) s
