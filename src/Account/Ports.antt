-- ===== src/Account/Ports.antt =====
-- What the commands of clients and users ask of the database: the write repositories of clients,
-- users and workspaces, GetBySlug of the plans and Save of the subscriptions.
use notai_api.Account.Types.{Client, User}
use notai_api.Base.{Option}
use notai_api.Base.Text.{Text}
use notai_api.Base.Values.{Uuid}
use notai_api.Billing.Subscription.{Subscription}
use notai_api.Billing.Workspace.{Workspace}
use notai_api.Errors.{Result}

pub record Accounts (S : Type 0) : Type 0 where
  pub get_client : Uuid → S → Result (Option Client)
  pub save_client : Client → S → Result S
  pub update_client : Client → S → Result S
  pub delete_client : Uuid → S → Result S
  pub get_user : Uuid → S → Result (Option User)
  pub get_user_by_clerk_id : Text → S → Result (Option User)
  pub save_user : User → S → Result S
  pub update_user : User → S → Result S
  pub delete_user : Uuid → S → Result S
  pub get_workspace_by_owner : Uuid → S → Result (Option Workspace)
  pub save_workspace : Workspace → S → Result S
  -- The id of the plan with a slug.
  pub get_plan_by_slug : Text → S → Result (Option Uuid)
  pub save_subscription : Subscription → S → Result S
