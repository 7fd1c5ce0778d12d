-- ===== src/Account/Users.antt =====
-- internal/application/command/user: the handlers.
use notai_api.Account.Client.{add_member, is_member, new_client}
use notai_api.Account.Members.{
  client_events, get_client, get_user, required, text_error, user_events,
}
use notai_api.Account.Ports.{Accounts}
use notai_api.Account.Types.{Client, User}
use notai_api.Account.User.{
  apply_update, mark_deleted, new_user, pull_events as pull_user_events, set_current_client,
}
use notai_api.Base.{
  Bool, Option, if◌then◌else◌, is_empty, map, none, not, some, ℕ, ◌&&◌, ◌++◌, ◌==◌, ◌||◌,
}
use notai_api.Base.Text.{Text, codes, trim_space}
use notai_api.Base.Values.{Time, Uuid, uuid_nil}
use notai_api.Billing.Ledger.{free_plan_slug}
use notai_api.Billing.Subscription.{new_free_subscription, pull_events as pull_subscription_events}
use notai_api.Billing.Workspace.{
  assign_subscription, new_workspace, pull_events as pull_workspace_events,
}
use notai_api.Campaign.Commands.{save_campaign}
use notai_api.Campaign.Entity.{new_default_campaign, pull_events as pull_campaign_events}
use notai_api.Campaign.Types.{Campaign}
use notai_api.Database.{
  M, Store, ask, fail_with, of_campaign, of_subscription_event, of_workspace_event, reporting, ret,
  with_transaction, write, ◌>>=◌, ◌>>◌,
}
use notai_api.Errors.{Err, Result}

unfoldable pub personal_client_name : Text → Text → Text
unfolding trim_space
personal_client_name first_name last_name =
    let first = trim_space first_name in
    let last = trim_space last_name in
    if not (is_empty first) && not (is_empty last)
    then first ++ (codes " " ++ last)
    else if not (is_empty first)
    then first ++ codes "'s Client"
    else codes "Personal Client"

module _ {S : Type 0} (store : Store S) (accounts : Accounts S) where
  -- Update of a user, and StoreEvents.
  unfoldable pub update_user_with : Err → User → M S (Unit {0})
  update_user_with e u =
      reporting e (write (accounts.update_user u))
      >> write (store.store_events (user_events store accounts u))

  -- UpdateUserHandler.Handle, of the user that GetUserByExternalIDHandler loaded.
  unfoldable pub update_user :
      Option User → Text → Text → Text → Bool → Time → Uuid → M S (Unit {0})
  update_user none first last email banned now eid = fail_with (text_error "user is required")
  update_user (some u) first last email banned now eid = with_transaction store.commit (
      update_user_with (text_error "failed to update user")
        (apply_update first last email banned now eid u))

  -- GetUserByExternalIDHandler.Handle
  unfoldable pub get_user_by_external_id : Text → M S (Option User)
  get_user_by_external_id external_id =
      reporting (text_error "failed to get user by external ID")
        (ask (accounts.get_user_by_clerk_id external_id))

  -- What DeleteUserByExternalIDHandler.Handle does with the user that it found.
  unfoldable pub delete_found_user : Time → Uuid → Option User → M S (Unit {0})
  delete_found_user now eid none = ret tt
  delete_found_user now eid (some u) =
      reporting (text_error "failed to delete user by external ID")
        (write (accounts.delete_user u.id))
      >> write (store.store_events (user_events store accounts (mark_deleted now eid u)))

  -- DeleteUserByExternalIDHandler.Handle
  unfoldable pub delete_user_by_external_id : Text → Time → Uuid → M S (Unit {0})
  delete_user_by_external_id external_id now eid =
      with_transaction store.commit
        (get_user_by_external_id external_id >>= delete_found_user now eid)

  -- What SetCurrentClientHandler.Handle does with the client that it found.
  unfoldable pub enter_as_member : Uuid → Uuid → Time → Uuid → Client → M S (Unit {0})
  enter_as_member user client now eid c =
      if not (is_member user c.member_ids)
      then fail_with (text_error "client not found")
      else (get_user store accounts user >>= λ u.
          (let (u', changed) = set_current_client client now eid u in
            if not changed
            then ret tt
            else update_user_with (text_error "failed to set current client") u'))

  -- SetCurrentClientHandler.Handle
  unfoldable pub handle_set_current_client : Uuid → Uuid → Time → Uuid → M S (Unit {0})
  handle_set_current_client user client now eid =
      if user == uuid_nil || client == uuid_nil
      then fail_with (text_error "userId and clientId are required")
      else with_transaction store.commit
          (get_client store accounts client >>= enter_as_member user client now eid)

  -- GetBySlug of the free plan, whose error and whose absence are reported alike.
  unfoldable pub get_free_plan : M S Uuid
  get_free_plan = reporting (text_error "free plan not found") (
      ask (accounts.get_plan_by_slug free_plan_slug)
      >>= required (text_error "free plan not found"))

  -- The transaction of CreateUserHandler.Handle for the new user.
  unfoldable pub make_user :
      (Campaign → S → Result S) → (Time → Time) → Text → Text → Time → (ℕ → Uuid) → User → M S User
  make_user save_campaign in_a_century first last now new_id u =
      write (accounts.save_user u) >> get_free_plan >>= λ plan.
      (let sub = new_free_subscription in_a_century plan now (new_id 2) (new_id 3) in
        let w =
          assign_subscription sub.id now (new_id 5)
            (new_workspace u.id now (new_id 4) (new_id 6)) in
        let c =
          (add_member u.id now (new_id 9)
            (new_client (personal_client_name first last) w.id u.id now (new_id 7) (new_id 8))).0 in
        let d = new_default_campaign c.id now (new_id 10) (new_id 11) in
        let u' = (set_current_client c.id now (new_id 12) u).0 in
        reporting (text_error "failed to create free subscription")
          (write (accounts.save_subscription sub))
        >> write (accounts.save_workspace w)
        >> write (accounts.save_client c)
        >> write (save_campaign d)
        >> write (accounts.update_user u')
        >> write (
            store.store_events (
              user_events store accounts u'
              ++ (map of_workspace_event (pull_workspace_events w).1
                  ++ (client_events store accounts c
                      ++ (map of_campaign (pull_campaign_events d).1
                          ++ map of_subscription_event (pull_subscription_events sub).1)))))
        >> ret (pull_user_events u').0)

  -- CreateUserHandler.Handle; `in_a_century` is AddDate(100, 0, 0).
  unfoldable pub create_user :
      (Campaign → S → Result S)
      → (Time → Time)
      → Text
      → Text
      → Text
      → Text
      → Bool
      → Time
      → (ℕ → Uuid)
      → M S User
  create_user save_campaign in_a_century clerk first last email banned now new_id =
      let u = new_user clerk first last email banned now (new_id 0) (new_id 1) in
      reporting (text_error "failed to create user") (
        with_transaction store.commit
          (make_user save_campaign in_a_century first last now new_id u))
