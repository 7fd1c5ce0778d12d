-- ===== src/Account/Access/Sequences.antt =====
-- Any sequence of the commands of clients and users.
use notai_api.Account.Access.{
  IsConsistent, IsConsistent-other, IsConsistent-user, IsUnused, KeepsAccounts, stores,
  updates_user,
}
use notai_api.Account.Access.Commands.{
  add_client_member-Good, delete_client-Good, remove_client_member-Good, settled-Good,
  update_client-Good,
}
use notai_api.Account.Access.Creating.{create_client-Good, create_user-Good}
use notai_api.Account.Access.Entering.{
  delete_user-Good, set_current_client-Good, update_user_with-Runs,
}
use notai_api.Account.Members.{
  add_client_member, create_client, delete_client, remove_client_member, text_error, update_client,
}
use notai_api.Account.Ports.{Accounts}
use notai_api.Account.Types.{User}
use notai_api.Account.User.{apply_update}
use notai_api.Account.Users.{
  create_user, delete_user_by_external_id, handle_set_current_client, update_user,
}
use notai_api.Base.{Bool, List, Option, [], refl, some, sym, ℕ, ◌∙◌, ◌∷◌, ◌≡◌}
use notai_api.Base.Text.{Text}
use notai_api.Base.Values.{Time, Uuid}
use notai_api.Campaign.Types.{Campaign}
use notai_api.Database.{Store, with_transaction}
use notai_api.Errors.{Err, Result, ok}

updated-current :
    (first last email : Text) (banned : Bool) (now : Time) (eid : Uuid) (u : User)
    → let v = apply_update first last email banned now eid u in
      (v.id ≡ u.id) × (v.current_client_id ≡ u.current_client_id)
unfolding apply_update
updated-current first last email banned now eid u = (refl, refl)

module _ {S : Type 0} (store : Store S) (accounts : Accounts S)
    (save_campaign : Campaign → S → Result S) where
  -- A command, with its time and its fresh UUIDs; an update of a user, with the user that was loaded.
  pub data Command : Type 0 where
    updating_client : Uuid → Text → Time → Uuid → Command
    deleting_client : Uuid → Time → Uuid → Command
    creating_client : (Err → Text) → Text → Uuid → Time → (ℕ → Uuid) → Command
    adding_member : Option (Uuid → S → Option Err) → Uuid → Uuid → Uuid → Time → Uuid → Command
    removing_member : Uuid → Uuid → Time → Uuid → Uuid → Command
    setting_current_client : Uuid → Uuid → Time → Uuid → Command
    creating_user : (Time → Time) → Text → Text → Text → Text → Bool → Time → (ℕ → Uuid) → Command
    updating_user : User → Text → Text → Text → Bool → Time → Uuid → Command
    deleting_user : Text → Time → Uuid → Command

  -- The database after a command, whether it reports an error or not.
  abbrev pub perform : Command → S → S
  perform (updating_client id name now eid) s = (update_client store accounts id name now eid s).1
  perform (deleting_client id now eid) s = (delete_client store accounts id now eid s).1
  perform (creating_client text_of name creator now new_id) s =
      (create_client store accounts save_campaign text_of name creator now new_id s).1
  perform (adding_member quota client user actor now eid) s =
      (add_client_member store accounts quota client user actor now eid s).1
  perform (removing_member client user now eid1 eid2) s =
      (remove_client_member store accounts client user now eid1 eid2 s).1
  perform (setting_current_client user client now eid) s =
      (handle_set_current_client store accounts user client now eid s).1
  perform (creating_user in_a_century clerk first last email banned now new_id) s =
      (create_user store accounts save_campaign in_a_century clerk first last email banned now
        new_id s).1
  perform (updating_user u first last email banned now eid) s =
      (update_user store accounts (some u) first last email banned now eid s).1
  perform (deleting_user external_id now eid) s =
      (delete_user_by_external_id store accounts external_id now eid s).1

  -- A new client's UUID is nobody's current client yet, and the user that an update loaded is still
  -- the one in the database.
  abbrev pub IsTimely : Command → S → Type 0
  IsTimely (creating_client text_of name creator now new_id) s =
      IsUnused store accounts save_campaign (new_id 0) s
  IsTimely (creating_user in_a_century clerk first last email banned now new_id) s =
      IsUnused store accounts save_campaign (new_id 7) s
  IsTimely (updating_user u first last email banned now eid) s =
      accounts.get_user u.id s ≡ ok (some u)
  IsTimely _ s = Unit

  unfoldable pub perform_all : List Command → S → S
  perform_all [] s = s
  perform_all (o ∷ os) s = perform_all os (perform o s)

  abbrev pub AllTimely : List Command → S → Type 0
  AllTimely [] s = Unit
  AllTimely (o ∷ os) s = IsTimely o s × AllTimely os (perform o s)

  module _ (law : KeepsAccounts store accounts save_campaign) where
    abbrev Good : S → Type 0
    Good = IsConsistent store accounts save_campaign

    update_user-Good :
        (u : User) (first last email : Text) (banned : Bool) (now : Time) (eid : Uuid) (s : S)
        → accounts.get_user u.id s ≡ ok (some u)
        → Good s
        → Good (update_user store accounts (some u) first last email banned now eid s).1
    unfolding update_user with_transaction
    update_user-Good u first last email banned now eid s f g =
        settled-Good store accounts save_campaign law _ s g (λ x t h.
          let v = apply_update first last email banned now eid u in
          let (i, e) = updated-current first last email banned now eid u in
          let (a, w, es) =
            update_user_with-Runs store accounts save_campaign law
              (text_error "failed to update user") v h in
          IsConsistent-other store accounts save_campaign law (stores _ es) (
            IsConsistent-user store accounts save_campaign v (law.clients_kept (updates_user v w))
              (law.user_updated w) (λ k c p q. rw i (g u.id k u c f (sym e ∙ q) p))
              (λ j k n. g j k)))

    perform-Good : (o : Command) (s : S) → IsTimely o s → Good s → Good (perform o s)
    perform-Good (updating_client id name now eid) s timely g =
        update_client-Good store accounts save_campaign law id name now eid s g
    perform-Good (deleting_client id now eid) s timely g =
        delete_client-Good store accounts save_campaign law id now eid s g
    perform-Good (creating_client text_of name creator now new_id) s timely g =
        create_client-Good store accounts save_campaign law text_of name creator now new_id s timely
          g
    perform-Good (adding_member quota client user actor now eid) s timely g =
        add_client_member-Good store accounts save_campaign law quota client user actor now eid s g
    perform-Good (removing_member client user now eid1 eid2) s timely g =
        remove_client_member-Good store accounts save_campaign law client user now eid1 eid2 s g
    perform-Good (setting_current_client user client now eid) s timely g =
        set_current_client-Good store accounts save_campaign law user client now eid s g
    perform-Good (creating_user in_a_century clerk first last email banned now new_id) s timely g =
        create_user-Good store accounts save_campaign law in_a_century clerk first last email banned
          now new_id s timely g
    perform-Good (updating_user u first last email banned now eid) s timely g =
        update_user-Good u first last email banned now eid s timely g
    perform-Good (deleting_user external_id now eid) s timely g =
        delete_user-Good store accounts save_campaign law external_id now eid s g

    -- For a database that keeps what it promises of the clients and the users, in which nobody is in a
    -- client that they are not a member of: the same holds after any sequence of the commands of
    -- clients and users, also of those that report an error, as long as a new client's UUID is nobody's
    -- current client yet and an update of a user has loaded that user as it still is.
    pub perform_all-IsConsistent :
        (os : List Command) (s : S)
        → AllTimely os s
        → IsConsistent store accounts save_campaign s
        → IsConsistent store accounts save_campaign (perform_all os s)
    unfolding perform_all
    perform_all-IsConsistent [] s timely g = g
    perform_all-IsConsistent (o ∷ os) s (now, later) g =
        perform_all-IsConsistent os (perform o s) later (perform-Good o s now g)
