-- ===== src/Account/Members.antt =====
-- internal/application/command/client: the handlers. The time, the fresh UUIDs and the answer of the
-- quota handler are arguments.
use Prim.Native.String.{String}
use notai_api.Account.Client.{
  add_member, apply_update, is_member, mark_deleted, new_client, pull_events, remove_member,
}
use notai_api.Account.Ports.{Accounts}
use notai_api.Account.Types.{Client, User}
use notai_api.Account.User.{
  clear_current_client, is_current, pull_events as pull_user_events, set_current_client,
}
use notai_api.Analysis.Handler.{asserted}
use notai_api.Base.{
  Bool, List, Option, if◌then◌else◌, is_empty, map, none, not, some, ℕ, ◌++◌, ◌==◌, ◌||◌,
}
use notai_api.Base.Text.{Text, codes, text_eq}
use notai_api.Base.Values.{Time, Uuid, uuid_nil}
use notai_api.Campaign.Commands.{save_campaign}
use notai_api.Campaign.Entity.{new_default_campaign, pull_events as pull_campaign_events}
use notai_api.Campaign.Types.{Campaign}
use notai_api.Database.{
  DomainEvent, M, Store, ask, fail_with, of_campaign, of_client, of_user, reporting, ret,
  with_transaction, write, ◌>>=◌, ◌>>◌,
}
use notai_api.Errors.{Err, Result, err, new_error, ok}

-- errors.New
abbrev pub text_error : String → Err
text_error t = new_error (codes t)

-- GetByID, and the error for an entity that is not there.
abbrev pub required : {S A : Type 0} → Err → Option A → M S A
required e none = fail_with e
required e (some a) = ret a

module _ {S : Type 0} (store : Store S) (accounts : Accounts S) where
  unfoldable pub client_events : Client → List DomainEvent
  unfolding pull_events
  client_events c = map of_client (pull_events c).1

  unfoldable pub user_events : User → List DomainEvent
  unfolding pull_user_events
  user_events u = map of_user (pull_user_events u).1

  unfoldable pub get_client : Uuid → M S Client
  get_client id =
      reporting (text_error "failed to get client") (ask (accounts.get_client id))
      >>= required (text_error "client not found")

  unfoldable pub get_user : Uuid → M S User
  get_user id =
      reporting (text_error "failed to get user") (ask (accounts.get_user id))
      >>= required (text_error "user not found")

  -- Update of a client, and StoreEvents.
  unfoldable pub update_client_with : String → Client → M S (Unit {0})
  update_client_with message c =
      reporting (text_error message) (write (accounts.update_client c))
      >> write (store.store_events (client_events c))

  -- UpdateClientHandler.Handle
  unfoldable pub update_client : Uuid → Text → Time → Uuid → M S (Unit {0})
  update_client id name now eid =
      if is_empty name
      then fail_with (text_error "name is required")
      else with_transaction store.commit (
          get_client id >>= λ c.
          update_client_with "failed to update client" (apply_update name now eid c))

  -- What DeleteClientHandler.Handle does with the client that it found.
  unfoldable pub delete_found_client : Time → Uuid → Option Client → M S (Unit {0})
  delete_found_client now eid none = ret tt
  delete_found_client now eid (some c) =
      reporting (text_error "failed to delete client") (write (accounts.delete_client c.id))
      >> write (store.store_events (client_events (mark_deleted now eid c)))

  -- DeleteClientHandler.Handle
  unfoldable pub delete_client : Uuid → Time → Uuid → M S (Unit {0})
  delete_client id now eid = with_transaction store.commit (
      reporting (text_error "failed to get client") (ask (accounts.get_client id))
      >>= delete_found_client now eid)

  -- The end of AddClientMemberHandler.Handle.
  unfoldable pub add_new_member :
      Option (Uuid → S → Option Err) → Uuid → Uuid → Time → Uuid → Client → M S (Unit {0})
  add_new_member quota client user now eid c =
      asserted store quota client
      >> (let (c', added) = add_member user now eid c in
          if not added then ret tt else update_client_with "failed to add client member" c')

  -- What AddClientMemberHandler.Handle does with the client that it found.
  unfoldable pub add_found_member :
      Option (Uuid → S → Option Err) → Uuid → Uuid → Uuid → Time → Uuid → Client → M S (Unit {0})
  add_found_member quota client user actor now eid c =
      if not (is_member actor c.member_ids)
      then fail_with (text_error "client not found")
      else (get_user user >>= λ u.
          if is_member user c.member_ids
          then ret tt
          else add_new_member quota client user now eid c)

  -- AddClientMemberHandler.Handle
  unfoldable pub add_client_member :
      Option (Uuid → S → Option Err) → Uuid → Uuid → Uuid → Time → Uuid → M S (Unit {0})
  add_client_member quota client user actor now eid =
      if client == uuid_nil || user == uuid_nil || actor == uuid_nil
      then fail_with (text_error "clientId, userId and actor are required")
      else with_transaction store.commit
          (get_client client >>= add_found_member quota client user actor now eid)

  -- The user's part of RemoveClientMemberHandler.Handle, with the events of the client.
  unfoldable pub clear_if_current :
      Uuid → Time → Uuid → List DomainEvent → Option User → M S (Unit {0})
  clear_if_current client now eid events none = write (store.store_events events)
  clear_if_current client now eid events (some u) =
      if is_current client u.current_client_id
      then (let u' = (clear_current_client now eid u).0 in
          reporting (text_error "failed to clear current client") (write (accounts.update_user u'))
          >> write (store.store_events (events ++ user_events u')))
      else write (store.store_events events)

  -- What RemoveClientMemberHandler.Handle does with the client that it found.
  unfoldable pub remove_found_member : Uuid → Uuid → Time → Uuid → Uuid → Client → M S (Unit {0})
  remove_found_member client user now eid1 eid2 c =
      let (c', removed) = remove_member user now eid1 c in
      if not removed
      then ret tt
      else (reporting (text_error "failed to remove client member")
            (write (accounts.update_client c'))
          >> reporting (text_error "failed to get user") (ask (accounts.get_user user))
          >>= clear_if_current client now eid2 (client_events c'))

  -- RemoveClientMemberHandler.Handle
  unfoldable pub remove_client_member : Uuid → Uuid → Time → Uuid → Uuid → M S (Unit {0})
  remove_client_member client user now eid1 eid2 =
      with_transaction store.commit
        (get_client client >>= remove_found_member client user now eid1 eid2)

  -- The current client of the creator, in CreateClientHandler.Handle.
  unfoldable pub enter_client : Uuid → Client → Time → Uuid → M S User
  enter_client creator c now eid =
      reporting (text_error "failed to get creator user") (ask (accounts.get_user creator))
      >>= required (text_error "creator user not found")
      >>= λ u.
          (let u' = (set_current_client c.id now eid u).0 in
            reporting (text_error "failed to set current client") (write (accounts.update_user u'))
            >> ret u')

  -- The transaction of CreateClientHandler.Handle; `save_campaign` is Save of the campaigns.
  unfoldable pub make_client :
      (Campaign → S → Result S) → Text → Uuid → Time → (ℕ → Uuid) → M S Client
  make_client save_campaign name creator now new_id =
      reporting (text_error "failed to get workspace")
        (ask (accounts.get_workspace_by_owner creator))
      >>= required (text_error "workspace not found")
      >>= λ w.
          (let c =
              (add_member creator now (new_id 2)
                (new_client name w.id creator now (new_id 0) (new_id 1))).0 in
            let d = new_default_campaign c.id now (new_id 3) (new_id 4) in
            write (accounts.save_client c)
            >> write (save_campaign d)
            >> enter_client creator c now (new_id 5)
            >>= λ u.
                write (
                  store.store_events (
                    client_events c
                    ++ (map of_campaign (pull_campaign_events d).1 ++ user_events u)))
                >> ret (pull_events c).0)

  -- The errors of the transaction whose text is handed on.
  abbrev pub is_handed_on : Text → Bool
  is_handed_on t =
      text_eq t (codes "creator user not found")
      || text_eq t (codes "failed to get creator user")
      || text_eq t (codes "failed to set current client")
      || text_eq t (codes "workspace not found")
      || text_eq t (codes "failed to get workspace")

  abbrev pub create_error : (Err → Text) → Result Client × S → Result Client × S
  create_error text_of (err e, s) =
      if is_handed_on (text_of e)
      then (err e, s)
      else (err (text_error "failed to create client"), s)
  create_error text_of (ok c, s) = (ok c, s)

  -- CreateClientHandler.Handle; `text_of` is the text of an error.
  unfoldable pub create_client :
      (Campaign → S → Result S) → (Err → Text) → Text → Uuid → Time → (ℕ → Uuid) → M S Client
  create_client save_campaign text_of name creator now new_id s =
      if is_empty name
      then (err (text_error "name is required"), s)
      else if creator == uuid_nil
      then (err (text_error "creator user is required"), s)
      else create_error text_of
          (with_transaction store.commit (make_client save_campaign name creator now new_id) s)
