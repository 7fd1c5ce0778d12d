-- ===== src/Account/User.antt =====
-- internal/domain/user/entity.go
use notai_api.Base.{
  Bool, List, Option, [], false, if◌then◌else◌, is_empty, is_none, none, some, true, ◌++◌, ◌==◌,
  ◌∷◌,
}
use notai_api.Base.Text.{Text}
use notai_api.Base.Values.{Time, Uuid}
use notai_api.Account.Types.{
  User, UserEvent, user_created, user_current_client_changed, user_deleted, user_updated,
}

unfoldable pub record_event : UserEvent → User → User
record_event e u = record u { events = u.events ++ (e ∷ []) }

unfoldable pub pull_events : User → User × List UserEvent
pull_events u = (record u { events = [] }, u.events)

unfoldable pub new_user : Text → Text → Text → Text → Bool → Time → Uuid → Uuid → User
new_user clerk first last email banned now id eid = record {
  id = id;
  clerk_id = clerk;
  first_name = first;
  last_name = last;
  banned = banned;
  email = email;
  current_client_id = none;
  created_at = now;
  updated_at = now;
  events =
      user_created (record {
        event_id = eid;
        user_id = id;
        clerk_id = clerk;
        first_name = first;
        last_name = last;
        email = email;
        banned = banned;
        timestamp = now;
      })
      ∷ [];
}

unfoldable pub apply_update : Text → Text → Text → Bool → Time → Uuid → User → User
unfolding record_event
apply_update first last email banned now eid u =
    let address = if is_empty email then u.email else email in
    record_event
      (user_updated (record {
        event_id = eid;
        user_id = u.id;
        clerk_id = u.clerk_id;
        first_name = first;
        last_name = last;
        email = address;
        banned = banned;
        timestamp = now;
      }))
      (record u {
        first_name = first;
        last_name = last;
        banned = banned;
        email = address;
        updated_at = now;
      })

unfoldable pub mark_deleted : Time → Uuid → User → User
unfolding record_event
mark_deleted now eid u =
    record_event
      (user_deleted
        (record { event_id = eid; user_id = u.id; clerk_id = u.clerk_id; timestamp = now }))
      u

-- `current != nil && *current == client`
abbrev pub is_current : Uuid → Option Uuid → Bool
is_current client none = false
is_current client (some c) = c == client

-- What both changes of the current client do.
unfoldable pub change_client : Option Uuid → Time → Uuid → User → User
unfolding record_event
change_client client now eid u =
    record_event
      (user_current_client_changed
        (record { event_id = eid; user_id = u.id; client_id = client; timestamp = now }))
      (record u { current_client_id = client; updated_at = now })

unfoldable pub set_current_client : Uuid → Time → Uuid → User → User × Bool
unfolding change_client
set_current_client client now eid u =
    if is_current client u.current_client_id
    then (u, false)
    else (change_client (some client) now eid u, true)

unfoldable pub clear_current_client : Time → Uuid → User → User × Bool
unfolding change_client
clear_current_client now eid u =
    if is_none u.current_client_id then (u, false) else (change_client none now eid u, true)
