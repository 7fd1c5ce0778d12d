-- ===== src/Account/Client.antt =====
-- internal/domain/client/entity.go
use notai_api.Base.{Bool, List, [], any_of, false, if◌then◌else◌, true, ◌++◌, ◌==◌, ◌∷◌}
use notai_api.Base.Text.{Text}
use notai_api.Base.Values.{Time, Uuid}
use notai_api.Account.Types.{
  Client, ClientEvent, client_created, client_deleted, client_member_added, client_member_removed,
  client_updated,
}

unfoldable pub record_event : ClientEvent → Client → Client
record_event e c = record c { events = c.events ++ (e ∷ []) }

unfoldable pub pull_events : Client → Client × List ClientEvent
pull_events c = (record c { events = [] }, c.events)

unfoldable pub new_client : Text → Uuid → Uuid → Time → Uuid → Uuid → Client
new_client name workspace creator now id eid = record {
  id = id;
  name = name;
  workspace_id = workspace;
  created_at = now;
  updated_at = now;
  member_ids = [];
  events =
      client_created (record {
        event_id = eid;
        client_id = id;
        name = name;
        created_by_user_id = creator;
        timestamp = now;
      })
      ∷ [];
}

unfoldable pub apply_update : Text → Time → Uuid → Client → Client
unfolding record_event
apply_update name now eid c =
    record_event
      (client_updated (record {
        event_id = eid;
        client_id = c.id;
        name = name;
        member_ids = c.member_ids;
        timestamp = now;
      }))
      (record c { name = name; updated_at = now })

unfoldable pub mark_deleted : Time → Uuid → Client → Client
unfolding record_event
mark_deleted now eid c =
    record_event
      (client_deleted
        (record { event_id = eid; client_id = c.id; member_ids = c.member_ids; timestamp = now }))
      c

-- The loop over MemberIDs.
abbrev pub is_member : Uuid → List Uuid → Bool
is_member user = any_of (λ i. i == user)

-- The list without the first occurrence of the user.
unfoldable pub without_first : Uuid → List Uuid → List Uuid
without_first user [] = []
without_first user (i ∷ is) = if i == user then is else i ∷ without_first user is

unfoldable pub add_member : Uuid → Time → Uuid → Client → Client × Bool
unfolding record_event
add_member user now eid c = if is_member user c.member_ids then (c, false) else (
  record_event
      (client_member_added
        (record { event_id = eid; client_id = c.id; user_id = user; timestamp = now }))
      (record c { member_ids = c.member_ids ++ (user ∷ []); updated_at = now }),
  true,
)

unfoldable pub remove_member : Uuid → Time → Uuid → Client → Client × Bool
unfolding record_event
remove_member user now eid c =
    if is_member user c.member_ids
    then (
      record_event
          (client_member_removed
            (record { event_id = eid; client_id = c.id; user_id = user; timestamp = now }))
          (record c { member_ids = without_first user c.member_ids; updated_at = now }),
      true,
    )
    else (c, false)
