-- ===== src/Account/Tests.antt =====
-- The commands over a small directory in memory.
use notai_api.Account.Access.{
  IsConsistent, Deletes, KeepsAccounts, WritesClient, WritesOther, WritesUser, commits,
  deletes_client, deletes_user, saves_campaign, saves_client, saves_subscription, saves_user,
  saves_workspace, stores, updates_client, updates_user,
}
use notai_api.Account.Access.Sequences.{
  Command, adding_member, perform_all, perform_all-IsConsistent, removing_member,
  setting_current_client, updating_user,
}
use notai_api.Account.Client.{add_member, is_member, remove_member, without_first}
use notai_api.Account.Members.{
  add_client_member, add_found_member, add_new_member, clear_if_current, get_client, get_user,
  remove_client_member, remove_found_member, update_client_with,
}
use notai_api.Account.Ports.{Accounts}
use notai_api.Account.Types.{Client, User}
use notai_api.Account.User.{
  apply_update, change_client, clear_current_client, is_current, set_current_client,
}
use notai_api.Account.Users.{
  enter_as_member, handle_set_current_client, update_user, update_user_with,
}
use notai_api.Base.{
  ==_iff, Bool-cases, List, Option, [], arith, false, if◌then◌else◌, inl, inr, keep_if, map, none,
  not, refl, some, ◌==◌, ◌∷◌, ◌≡◌, ◌⊎◌,
}
use notai_api.Base.Text.{codes}
use notai_api.Base.Values.{Uuid}
use notai_api.Campaign.Types.{Campaign}
use notai_api.Database.{Store, with_transaction}
use notai_api.Errors.{Result, ok}

module _ {A : Type 0} (id_of : A → Uuid) where
  abbrev find_row : Uuid → List A → Option A
  find_row i [] = none
  find_row i (a ∷ rows) = let rest = find_row i rows in if i == id_of a then some a else rest

  find_row-id : (i : Uuid) (rows : List A) {a : A} → find_row i rows ≡ some a → id_of a ≡ i
  find_row-id i [] h = ground arith
  find_row-id i (b ∷ bs) {a} h = elim (Bool-cases (i == id_of b)) [
    | inl e ↦ ground (arith, ==_iff i (id_of b), e)
    | inr e ↦ find_row-id i bs (rw e at h)
  ]

  find_row-without :
      (i k : Uuid) (rows : List A)
      → find_row i (keep_if (λ a. not (id_of a == k)) rows)
        ≡ (if i == k then none else find_row i rows)
  find_row-without i k [] = ground arith
  find_row-without i k (a ∷ rows) =
      ground (arith, find_row-without i k rows, ==_iff i k, ==_iff i (id_of a), ==_iff (id_of a) k)

  find_row-map :
      (f : A → A) (same : (a : A) → id_of (f a) ≡ id_of a) (i : Uuid) (rows : List A) {b : A}
      → find_row i (map f rows) ≡ some b
      → (a : A) × (find_row i rows ≡ some a) × (b ≡ f a)
  find_row-map f same i [] h = ground arith
  find_row-map f same i (a ∷ rows) {b} h = elim (Bool-cases (i == id_of a)) [
    | inl e ↦ (a, rw e refl, ground (arith, same a, e, h))
    | inr e ↦
        let (c, p, q) = find_row-map f same i rows (ground (arith, same a, e, h)) in (c, rw e p, q)
  ]

  find_row-kept :
      (i k : Uuid) (rows : List A) {a : A}
      → find_row i (keep_if (λ a. not (id_of a == k)) rows) ≡ some a
      → ((i == k) ≡ false) × (find_row i rows ≡ some a)
  find_row-kept i k rows h = ground (arith, find_row-without i k rows, h)

is_member-kept :
    (i k : Uuid) (is : List Uuid)
    → (i == k) ≡ false
    → is_member i (keep_if (λ j. not (j == k)) is) ≡ is_member i is
is_member-kept i k [] h = refl
is_member-kept i k (j ∷ js) h =
    ground (arith, is_member-kept i k js h, ==_iff j k, ==_iff j i, ==_iff i k)

pub record Directory : Type 0 where
  pub clients : List Client
  pub users : List User

abbrev client_id_of : Client → Uuid
client_id_of c = c.id

abbrev user_id_of : User → Uuid
user_id_of u = u.id

abbrev put_client : Client → Directory → Result Directory
put_client c s = ok (record s { clients = record c { events = [] } ∷ s.clients })

abbrev put_user : User → Directory → Result Directory
put_user u s = ok (record s { users = record u { events = [] } ∷ s.users })

-- Who is in a client that goes is in none.
abbrev out_of : Uuid → User → User
out_of k u = if is_current k u.current_client_id then record u { current_client_id = none } else u

abbrev drop_client : Uuid → Directory → Result Directory
drop_client k s =
    ok (record {
      clients = keep_if (λ c. not (c.id == k)) s.clients;
      users = map (out_of k) s.users;
    })

-- With a user go their memberships.
abbrev without_member : Uuid → Client → Client
without_member k c = record c { member_ids = keep_if (λ i. not (i == k)) c.member_ids }

abbrev drop_user : Uuid → Directory → Result Directory
drop_user k s = ok (record {
  clients = map (without_member k) s.clients;
  users = keep_if (λ u. not (u.id == k)) s.users;
})

abbrev directory : Accounts Directory
directory = record {
  get_client = λ i s. ok (find_row client_id_of i s.clients);
  save_client = put_client;
  update_client = put_client;
  delete_client = drop_client;
  get_user = λ i s. ok (find_row user_id_of i s.users);
  get_user_by_clerk_id = λ t s. ok none;
  save_user = put_user;
  update_user = put_user;
  delete_user = drop_user;
  get_workspace_by_owner = λ i s. ok none;
  save_workspace = λ w s. ok s;
  get_plan_by_slug = λ t s. ok (some 50);
  save_subscription = λ b s. ok s;
}

abbrev directory_store : Store Directory
directory_store = record {
  get_content = λ i s. ok none;
  update_content = λ c s. ok s;
  save_content = λ c s. ok s;
  list_by_media_id = λ i s. ok [];
  get_media = λ i s. ok none;
  get_media_by_key = λ k s. ok none;
  list_processing_updated_before = λ t n s. ok [];
  update_media = λ m s. ok s;
  store_events = λ es s. ok s;
  commit = λ s. ok s;
}

abbrev save_none : Campaign → Directory → Result Directory
save_none d s = ok s

abbrev Kept : Type 0
Kept = KeepsAccounts directory_store directory save_none

users_kept :
    {s t : Directory}
    → WritesClient directory_store directory save_none s t
    → (i : Uuid) → directory.get_user i t ≡ directory.get_user i s
users_kept (saves_client c e) i = ground arith
users_kept (updates_client c e) i = ground arith

clients_kept :
    {s t : Directory}
    → WritesUser directory_store directory save_none s t
    → (i : Uuid) → directory.get_client i t ≡ directory.get_client i s
clients_kept (saves_user u e) i = ground arith
clients_kept (updates_user u e) i = ground arith

out_of-id : (k : Uuid) (u : User) → (out_of k u).id ≡ u.id
out_of-id k u = ground arith

out_of-current :
    (k : Uuid) (u : User)
    → ((out_of k u).current_client_id ≡ none)
      ⊎ ((out_of k u).current_client_id ≡ u.current_client_id)
out_of-current k u = elim (Bool-cases (is_current k u.current_client_id)) [
  | inl e ↦ inl (rw e refl)
  | inr e ↦ inr (rw e refl)
]

abbrev Deletion : Directory → Directory → Type 0
Deletion = Deletes directory_store directory save_none

users_left :
    {s t : Directory}
    → Deletion s t
    → (i : Uuid) {u : User} → directory.get_user i t ≡ ok (some u)
    → (v : User) × (directory.get_user i s ≡ ok (some v))
      × ((u.current_client_id ≡ none) ⊎ (u.current_client_id ≡ v.current_client_id))
users_left {s} (deletes_client k e) i {u} h =
    let (v, p, q) =
      find_row-map user_id_of (out_of k) (out_of-id k) i s.users {b = u} (ground (arith, e, h)) in
    (v, rw p refl, rw q (out_of-current k v))
users_left {s} (deletes_user k e) i {u} h =
    let (n, p) = find_row-kept user_id_of i k s.users {a = u} (ground (arith, e, h)) in
    (u, rw p refl, inr refl)

members_left :
    {s t : Directory}
    → Deletion s t
    → (i k : Uuid) {u : User} {c : Client} → directory.get_user i t ≡ ok (some u)
    → directory.get_client k t ≡ ok (some c)
    → (d : Client) × (directory.get_client k s ≡ ok (some d))
      × (is_member i c.member_ids ≡ is_member i d.member_ids)
members_left {s} (deletes_client j e) i k {u} {c} h g =
    let (n, p) = find_row-kept client_id_of k j s.clients {a = c} (ground (arith, e, g)) in
    (c, rw p refl, refl)
members_left {s} (deletes_user j e) i k {u} {c} h g =
    let (n, p) = find_row-kept user_id_of i j s.users {a = u} (ground (arith, e, h)) in
    let (d, q, r) =
      find_row-map client_id_of (without_member j) (λ c. refl) k s.clients {b = c}
        (ground (arith, e, g)) in
    (d, rw q refl, rw r (is_member-kept i j d.member_ids n))

same : {s t : Directory} → WritesOther directory_store directory save_none s t → t ≡ s
same (stores es e) = ground arith
same (commits e) = ground arith
same (saves_campaign d e) = ground arith
same (saves_workspace w e) = ground arith
same (saves_subscription b e) = ground arith

directory-KeepsAccounts : Kept
directory-KeepsAccounts = record {
  id_of_client = λ {i} {s} {c} h. find_row-id client_id_of i s.clients {a = c} (ground arith);
  id_of_user = λ {i} {s} {u} h. find_row-id user_id_of i s.users {a = u} (ground arith);
  client_saved = λ {c} h. (record c { events = [] }, λ i. refl, λ i. ground arith);
  client_updated = λ {c} h. (record c { events = [] }, λ i. refl, λ i. ground arith);
  user_saved = λ {u} h. (record u { events = [] }, refl, λ i. ground arith);
  user_updated = λ {u} h. (record u { events = [] }, refl, λ i. ground arith);
  users_left = users_left;
  members_left = members_left;
  users_kept = users_kept;
  clients_kept = clients_kept;
  users_kept_by_other = λ w i. rw (same w) refl;
  clients_kept_by_other = λ w i. rw (same w) refl;
}

abbrev client_of : Uuid → List Uuid → Client
client_of i members = record {
  id = i;
  name = codes "c";
  workspace_id = 9;
  created_at = 100;
  updated_at = 100;
  member_ids = members;
  events = [];
}

abbrev user_of : Uuid → Option Uuid → User
user_of i current = record {
  id = i;
  clerk_id = codes "k";
  first_name = codes "f";
  last_name = codes "l";
  banned = false;
  email = codes "e";
  current_client_id = current;
  created_at = 100;
  updated_at = 100;
  events = [];
}

abbrev small : Directory
small = record {
  clients = client_of 1 (11 ∷ []) ∷ [];
  users = user_of 11 none ∷ user_of 12 none ∷ [];
}

abbrev Change : Type 0
Change = Command directory_store directory save_none

-- User 12 joins the client of user 11, enters it, and is removed from it.
abbrev visit : List Change
visit =
    adding_member none 1 12 11 101 21
    ∷ setting_current_client 12 1 102 22
    ∷ removing_member 1 12 103 23 24
    ∷ []

small-IsConsistent : IsConsistent directory_store directory save_none small
small-IsConsistent i k u c p q r = ground arith

perform_all-IsConsistent_example :
    IsConsistent directory_store directory save_none
      (perform_all directory_store directory save_none visit small)
perform_all-IsConsistent_example =
    perform_all-IsConsistent directory_store directory save_none directory-KeepsAccounts visit small
      (tt, (tt, (tt, tt))) small-IsConsistent

abbrev visitor : Directory → Option Uuid
visitor s = elim (find_row user_id_of 12 s.users) [ none ↦ some 99 | some u ↦ u.current_client_id ]

-- An update with a user that was loaded before the removal lets them back in.
abbrev stale_update : List Change
stale_update =
    adding_member none 1 12 11 101 21
    ∷ setting_current_client 12 1 102 22
    ∷ removing_member 1 12 103 23 24
    ∷ updating_user (user_of 12 (some 1)) (codes "f") (codes "l") [] false 104 25
    ∷ []

visitor_leaves : visitor (perform_all directory_store directory save_none visit small) ≡ none
unfolding perform_all add_client_member add_found_member add_new_member get_client get_user
    update_client_with add_member handle_set_current_client enter_as_member set_current_client
    update_user_with remove_client_member remove_found_member remove_member clear_if_current
    clear_current_client with_transaction change_client without_first
visitor_leaves = refl

stale_visitor_stays :
    visitor (perform_all directory_store directory save_none stale_update small) ≡ some 1
unfolding perform_all add_client_member add_found_member add_new_member get_client get_user
    update_client_with add_member handle_set_current_client enter_as_member set_current_client
    update_user_with remove_client_member remove_found_member remove_member clear_if_current
    clear_current_client with_transaction change_client without_first update_user apply_update
stale_visitor_stays = refl
