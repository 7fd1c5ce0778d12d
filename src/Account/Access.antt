-- ===== src/Account/Access.antt =====
-- Who may be in which client: what the database promises, and what has to hold of it.
pub mod Roster
pub mod Leaving
pub mod Commands
pub mod Entering
pub mod Creating
pub mod Sequences
use notai_api.Account.Client.{is_member}
use notai_api.Account.Members.{delete_client, get_client, get_user, update_client}
use notai_api.Account.Ports.{Accounts}
use notai_api.Account.Types.{
  Client, User, client_deleted, client_updated, user_deleted, user_updated,
}
use notai_api.Account.Users.{update_user}
use notai_api.Base.{
  ==_iff, Bool-cases, List, Option, [], ap, arith, false, if◌then◌else◌, inl, inr, none, refl, some,
  sym, true, ℕ, ◌==◌, ◌∙◌, ◌≡◌, ◌≢◌, ◌⊎◌,
}
use notai_api.Base.Values.{Uuid}
use notai_api.Billing.Subscription.{Subscription}
use notai_api.Billing.Workspace.{Workspace}
use notai_api.Campaign.Commands.{save_campaign}
use notai_api.Campaign.Types.{Campaign}
use notai_api.Database.{DomainEvent, Store}
use notai_api.Errors.{Result, ok}
use notai_api.Messaging.Relay.{store_events}

-- What is read under an id once a row of that id is written.
abbrev pub written_at :
    {A : Type 0} → Uuid → Uuid → Option A → Result (Option A) → Result (Option A)
written_at i id row before = if i == id then ok row else before

pub written_at-hit :
    {A : Type 0} {x : Result (Option A)} (row : Option A) (b : Result (Option A)) (i id : Uuid)
    → x ≡ written_at i id row b
    → (i == id) ≡ true
    → x ≡ ok row
written_at-hit row b i id h e = h ∙ rw e refl

pub written_at-miss :
    {A : Type 0} {x : Result (Option A)} (row : Option A) (b : Result (Option A)) (i id : Uuid)
    → x ≡ written_at i id row b
    → (i == id) ≡ false
    → x ≡ b
written_at-miss row b i id h e = h ∙ rw e refl

module _ {S : Type 0} (store : Store S) (accounts : Accounts S)
    (save_campaign : Campaign → S → Result S) where
  pub data WritesClient : S → S → Type 0 where
    saves_client : {s t : S} (c : Client) → accounts.save_client c s ≡ ok t → WritesClient s t
    updates_client : {s t : S} (c : Client) → accounts.update_client c s ≡ ok t → WritesClient s t

  pub data WritesUser : S → S → Type 0 where
    saves_user : {s t : S} (u : User) → accounts.save_user u s ≡ ok t → WritesUser s t
    updates_user : {s t : S} (u : User) → accounts.update_user u s ≡ ok t → WritesUser s t

  pub data Deletes : S → S → Type 0 where
    deletes_client : {s t : S} (k : Uuid) → accounts.delete_client k s ≡ ok t → Deletes s t
    deletes_user : {s t : S} (k : Uuid) → accounts.delete_user k s ≡ ok t → Deletes s t

  pub data WritesOther : S → S → Type 0 where
    stores : {s t : S} (es : List DomainEvent) → store.store_events es s ≡ ok t → WritesOther s t
    commits : {s t : S} → store.commit s ≡ ok t → WritesOther s t
    saves_campaign : {s t : S} (d : Campaign) → save_campaign d s ≡ ok t → WritesOther s t
    saves_workspace :
        {s t : S} (w : Workspace) → accounts.save_workspace w s ≡ ok t → WritesOther s t
    saves_subscription :
        {s t : S} (b : Subscription) → accounts.save_subscription b s ≡ ok t → WritesOther s t

  abbrev pub SameUsers : S → S → Type 0
  SameUsers s t = (i : Uuid) → accounts.get_user i t ≡ accounts.get_user i s

  abbrev pub SameClients : S → S → Type 0
  SameClients s t = (i : Uuid) → accounts.get_client i t ≡ accounts.get_client i s

  -- The rows of a client and of a user, as they are read once these are written. The order of the
  -- members and the time of change may be other ones.
  abbrev pub WroteClient : Client → S → S → Type 0
  WroteClient c s t =
      (d : Client) × ((i : Uuid) → is_member i d.member_ids ≡ is_member i c.member_ids)
      × ((i : Uuid)
          → accounts.get_client i t ≡ written_at i c.id (some d) (accounts.get_client i s))

  abbrev pub WroteUser : User → S → S → Type 0
  WroteUser u s t =
      (v : User) × (v.current_client_id ≡ u.current_client_id)
      × ((i : Uuid) → accounts.get_user i t ≡ written_at i u.id (some v) (accounts.get_user i s))

  -- A row is found by its id, and a write is seen, and nothing else changes the clients and the users,
  -- but a deletion, which may take away more than one row: with a user go their memberships, their
  -- workspaces and the clients of these (ON DELETE CASCADE), and who is in a client that goes is in none
  -- (ON DELETE SET NULL). The users that are left are in the client that they were in or in none, and
  -- for them the clients that are left have the members that they had.
  pub record KeepsAccounts : Type 0 where
    pub id_of_client :
        {i : Uuid} {s : S} {c : Client} → accounts.get_client i s ≡ ok (some c) → c.id ≡ i
    pub id_of_user : {i : Uuid} {s : S} {u : User} → accounts.get_user i s ≡ ok (some u) → u.id ≡ i
    pub client_saved : {c : Client} {s t : S} → accounts.save_client c s ≡ ok t → WroteClient c s t
    pub client_updated :
        {c : Client} {s t : S} → accounts.update_client c s ≡ ok t → WroteClient c s t
    pub user_saved : {u : User} {s t : S} → accounts.save_user u s ≡ ok t → WroteUser u s t
    pub user_updated : {u : User} {s t : S} → accounts.update_user u s ≡ ok t → WroteUser u s t
    pub users_left :
        {s t : S}
        → Deletes s t
        → (i : Uuid) {u : User} → accounts.get_user i t ≡ ok (some u)
        → (v : User) × (accounts.get_user i s ≡ ok (some v))
          × ((u.current_client_id ≡ none) ⊎ (u.current_client_id ≡ v.current_client_id))
    pub members_left :
        {s t : S}
        → Deletes s t
        → (i k : Uuid) {u : User} {c : Client} → accounts.get_user i t ≡ ok (some u)
        → accounts.get_client k t ≡ ok (some c)
        → (d : Client) × (accounts.get_client k s ≡ ok (some d))
          × (is_member i c.member_ids ≡ is_member i d.member_ids)
    pub users_kept : {s t : S} → WritesClient s t → SameUsers s t
    pub clients_kept : {s t : S} → WritesUser s t → SameClients s t
    pub users_kept_by_other : {s t : S} → WritesOther s t → SameUsers s t
    pub clients_kept_by_other : {s t : S} → WritesOther s t → SameClients s t

  -- The user is a member of the client that is their current one, if both are there.
  abbrev pub MayEnter : Uuid → Uuid → S → Type 0
  MayEnter i k s =
      (u : User) (c : Client)
      → accounts.get_user i s ≡ ok (some u)
      → u.current_client_id ≡ some k
      → accounts.get_client k s ≡ ok (some c)
      → is_member i c.member_ids ≡ true

  -- Nobody is in a client that they are not a member of.
  abbrev pub IsConsistent : S → Type 0
  IsConsistent s = (i k : Uuid) → MayEnter i k s

  pub MayEnter-same :
      {s t : S} (i k : Uuid)
      → accounts.get_user i t ≡ accounts.get_user i s
      → accounts.get_client k t ≡ accounts.get_client k s
      → MayEnter i k s
      → MayEnter i k t
  MayEnter-same i k p q h u c a b d = h u c (sym p ∙ a) b (sym q ∙ d)

  pub IsConsistent-other :
      {s t : S} (law : KeepsAccounts) → WritesOther s t → IsConsistent s → IsConsistent t
  IsConsistent-other law w h i k =
      MayEnter-same i k (law.users_kept_by_other w i) (law.clients_kept_by_other w k) (h i k)

  -- A client is written that the user, if it is their current one, is a member of.
  pub MayEnter-client :
      {s t : S} (c : Client) (i k : Uuid)
      → accounts.get_user i t ≡ accounts.get_user i s
      → WroteClient c s t
      → ((u : User)
          → accounts.get_user i s ≡ ok (some u)
          → u.current_client_id ≡ some c.id
          → (k == c.id) ≡ true
          → is_member i c.member_ids ≡ true)
      → MayEnter i k s
      → MayEnter i k t
  MayEnter-client {s} {t} c i k user (e, reads, wrote) all h u d p q r =
      elim (Bool-cases (k == c.id)) [
        | inl b ↦
            let k' = (==_iff k c.id).0 b in
            let d' = written_at-hit _ _ k c.id (wrote k) b in
            let m : d.member_ids ≡ e.member_ids = ground (arith, r, d') in
            rw m (reads i ∙ all u (sym user ∙ p) (q ∙ ap (λ (n : ℕ). some n) k') b)
        | inr b ↦ h u d (sym user ∙ p) q (sym (written_at-miss _ _ k c.id (wrote k) b) ∙ r)
      ]

  -- A client is written that all whose current one it is are members of.
  pub IsConsistent-client :
      {s t : S} (c : Client)
      → SameUsers s t
      → WroteClient c s t
      → ((i : Uuid) (u : User)
          → accounts.get_user i s ≡ ok (some u)
          → u.current_client_id ≡ some c.id
          → is_member i c.member_ids ≡ true)
      → IsConsistent s
      → IsConsistent t
  IsConsistent-client c users wrote all h i k =
      MayEnter-client c i k (users i) wrote (λ u p q e. all i u p q) (h i k)

  -- A user is written who is a member of the client that is their current one.
  pub IsConsistent-user :
      {s t : S} (u : User)
      → SameClients s t
      → WroteUser u s t
      → ((k : Uuid) (c : Client)
          → accounts.get_client k s ≡ ok (some c)
          → u.current_client_id ≡ some k
          → is_member u.id c.member_ids ≡ true)
      → ((i k : Uuid) → (i == u.id) ≡ false → MayEnter i k s)
      → IsConsistent t
  IsConsistent-user {s} {t} u clients (w, reads, wrote) all h i k v c p q r =
      elim (Bool-cases (i == u.id)) [
        | inl e ↦
            let i' = (==_iff i u.id).0 e in
            let v' = written_at-hit _ _ i u.id (wrote i) e in
            let m : v.current_client_id ≡ u.current_client_id = ground (arith, p, v', reads) in
            rw i' (all k c (sym (clients k) ∙ r) (sym m ∙ q))
        | inr e ↦
            h i k e v c (sym (written_at-miss _ _ i u.id (wrote i) e) ∙ p) q (sym (clients k) ∙ r)
      ]

  -- Rows are taken away.
  pub IsConsistent-deletion :
      {s t : S} (law : KeepsAccounts) → Deletes s t → IsConsistent s → IsConsistent t
  IsConsistent-deletion law w h i k u c p q r =
      let (v, p', e) = law.users_left w i p in
      let (d, r', m) = law.members_left w i k p r in
      elim e [ inl n ↦ absurd (cc (n, q)) | inr n ↦ m ∙ h i k v d p' (sym n ∙ q) r' ]

  -- Nobody is in this client yet.
  abbrev pub IsUnused : Uuid → S → Type 0
  IsUnused k s =
      (i : Uuid) (u : User) → accounts.get_user i s ≡ ok (some u) → u.current_client_id ≢ some k
