-- ===== src/Account/Access/Commands.antt =====
-- The commands let nobody into a client that they are not a member of.
use Prim.Native.String.{String}
use notai_api.Account.Access.{
  IsConsistent, IsConsistent-client, IsConsistent-deletion, IsConsistent-other, KeepsAccounts,
  commits, deletes_client, stores, updates_client,
}
use notai_api.Account.Access.Leaving.{remove_found_member-Good}
use notai_api.Account.Access.Roster.{add_member-id, add_member-keeps}
use notai_api.Account.Client.{add_member, apply_update, is_member}
use notai_api.Account.Members.{
  add_client_member, add_found_member, add_new_member, client_events, delete_client,
  delete_found_client, get_client, get_user, remove_client_member, required, text_error,
  update_client, update_client_with,
}
use notai_api.Account.Ports.{Accounts}
use notai_api.Account.Types.{Client, User}
use notai_api.Analysis.Handler.{asserted}
use notai_api.Base.{
  Bool-cases, Option, Option-cases, ap, arith, inl, inr, is_empty, none, not, some, subst, true, ℕ,
  ◌==◌, ◌||◌, ◌∙◌, ◌≡◌,
}
use notai_api.Base.Text.{Text}
use notai_api.Base.Values.{Time, Uuid, uuid_nil}
use notai_api.Campaign.Types.{Campaign}
use notai_api.Database.{M, Store, fail_with, ret, settled, with_transaction, ◌>>=◌}
use notai_api.Database.Runs.{
  Runs, and_then-Runs, chosen-Runs, end-of, fails-not, reported-Runs, settled-cases, write-Runs,
}
use notai_api.Errors.{Err, Result, ok}

pub required-Runs :
    {S A : Type 0} (e : Err) (o : Option A) {a : A} {s t : S}
    → Runs (required e o) s a t
    → (o ≡ some a) × (s ≡ t)
required-Runs e none h = ground arith
required-Runs e (some b) h = ground arith

module _ {S : Type 0} (store : Store S) (accounts : Accounts S)
    (save_campaign : Campaign → S → Result S)
    (law : KeepsAccounts store accounts save_campaign) where
  abbrev pub Good : S → Type 0
  Good = IsConsistent store accounts save_campaign

  -- A transaction whose body is right where it succeeds.
  pub settled-Good :
      {A : Type 0} (r : Result A × S) (s : S)
      → Good s
      → ((a : A) (t : S) → r ≡ (ok a, t) → Good t)
      → Good (settled store.commit r s).1
  settled-Good r s h k = elim (settled-cases store.commit r s) [
    | inl e ↦ rw e h
    | inr (a, t, u, p, q, e) ↦
        rw e (IsConsistent-other store accounts save_campaign law (commits q) (k a t p))
  ]

  pub get_client-Runs :
      (id : Uuid) {c : Client} {s t : S}
      → Runs (get_client store accounts id) s c t
      → (accounts.get_client id s ≡ ok (some c)) × (s ≡ t)
  unfolding get_client
  get_client-Runs id {c} {s} h =
      let (o, u, p, q) = and_then-Runs _ (required (text_error "client not found")) h in
      let (e, f) = required-Runs (text_error "client not found") o q in
      let g = reported-Runs (text_error "failed to get client") (accounts.get_client id s, s) p in
      ground (arith, g, e, f)

  pub get_user-Runs :
      (id : Uuid) {u : User} {s t : S}
      → Runs (get_user store accounts id) s u t
      → (accounts.get_user id s ≡ ok (some u)) × (s ≡ t)
  unfolding get_user
  get_user-Runs id {u} {s} h =
      let (o, t, p, q) = and_then-Runs _ (required (text_error "user not found")) h in
      let (e, f) = required-Runs (text_error "user not found") o q in
      let g = reported-Runs (text_error "failed to get user") (accounts.get_user id s, s) p in
      ground (arith, g, e, f)

  -- A client is updated that all whose current one it is are members of.
  update_client_with-Good :
      (message : String) (c : Client) {x : Unit {0}} {s t : S}
      → Runs (update_client_with store accounts message c) s x t
      → Good s
      → ((i : Uuid) (u : User)
          → accounts.get_user i s ≡ ok (some u)
          → u.current_client_id ≡ some c.id
          → is_member i c.member_ids ≡ true)
      → Good t
  unfolding update_client_with
  update_client_with-Good message c {s = s} h g all =
      let (a, t, p, q) = and_then-Runs _ _ h in
      let w = write-Runs (accounts.update_client c) (reported-Runs (text_error message) _ p) in
      let v = write-Runs (store.store_events (client_events store accounts c)) q in
      IsConsistent-other store accounts save_campaign law (stores _ v) (
        IsConsistent-client store accounts save_campaign c (law.users_kept (updates_client c w))
          (law.client_updated w) all g)

  -- Those who are in a client that is found are members of it.
  pub found-members :
      (id : Uuid) (c : Client) {s : S}
      → accounts.get_client id s ≡ ok (some c)
      → Good s
      → (i : Uuid) (u : User) → accounts.get_user i s ≡ ok (some u)
      → u.current_client_id ≡ some c.id
      → is_member i c.member_ids ≡ true
  found-members id c f g i u p q = g i id u c p (q ∙ ap (λ (n : ℕ). some n) (law.id_of_client f)) f

  updated-Good :
      (id : Uuid) (name : Text) (now : Time) (eid : Uuid) (c : Client) {x : Unit {0}} {s t : S}
      → accounts.get_client id s ≡ ok (some c)
      → Runs
          (update_client_with store accounts "failed to update client"
            (apply_update name now eid c))
          s
          x
          t
      → Good s
      → Good t
  unfolding apply_update
  updated-Good id name now eid c f h g =
      update_client_with-Good "failed to update client" _ h g (found-members id c f g)

  -- A transaction that starts with a client.
  pub client_transaction-Good :
      {A : Type 0} (id : Uuid) (f : Client → M S A) (s : S)
      → Good s
      → ((c : Client) (a : A) (t : S)
          → accounts.get_client id s ≡ ok (some c)
          → Runs (f c) s a t
          → Good t)
      → Good (with_transaction store.commit (get_client store accounts id >>= f) s).1
  unfolding with_transaction
  client_transaction-Good id f s g k = settled-Good _ s g (λ a t h.
      let (c, u, p, q) = and_then-Runs (get_client store accounts id s) f h in
      let (e, e') = get_client-Runs id p in k c a t e (rw e' q))

  pub update_client-Good :
      (id : Uuid) (name : Text) (now : Time) (eid : Uuid) (s : S)
      → Good s
      → Good (update_client store accounts id name now eid s).1
  unfolding update_client
  update_client-Good id name now eid s g = elim (Bool-cases (is_empty name)) [
    | inl e ↦ rw e g
    | inr e ↦
        rw e (client_transaction-Good id _ s g (λ c x t f h. updated-Good id name now eid c f h g))
  ]

  delete_found_client-Good :
      (now : Time) (eid : Uuid) (o : Option Client) {x : Unit {0}} {s t : S}
      → Runs (delete_found_client store accounts now eid o) s x t
      → Good s
      → Good t
  unfolding delete_found_client
  delete_found_client-Good now eid none h g =
      subst Good (ap (λ (r : Result (Unit {0}) × S). r.1) h) g
  delete_found_client-Good now eid (some c) h g =
      let (x, t, p, q) = and_then-Runs _ _ h in
      let w =
        write-Runs (accounts.delete_client c.id)
          (reported-Runs (text_error "failed to delete client") _ p) in
      IsConsistent-other store accounts save_campaign law
        (stores _ (write-Runs (store.store_events _) q))
        (IsConsistent-deletion store accounts save_campaign law (deletes_client c.id w) g)

  pub delete_client-Good :
      (id : Uuid) (now : Time) (eid : Uuid) (s : S)
      → Good s
      → Good (delete_client store accounts id now eid s).1
  unfolding delete_client with_transaction
  delete_client-Good id now eid s g = settled-Good _ s g (λ x t h.
      let (o, u, p, q) = and_then-Runs _ (delete_found_client store accounts now eid) h in
      let r = reported-Runs (text_error "failed to get client") (accounts.get_client id s, s) p in
      delete_found_client-Good now eid o (rw (ap (λ (r : Result (Option Client) × S). r.1) r) q) g)

  -- A member is added: who was a member stays one.
  added-Good :
      (id user : Uuid) (now : Time) (eid : Uuid) (c : Client) {x : Unit {0}} {s t : S}
      → accounts.get_client id s ≡ ok (some c)
      → Runs
          (update_client_with store accounts "failed to add client member"
            (add_member user now eid c).0)
          s
          x
          t
      → Good s
      → Good t
  added-Good id user now eid c f h g =
      update_client_with-Good "failed to add client member" _ h g (λ i u p q.
        add_member-keeps i user now eid c (
          found-members id c f g i u p (q ∙ ap (λ (n : ℕ). some n) (add_member-id user now eid c))))

  asserted-Runs :
      (quota : Option (Uuid → S → Option Err)) (client : Uuid) {x : Unit {0}} {s t : S}
      → Runs (asserted store quota client) s x t
      → s ≡ t
  asserted-Runs none client h = ap (λ (r : Result (Unit {0}) × S). r.1) h
  asserted-Runs (some assert) client {s = s} h = elim (Option-cases (assert client s)) [
    | inl p ↦ ground arith
    | inr (e, p) ↦ ground arith
  ]

  add_new_member-Good :
      (quota : Option (Uuid → S → Option Err)) (id user : Uuid) (now : Time) (eid : Uuid)
      (c : Client) {x : Unit {0}} {s t : S}
      → accounts.get_client id s ≡ ok (some c)
      → Runs (add_new_member store accounts quota id user now eid c) s x t
      → Good s
      → Good t
  unfolding add_new_member
  add_new_member-Good quota id user now eid c f h g =
      let (x, u, p, q) = and_then-Runs _ _ h in
      let e = asserted-Runs quota id p in
      elim (chosen-Runs (not (add_member user now eid c).1) (ret tt) _ q) [
        | inl (m, r) ↦ subst Good (e ∙ end-of r) g
        | inr (m, r) ↦
            added-Good id user now eid c (subst (λ v. accounts.get_client id v ≡ ok (some c)) e f) r
              (subst Good e g)
      ]

  add_found_member-Good :
      (quota : Option (Uuid → S → Option Err)) (id user actor : Uuid) (now : Time) (eid : Uuid)
      (c : Client) {x : Unit {0}} {s t : S}
      → accounts.get_client id s ≡ ok (some c)
      → Runs (add_found_member store accounts quota id user actor now eid c) s x t
      → Good s
      → Good t
  unfolding add_found_member
  add_found_member-Good quota id user actor now eid c {x} {s} {t} f h g =
      elim (chosen-Runs (not (is_member actor c.member_ids)) (fail_with _) _ {s = s} {a = x} {t = t}
        h) [
          | inl (m, r) ↦ absurd (fails-not r)
          | inr (m, r) ↦
              let (u, v, p, q) = and_then-Runs (get_user store accounts user s) _ r in
              let (o, e) = get_user-Runs user p in
              elim (chosen-Runs (is_member user c.member_ids) (ret tt) _ {s = v} {a = x} {t = t}
                q) [
                  | inl (n, r') ↦ subst Good (e ∙ end-of r') g
                  | inr (n, r') ↦
                      add_new_member-Good quota id user now eid c
                        (subst (λ w. accounts.get_client id w ≡ ok (some c)) e f) r'
                        (subst Good e g)
                ]
        ]

  pub add_client_member-Good :
      (quota : Option (Uuid → S → Option Err)) (id user actor : Uuid) (now : Time) (eid : Uuid)
      (s : S)
      → Good s
      → Good (add_client_member store accounts quota id user actor now eid s).1
  unfolding add_client_member
  add_client_member-Good quota id user actor now eid s g =
      elim (Bool-cases (id == uuid_nil || user == uuid_nil || actor == uuid_nil)) [
        | inl e ↦ rw e g
        | inr e ↦ rw e (
            client_transaction-Good id _ s g
              (λ c x t f h. add_found_member-Good quota id user actor now eid c f h g))
      ]

  pub remove_client_member-Good :
      (client user : Uuid) (now : Time) (eid1 eid2 : Uuid) (s : S)
      → Good s
      → Good (remove_client_member store accounts client user now eid1 eid2 s).1
  unfolding remove_client_member
  remove_client_member-Good client user now eid1 eid2 s g =
      client_transaction-Good client _ s g (λ c x t f h.
        remove_found_member-Good store accounts save_campaign law client user now eid1 eid2 c f h g)
