-- ===== src/Account/Access/Entering.antt =====
-- A user enters a client as a member of it.
use notai_api.Account.Access.{
  IsConsistent, IsConsistent-deletion, IsConsistent-other, IsConsistent-user, KeepsAccounts,
  deletes_user, stores, updates_user,
}
use notai_api.Account.Access.Commands.{client_transaction-Good, get_user-Runs, settled-Good}
use notai_api.Account.Client.{is_member}
use notai_api.Account.Members.{get_user, text_error, user_events}
use notai_api.Account.Ports.{Accounts}
use notai_api.Account.Types.{Client, User}
use notai_api.Account.User.{set_current_client}
use notai_api.Account.Users.{
  delete_found_user, delete_user_by_external_id, enter_as_member, get_user_by_external_id,
  handle_set_current_client, update_user_with,
}
use notai_api.Base.{
  ==_iff, Bool-cases, Option, Option-cases, arith, inl, inr, none, not, some, subst, true, ◌==◌,
  ◌||◌, ◌∙◌, ◌≡◌,
}
use notai_api.Base.Text.{Text}
use notai_api.Base.Values.{Time, Uuid, uuid_nil}
use notai_api.Campaign.Types.{Campaign}
use notai_api.Database.{Store, fail_with, ret, with_transaction}
use notai_api.Database.Runs.{
  Runs, and_then-Runs, chosen-Runs, end-of, fails-not, reported-Runs, write-Runs,
}
use notai_api.Errors.{Err, Result, ok}

entered :
    (client : Uuid) (now : Time) (eid : Uuid) (u : User)
    → ((set_current_client client now eid u).0.current_client_id ≡ some client)
      × ((set_current_client client now eid u).0.id ≡ u.id)
unfolding set_current_client
entered client now eid u = elim (Option-cases u.current_client_id) [
  | inl e ↦ ground arith
  | inr (k, e) ↦ ground (arith, ==_iff k client)
]

module _ {S : Type 0} (store : Store S) (accounts : Accounts S)
    (save_campaign : Campaign → S → Result S)
    (law : KeepsAccounts store accounts save_campaign) where
  abbrev pub Good : S → Type 0
  Good = IsConsistent store accounts save_campaign

  pub entered-Good :
      (client : Uuid) (now : Time) (eid : Uuid) (u : User) (c : Client) {s t : S}
      → accounts.get_client client s ≡ ok (some c)
      → is_member u.id c.member_ids ≡ true
      → accounts.update_user (set_current_client client now eid u).0 s ≡ ok t
      → Good s
      → Good t
  entered-Good client now eid u c {s} f m w g =
      let u' = (set_current_client client now eid u).0 in
      let (current', id') = entered client now eid u in
      IsConsistent-user store accounts save_campaign u' (law.clients_kept (updates_user u' w))
        (law.user_updated w)
        (λ k d p q.
          let e : k ≡ client = ground (arith, current', q) in
          let p' = subst (λ j. accounts.get_client j s ≡ ok (some d)) e p in
          let n : d.member_ids ≡ c.member_ids = ground (arith, p', f) in rw (n, id') m)
        (λ i k e. g i k)

  pub update_user_with-Runs :
      (e : Err) (u : User) {x : Unit {0}} {s t : S}
      → Runs (update_user_with store accounts e u) s x t
      → (v : S) × (accounts.update_user u s ≡ ok v)
        × (store.store_events (user_events store accounts u) v ≡ ok t)
  unfolding update_user_with
  update_user_with-Runs e u h =
      let (x, v, p, q) = and_then-Runs _ _ h in
      (
        v,
        write-Runs (accounts.update_user u) (reported-Runs e _ p),
        write-Runs (store.store_events _) q,
      )

  enter_as_member-Good :
      (user client : Uuid) (now : Time) (eid : Uuid) (c : Client) {x : Unit {0}} {s t : S}
      → accounts.get_client client s ≡ ok (some c)
      → Runs (enter_as_member store accounts user client now eid c) s x t
      → Good s
      → Good t
  unfolding enter_as_member
  enter_as_member-Good user client now eid c {x} {s} {t} f h g =
      elim (chosen-Runs (not (is_member user c.member_ids)) (fail_with _) _ {s = s} {a = x} {t = t}
        h) [
          | inl (m, r) ↦ absurd (fails-not r)
          | inr (m, r) ↦
              let (u, v, p, q) = and_then-Runs (get_user store accounts user s) _ r in
              let (o, e) = get_user-Runs store accounts save_campaign law user p in
              elim (chosen-Runs (not (set_current_client client now eid u).1) (ret tt) _ {s = v}
                {a = x} {t = t} q) [
                  | inl (n, r') ↦ subst Good (e ∙ end-of r') g
                  | inr (n, r') ↦
                      let (y, w, es) = update_user_with-Runs _ _ r' in
                      let i = law.id_of_user o in
                      let m' : is_member user c.member_ids ≡ true = ground (arith, m) in
                      IsConsistent-other store accounts save_campaign law (stores _ es) (
                        entered-Good client now eid u c
                          (subst (λ z. accounts.get_client client z ≡ ok (some c)) e f) (rw i m') w
                          (subst Good e g))
                ]
        ]

  pub set_current_client-Good :
      (user client : Uuid) (now : Time) (eid : Uuid) (s : S)
      → Good s
      → Good (handle_set_current_client store accounts user client now eid s).1
  unfolding handle_set_current_client
  set_current_client-Good user client now eid s g =
      elim (Bool-cases (user == uuid_nil || client == uuid_nil)) [
        | inl e ↦ rw e g
        | inr e ↦ rw e (
            client_transaction-Good store accounts save_campaign law client _ s g
              (λ c x t f h. enter_as_member-Good user client now eid c f h g))
      ]

  delete_found_user-Good :
      (now : Time) (eid : Uuid) (o : Option User) {x : Unit {0}} {s t : S}
      → Runs (delete_found_user store accounts now eid o) s x t
      → Good s
      → Good t
  unfolding delete_found_user
  delete_found_user-Good now eid none h g = subst Good (end-of h) g
  delete_found_user-Good now eid (some u) h g =
      let (x, t, p, q) = and_then-Runs _ _ h in
      let w =
        write-Runs (accounts.delete_user u.id)
          (reported-Runs (text_error "failed to delete user by external ID") _ p) in
      IsConsistent-other store accounts save_campaign law
        (stores _ (write-Runs (store.store_events _) q))
        (IsConsistent-deletion store accounts save_campaign law (deletes_user u.id w) g)

  pub delete_user-Good :
      (external_id : Text) (now : Time) (eid : Uuid) (s : S)
      → Good s
      → Good (delete_user_by_external_id store accounts external_id now eid s).1
  unfolding delete_user_by_external_id with_transaction get_user_by_external_id
  delete_user-Good external_id now eid s g =
      settled-Good store accounts save_campaign law _ s g (λ x t h.
        let (o, u, p, q) = and_then-Runs _ (delete_found_user store accounts now eid) h in
        let r =
          reported-Runs (text_error "failed to get user by external ID")
            (accounts.get_user_by_clerk_id external_id s, s) p in
        delete_found_user-Good now eid o q (subst Good (end-of r) g))
