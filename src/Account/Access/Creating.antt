-- ===== src/Account/Access/Creating.antt =====
-- The creator of a client is a member of it.
use notai_api.Account.Access.{
  IsConsistent, IsConsistent-client, IsConsistent-other, IsConsistent-user, IsUnused, KeepsAccounts,
  WritesOther, saves_campaign, saves_client, saves_subscription, saves_user, saves_workspace,
  stores, written_at-hit, written_at-miss,
}
use notai_api.Account.Access.Commands.{required-Runs, settled-Good}
use notai_api.Account.Access.Entering.{entered-Good}
use notai_api.Account.Access.Roster.{add_member-id, add_member-joins}
use notai_api.Account.Client.{add_member, is_member, new_client}
use notai_api.Account.Members.{
  create_client, create_error, enter_client, is_handed_on, make_client, required, text_error,
}
use notai_api.Account.Ports.{Accounts}
use notai_api.Account.Types.{Client, User}
use notai_api.Account.User.{new_user, set_current_client}
use notai_api.Account.Users.{create_user, get_free_plan, make_user, personal_client_name}
use notai_api.Base.{
  ==_refl, Bool, Bool-cases, Option, ap, arith, inl, inr, is_empty, none, refl, some, subst, sym,
  true, ℕ, ◌==◌, ◌∙◌, ◌≡◌,
}
use notai_api.Base.Text.{Text}
use notai_api.Base.Values.{Time, Uuid, uuid_nil}
use notai_api.Billing.Ledger.{free_plan_slug}
use notai_api.Billing.Subscription.{new_free_subscription}
use notai_api.Billing.Workspace.{assign_subscription, new_workspace}
use notai_api.Campaign.Types.{Campaign}
use notai_api.Database.{Store, ask, reported, settled, with_transaction}
use notai_api.Database.Runs.{Runs, and_then-Runs, end-of, reported-Runs, write-Runs}
use notai_api.Errors.{Err, Result, err, ok}

new_client-id :
    (name : Text) (workspace creator : Uuid) (now : Time) (id eid : Uuid)
    → (new_client name workspace creator now id eid).id ≡ id
unfolding new_client
new_client-id name workspace creator now id eid = refl

outsider :
    (clerk first last email : Text) (banned : Bool) (now : Time) (id eid : Uuid)
    → (new_user clerk first last email banned now id eid).current_client_id ≡ none
unfolding new_user
outsider clerk first last email banned now id eid = refl

module _ {S : Type 0} (store : Store S) (accounts : Accounts S)
    (save_campaign : Campaign → S → Result S)
    (law : KeepsAccounts store accounts save_campaign) where
  abbrev Good : S → Type 0
  Good = IsConsistent store accounts save_campaign

  -- The state once a client is made: it is there, with its members.
  abbrev Made : Client → S → Type 0
  Made c s =
      (d : Client) × ((i : Uuid) → is_member i d.member_ids ≡ is_member i c.member_ids)
      × (accounts.get_client c.id s ≡ ok (some d))

  saved-Good :
      (c : Client) {s t : S}
      → accounts.save_client c s ≡ ok t
      → IsUnused store accounts save_campaign c.id s
      → Good s
      → Good t × Made c t
  saved-Good c w unused g =
      let (d, reads, wrote) = law.client_saved w in
      (
        IsConsistent-client store accounts save_campaign c (law.users_kept (saves_client c w))
            (law.client_saved w) (λ i u p q. absurd (unused i u p q)) g,
        (d, reads, written_at-hit _ _ c.id c.id (wrote c.id) (==_refl c.id)),
      )

  enter_client-Good :
      (creator : Uuid) (c : Client) (now : Time) (eid : Uuid) {u : User} {s t : S}
      → Runs (enter_client store accounts creator c now eid) s u t
      → Made c s
      → is_member creator c.member_ids ≡ true
      → Good s
      → Good t
  unfolding enter_client
  enter_client-Good creator c now eid {s = s} h m j g =
      let (u, v, p, q) = and_then-Runs _ _ h in
      let (o, z, p', q') = and_then-Runs _ (required (text_error "creator user not found")) p in
      let r =
        reported-Runs (text_error "failed to get creator user") (accounts.get_user creator s, s)
          p' in
      let (e, f) = required-Runs _ o q' in
      let (y, a, b, d) = and_then-Runs _ _ q in
      let w =
        write-Runs (accounts.update_user (set_current_client c.id now eid u).0)
          (reported-Runs (text_error "failed to set current client") _ b) in
      let sv : s ≡ v = end-of r ∙ f in
      let found : accounts.get_user creator s ≡ ok (some u) =
        ap (λ (r : Result (Option User) × S). r.0) r ∙ ap (λ (n : Option User). ok n) e in
      let (c', reads, made) = subst (Made c) sv m in
      subst Good (end-of d) (
        entered-Good store accounts save_campaign law c.id now eid u c' made
          (reads u.id ∙ rw (law.id_of_user found) j) w (subst Good sv g))

  Made-other :
      (c : Client) {s t : S} → WritesOther store accounts save_campaign s t → Made c s → Made c t
  Made-other c w (d, reads, m) = (d, reads, law.clients_kept_by_other w c.id ∙ m)

  make_client-Good :
      (name : Text) (creator : Uuid) (now : Time) (new_id : ℕ → Uuid) {d : Client} {s t : S}
      → Runs (make_client store accounts save_campaign name creator now new_id) s d t
      → IsUnused store accounts save_campaign (new_id 0) s
      → Good s
      → Good t
  unfolding make_client
  make_client-Good name creator now new_id {s = s} h unused g =
      let (w, a, p, q) = and_then-Runs _ _ h in
      let (o, b, p1, p2) = and_then-Runs _ (required (text_error "workspace not found")) p in
      let r =
        reported-Runs (text_error "failed to get workspace")
          (accounts.get_workspace_by_owner creator s, s) p1 in
      let (e, f) = required-Runs _ o p2 in
      let sa : s ≡ a = end-of r ∙ f in
      let c0 = new_client name w.id creator now (new_id 0) (new_id 1) in
      let c = (add_member creator now (new_id 2) c0).0 in
      let (u, v3, q3, q4) = and_then-Runs _ _ q in
      let (x2, v2, q2, enter) = and_then-Runs _ _ q3 in
      let (x1, v1, save, campaign) = and_then-Runs _ _ q2 in
      let (x4, v4, store', end') = and_then-Runs _ _ q4 in
      let w1 = write-Runs (accounts.save_client c) save in
      let w2 = write-Runs (save_campaign _) campaign in
      let w4 = write-Runs (store.store_events _) store' in
      let unused' : IsUnused store accounts save_campaign c.id a =
        subst (λ z. IsUnused store accounts save_campaign c.id z) sa
          (subst (λ k. IsUnused store accounts save_campaign k s)
            (sym (
              add_member-id creator now (new_id 2) c0
              ∙ new_client-id name w.id creator now (new_id 0) (new_id 1)))
            unused) in
      let (g1, m1) = saved-Good c w1 unused' (subst Good sa g) in
      let g2 = IsConsistent-other store accounts save_campaign law (saves_campaign _ w2) g1 in
      let m2 = Made-other c (saves_campaign _ w2) m1 in
      let g3 =
        enter_client-Good creator c now (new_id 5) enter m2
          (add_member-joins creator now (new_id 2) c0) g2 in
      subst Good (end-of end')
        (IsConsistent-other store accounts save_campaign law (stores _ w4) g3)

  IsUnused-other :
      (k : Uuid) {s t : S}
      → WritesOther store accounts save_campaign s t
      → IsUnused store accounts save_campaign k s
      → IsUnused store accounts save_campaign k t
  IsUnused-other k w h i u p = h i u (sym (law.users_kept_by_other w i) ∙ p)

  -- A user who is in no client is saved.
  outsider-Good :
      (u : User) (k : Uuid) {s t : S}
      → u.current_client_id ≡ none
      → accounts.save_user u s ≡ ok t
      → IsUnused store accounts save_campaign k s
      → Good s
      → Good t × IsUnused store accounts save_campaign k t
  outsider-Good u k n w unused g = (
    IsConsistent-user store accounts save_campaign u (law.clients_kept (saves_user u w))
        (law.user_saved w) (λ j c p q. absurd (cc (n, q))) (λ i j e. g i j),
    λ i v p q. elim (Bool-cases (i == u.id)) [
      | inl e ↦
          let (y, reads, wrote) = law.user_saved w in
          let v' = written_at-hit _ _ i u.id (wrote i) e in
          let m : v.current_client_id ≡ u.current_client_id = ground (arith, p, v', reads) in
          cc (m, n, q)
      | inr e ↦ unused i v (sym (written_at-miss _ _ i u.id ((law.user_saved w).2 i) e) ∙ p) q
    ],
  )

  -- The client of a new user is made, and the user enters it.
  settle_in-Good :
      (u : User) (c : Client) (d : Campaign) (now : Time) (eid : Uuid) {s1 s2 s3 s4 : S}
      → accounts.save_client c s1 ≡ ok s2
      → save_campaign d s2 ≡ ok s3
      → accounts.update_user (set_current_client c.id now eid u).0 s3 ≡ ok s4
      → is_member u.id c.member_ids ≡ true
      → IsUnused store accounts save_campaign c.id s1
      → Good s1
      → Good s4
  settle_in-Good u c d now eid w1 w2 w3 m unused g =
      let (g1, m1) = saved-Good c w1 unused g in
      let o = saves_campaign d w2 in
      let (c', reads, found) = Made-other c o m1 in
      entered-Good store accounts save_campaign law c.id now eid u c' found (reads u.id ∙ m) w3
        (IsConsistent-other store accounts save_campaign law o g1)

  get_free_plan-Runs :
      {plan : Uuid} {s t : S} → Runs (get_free_plan store accounts) s plan t → s ≡ t
  unfolding get_free_plan
  get_free_plan-Runs {s = s} h =
      let r = reported-Runs (text_error "free plan not found") _ h in
      let (o, u, p, q) = and_then-Runs (ask (accounts.get_plan_by_slug free_plan_slug) s) _ r in
      end-of p ∙ (required-Runs _ o q).1

  other : {s t : S} → WritesOther store accounts save_campaign s t → Good s → Good t
  other w g = IsConsistent-other store accounts save_campaign law w g

  reported-Good : {A : Type 0} (e : Err) (r : Result A × S) → Good r.1 → Good (reported e r).1
  reported-Good e (err f, s) g = g
  reported-Good e (ok a, s) g = g

  create_error-Good :
      (text_of : Err → Text) (r : Result Client × S)
      → Good r.1
      → Good (create_error store accounts text_of r).1
  create_error-Good text_of (err e, s) g =
      elim (Bool-cases (is_handed_on store accounts (text_of e))) [
        | inl p ↦ rw (create_error, p) g
        | inr p ↦ rw (create_error, p) g
      ]
  create_error-Good text_of (ok c, s) g = g

  make_user-Good :
      (in_a_century : Time → Time) (first last : Text) (now : Time) (new_id : ℕ → Uuid) (u : User)
      {v : User} {s t : S}
      → Runs (make_user store accounts save_campaign in_a_century first last now new_id u) s v t
      → u.current_client_id ≡ none
      → IsUnused store accounts save_campaign (new_id 7) s
      → Good s
      → Good t
  unfolding make_user
  make_user-Good in_a_century first last now new_id u {s = s} h n unused g =
      let (plan, b, p, q) = and_then-Runs _ _ h in
      let (x0, a, save, free) = and_then-Runs _ _ p in
      let (x6, s6, r6, end') = and_then-Runs _ _ q in
      let (x5, s5, r5, store') = and_then-Runs _ _ r6 in
      let (x4, s4, r4, enter) = and_then-Runs _ _ r5 in
      let (x3, s3, r3, campaign) = and_then-Runs _ _ r4 in
      let (x2, s2, r2, client) = and_then-Runs _ _ r3 in
      let (x1, s1, r1, workspace) = and_then-Runs _ _ r2 in
      let w1 =
        write-Runs (accounts.save_subscription _)
          (reported-Runs (text_error "failed to create free subscription") _ r1) in
      let w2 = write-Runs (accounts.save_workspace _) workspace in
      let (g0, unused0) =
        outsider-Good u (new_id 7) n (write-Runs (accounts.save_user u) save) unused g in
      let e = get_free_plan-Runs free in
      let o1 = saves_subscription _ w1 in
      let o2 = saves_workspace _ w2 in
      let g2 = other o2 (other o1 (subst Good e g0)) in
      let unused2 = IsUnused-other (new_id 7) o2 (
        IsUnused-other (new_id 7) o1
          (subst (IsUnused store accounts save_campaign (new_id 7)) e unused0)) in
      let w =
        assign_subscription (new_free_subscription in_a_century plan now (new_id 2) (new_id 3)).id
          now (new_id 5) (new_workspace u.id now (new_id 4) (new_id 6)) in
      let c0 = new_client (personal_client_name first last) w.id u.id now (new_id 7) (new_id 8) in
      let id' =
        add_member-id u.id now (new_id 9) c0
        ∙ new_client-id (personal_client_name first last) w.id u.id now (new_id 7) (new_id 8) in
      let g4 =
        settle_in-Good u _ _ now (new_id 12) (write-Runs (accounts.save_client _) client)
          (write-Runs (save_campaign _) campaign) (write-Runs (accounts.update_user _) enter)
          (add_member-joins u.id now (new_id 9) c0)
          (subst (λ k. IsUnused store accounts save_campaign k s2) (sym id') unused2) g2 in
      subst Good (end-of end') (other (stores _ (write-Runs (store.store_events _) store')) g4)

  pub create_user-Good :
      (in_a_century : Time → Time) (clerk first last email : Text) (banned : Bool) (now : Time)
      (new_id : ℕ → Uuid) (s : S)
      → IsUnused store accounts save_campaign (new_id 7) s
      → Good s
      → Good
          (create_user store accounts save_campaign in_a_century clerk first last email banned now
            new_id s).1
  unfolding create_user with_transaction
  create_user-Good in_a_century clerk first last email banned now new_id s unused g =
      let u = new_user clerk first last email banned now (new_id 0) (new_id 1) in
      let body = make_user store accounts save_campaign in_a_century first last now new_id u s in
      reported-Good (text_error "failed to create user") (settled store.commit body s) (
        settled-Good store accounts save_campaign law body s g (λ v t h.
          make_user-Good in_a_century first last now new_id u h
            (outsider clerk first last email banned now (new_id 0) (new_id 1)) unused g))

  pub create_client-Good :
      (text_of : Err → Text) (name : Text) (creator : Uuid) (now : Time) (new_id : ℕ → Uuid) (s : S)
      → IsUnused store accounts save_campaign (new_id 0) s
      → Good s
      → Good (create_client store accounts save_campaign text_of name creator now new_id s).1
  unfolding create_client with_transaction
  create_client-Good text_of name creator now new_id s unused g =
      elim (Bool-cases (is_empty name)) [
        | inl e ↦ rw e g
        | inr e ↦ rw e (elim (Bool-cases (creator == uuid_nil)) [
          | inl f ↦ rw f g
          | inr f ↦ rw f (
              create_error-Good text_of _ (
                settled-Good store accounts save_campaign law _ s g
                  (λ c t h. make_client-Good name creator now new_id h unused g)))
        ])
      ]
