-- ===== src/Account/Access/Leaving.antt =====
-- A member who is removed from a client is no longer in it.
use notai_api.Account.Access.{
  IsConsistent, IsConsistent-other, IsConsistent-user, KeepsAccounts, MayEnter, MayEnter-client,
  stores, updates_client, updates_user,
}
use notai_api.Account.Access.Roster.{remove_member-id, remove_member-keeps}
use notai_api.Account.Client.{remove_member}
use notai_api.Account.Members.{clear_if_current, remove_found_member, text_error}
use notai_api.Account.Ports.{Accounts}
use notai_api.Account.Types.{Client, User}
use notai_api.Account.User.{clear_current_client, is_current}
use notai_api.Base.{
  ==_iff, ==_refl, Bool-cases, List, Option, Option-cases, ap, arith, false, inl, inr, none, not,
  some, subst, sym, true, ℕ, ◌&&◌, ◌==◌, ◌∙◌, ◌≡◌,
}
use notai_api.Base.Values.{Time, Uuid}
use notai_api.Campaign.Types.{Campaign}
use notai_api.Database.{DomainEvent, Store, ret}
use notai_api.Database.Runs.{Runs, and_then-Runs, chosen-Runs, end-of, reported-Runs, write-Runs}
use notai_api.Errors.{Result, ok}

is_current_refl : (k : Uuid) → is_current k (some k) ≡ true
is_current_refl k = ==_refl k

cleared :
    (now : Time) (eid : Uuid) (u : User)
    → ((clear_current_client now eid u).0.current_client_id ≡ none)
      × ((clear_current_client now eid u).0.id ≡ u.id)
unfolding clear_current_client
cleared now eid u = elim (Option-cases u.current_client_id) [
  | inl e ↦ ground arith
  | inr (k, e) ↦ ground arith
]

module _ {S : Type 0} (store : Store S) (accounts : Accounts S)
    (save_campaign : Campaign → S → Result S)
    (law : KeepsAccounts store accounts save_campaign) where
  abbrev Good : S → Type 0
  Good = IsConsistent store accounts save_campaign

  abbrev May : Uuid → Uuid → S → Type 0
  May = MayEnter store accounts save_campaign

  -- All is well but for one user and one client.
  abbrev AllBut : Uuid → Uuid → S → Type 0
  AllBut user client s = (i k : Uuid) → (i == user && k == client) ≡ false → May i k s

  AllBut-Good : (user client : Uuid) (s : S) → AllBut user client s → May user client s → Good s
  AllBut-Good user client s h m i k = elim (Bool-cases (i == user && k == client)) [
    | inl e ↦
        let p : i ≡ user = ground (arith, ==_iff i user, e) in
        let q : k ≡ client = ground (arith, ==_iff k client, e) in
        subst (λ j. May j k s) (sym p) (subst (λ l. May user l s) (sym q) m)
    | inr e ↦ h i k e
  ]

  cleared-Good :
      (user client : Uuid) (now : Time) (eid : Uuid) (u : User) {s t : S}
      → accounts.get_user user s ≡ ok (some u)
      → accounts.update_user (clear_current_client now eid u).0 s ≡ ok t
      → AllBut user client s
      → Good t
  cleared-Good user client now eid u {s} {t} f w h =
      let u' = (clear_current_client now eid u).0 in
      let (none', id') = cleared now eid u in
      let e : u'.id ≡ user = id' ∙ law.id_of_user f in
      IsConsistent-user store accounts save_campaign u' (law.clients_kept (updates_user u' w))
        (law.user_updated w) (λ k c p q. absurd (cc (none', q)))
        (λ i k m. h i k (ground (arith, m, e)))

  clear_if_current-Good :
      (user client : Uuid) (now : Time) (eid : Uuid) (events : List DomainEvent) (o : Option User)
      {x : Unit {0}} {s t : S}
      → accounts.get_user user s ≡ ok o
      → Runs (clear_if_current store accounts client now eid events o) s x t
      → AllBut user client s
      → Good t
  unfolding clear_if_current
  clear_if_current-Good user client now eid events none {s = s} f r h =
      IsConsistent-other store accounts save_campaign law
        (stores _ (write-Runs (store.store_events _) r))
        (AllBut-Good user client s h (λ u c p q d. absurd (cc (f, p))))
  clear_if_current-Good user client now eid events (some u) {x} {s} {t} f r h =
      elim (chosen-Runs (is_current client u.current_client_id) _ _ {s = s} {a = x} {t = t} r) [
        | inl (m, k) ↦
            let (y, v, p, q) = and_then-Runs _ _ k in
            let w =
              write-Runs (accounts.update_user (clear_current_client now eid u).0)
                (reported-Runs (text_error "failed to clear current client") _ p) in
            IsConsistent-other store accounts save_campaign law
              (stores _ (write-Runs (store.store_events _) q))
              (cleared-Good user client now eid u f w h)
        | inr (m, k) ↦
            IsConsistent-other store accounts save_campaign law
              (stores _ (write-Runs (store.store_events _) k))
              (AllBut-Good user client s h (λ v c p q d.
                let e : u.current_client_id ≡ some client = ground (arith, f, p, q) in
                absurd (ground (arith, e, m, is_current_refl client))))
      ]

  -- Without the member the client is as right as before for all others.
  removed-AllBut :
      (user client : Uuid) (now : Time) (eid : Uuid) (c : Client) {s t : S}
      → accounts.get_client client s ≡ ok (some c)
      → accounts.update_client (remove_member user now eid c).0 s ≡ ok t
      → Good s
      → AllBut user client t
  removed-AllBut user client now eid c {s} {t} f w g i k e =
      let c' = (remove_member user now eid c).0 in
      let id' : c'.id ≡ client = remove_member-id user now eid c ∙ law.id_of_client f in
      MayEnter-client store accounts save_campaign c' i k (law.users_kept (updates_client c' w) i)
        (law.client_updated w)
        (λ u p q m.
          remove_member-keeps i user now eid c (ground (arith, e, m, id'))
            (g i client u c p (q ∙ ap (λ (n : ℕ). some n) id') f))
        (g i k)

  pub remove_found_member-Good :
      (client user : Uuid) (now : Time) (eid1 eid2 : Uuid) (c : Client) {x : Unit {0}} {s t : S}
      → accounts.get_client client s ≡ ok (some c)
      → Runs (remove_found_member store accounts client user now eid1 eid2 c) s x t
      → Good s
      → Good t
  unfolding remove_found_member
  remove_found_member-Good client user now eid1 eid2 c {x} {s} {t} f r g =
      elim (chosen-Runs (not (remove_member user now eid1 c).1) (ret tt) _ {s = s} {a = x} {t = t}
        r) [
          | inl (m, k) ↦ subst Good (end-of k) g
          | inr (m, k) ↦
              let (o, v, p, q) = and_then-Runs _ _ k in
              let (y, u, p', q') = and_then-Runs _ _ p in
              let w =
                write-Runs (accounts.update_client (remove_member user now eid1 c).0)
                  (reported-Runs (text_error "failed to remove client member") _ p') in
              let a =
                reported-Runs (text_error "failed to get user") (accounts.get_user user u, u) q' in
              let e = end-of a in
              let found : accounts.get_user user u ≡ ok o =
                ap (λ (r : Result (Option User) × S). r.0) a in
              clear_if_current-Good user client now eid2 _ o
                (subst (λ z. accounts.get_user user z ≡ ok o) e found) q
                (removed-AllBut user client now eid1 c f
                  (subst (λ z. accounts.update_client (remove_member user now eid1 c).0 s ≡ ok z) e
                    w)
                  g)
        ]
