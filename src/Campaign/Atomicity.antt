-- ===== src/Campaign/Atomicity.antt =====
-- What the handlers of the campaigns leave when they fail.
use notai_api.Analysis.Handler.{asserted}
use notai_api.Base.{
  Bool, Option, Option-cases, arith, false, if◌then◌else◌, inl, inr, is_empty, none, refl, some,
  true, ℕ, ◌==◌, ◌∙◌, ◌≡◌,
}
use notai_api.Base.Text.{Text}
use notai_api.Base.Values.{Time, Uuid, uuid_nil}
use notai_api.Campaign.Commands.{Campaigns, create_campaign, delete_campaign, update_campaign}
use notai_api.Campaign.Entity.{new_campaign, pull_events}
use notai_api.Database.{
  M, Store, and_then, ask, fail_with, reported, reporting, ret, settled, with_transaction, ◌>>=◌,
  ◌>>◌,
}
use notai_api.Errors.{Err, Result, Result-cases, err, ok}

-- A handler that reports an error leaves the database as it was.
abbrev pub IsAtomic : {S A : Type 0} → M S A → Type 0
IsAtomic {S} m = (s : S) (e : Err) → (m s).0 ≡ err e → (m s).1 ≡ s

module _ {S : Type 0} where
  fail_with-IsAtomic : {A : Type 0} (e : Err) → IsAtomic (fail_with {S = S} {A = A} e)
  fail_with-IsAtomic e s f h = refl

  settled-IsAtomic :
      {A : Type 0} (commit : S → Result S) (r : Result A × S) (s : S) (e : Err)
      → (settled commit r s).0 ≡ err e
      → (settled commit r s).1 ≡ s
  settled-IsAtomic commit (err f, t) s e h = refl
  settled-IsAtomic commit (ok a, t) s e h = elim (Result-cases (commit t)) [
    | inl (f, p) ↦ rw (p, settled) refl
    | inr (u, p) ↦ ground arith
  ]

  with_transaction-IsAtomic :
      {A : Type 0} (commit : S → Result S) (m : M S A) → IsAtomic (with_transaction commit m)
  unfolding with_transaction
  with_transaction-IsAtomic commit m s e h = settled-IsAtomic commit (m s) s e h

  guarded-IsAtomic :
      {A : Type 0} (b : Bool) (m n : M S A)
      → IsAtomic m
      → IsAtomic n
      → IsAtomic (if b then m else n)
  guarded-IsAtomic true m n h k = h
  guarded-IsAtomic false m n h k = k

  reported-IsAtomic :
      {A : Type 0} (f : Err) (r : Result A × S) (s : S) (e : Err)
      → ((g : Err) → r.0 ≡ err g → r.1 ≡ s)
      → (reported f r).0 ≡ err e
      → (reported f r).1 ≡ s
  reported-IsAtomic f (err g, t) s e k h = k g refl
  reported-IsAtomic f (ok a, t) s e k h = ground arith

  reporting-IsAtomic : {A : Type 0} (f : Err) (m : M S A) → IsAtomic m → IsAtomic (reporting f m)
  reporting-IsAtomic f m k s e h = reported-IsAtomic f (m s) s e (k s) h

  -- What follows cannot fail.
  then_ret-IsAtomic : {A B : Type 0} (m : M S A) (b : B) → IsAtomic m → IsAtomic (m >> ret b)
  then_ret-IsAtomic m b k s e h = elim (Result-cases (m s).0) [
    | inl (g, p) ↦ rw p (k s g p)
    | inr (a, p) ↦ absurd (cc (rw p at h))
  ]

  -- What comes first only reads.
  after-IsAtomic :
      {A B : Type 0} (m : M S A) (f : A → M S B)
      → ((s : S) → (m s).1 ≡ s)
      → ((a : A) → IsAtomic (f a))
      → IsAtomic (m >>= f)
  after-IsAtomic m f r k s e h = elim (Result-cases (m s).0) [
    | inl (g, p) ↦ rw p (r s)
    | inr (a, p) ↦ rw p (k a (m s).1 e (rw p at h) ∙ r s)
  ]

module _ {S : Type 0} (store : Store S) (campaigns : Campaigns S) where
  -- The handlers that make, change and delete a campaign.
  pub data Command : Type 0 where
    creating :
        Option (Uuid → S → Option Err)
        → Text
        → Uuid
        → Option Time
        → Option Time
        → Time
        → Uuid
        → Uuid
        → Command
    updating : Uuid → Text → Option Time → Option Time → Time → Uuid → Command
    deleting : (Uuid → Text) → Uuid → Time → Uuid → (ℕ → Uuid) → Command

  abbrev pub handle : Command → M S (Unit {0})
  handle (creating quota name client start end now id eid) =
      create_campaign store campaigns quota name client start end now id eid >> ret tt
  handle (updating id name start end now eid) =
      update_campaign store campaigns id name start end now eid
  handle (deleting str id now eid new_id) = delete_campaign store campaigns str id now eid new_id

  update_campaign-IsAtomic :
      (id : Uuid) (name : Text) (start end : Option Time) (now : Time) (eid : Uuid)
      → IsAtomic (update_campaign store campaigns id name start end now eid)
  unfolding update_campaign
  update_campaign-IsAtomic id name start end now eid =
      guarded-IsAtomic (is_empty name) _ _ (fail_with-IsAtomic _)
        (with_transaction-IsAtomic store.commit _)

  delete_campaign-IsAtomic :
      (str : Uuid → Text) (id : Uuid) (now : Time) (eid : Uuid) (new_id : ℕ → Uuid)
      → IsAtomic (delete_campaign store campaigns str id now eid new_id)
  unfolding delete_campaign
  delete_campaign-IsAtomic str id now eid new_id = with_transaction-IsAtomic store.commit _

  asserted-reads :
      (quota : Option (Uuid → S → Option Err)) (client : Uuid) (s : S)
      → (asserted store quota client s).1 ≡ s
  asserted-reads none client s = refl
  asserted-reads (some assert) client s = elim (Option-cases (assert client s)) [
    | inl p ↦ rw (asserted, p) refl
    | inr (e, p) ↦ rw (asserted, p) refl
  ]

  asked-reads :
      {A B : Type 0} (q : Result B × S) (r : Result A) (s : S)
      → q.1 ≡ s
      → (and_then q (λ b. ask (λ t. r))).1 ≡ s
  asked-reads (err e, t) r s h = h
  asked-reads (ok b, t) r s h = h

  prepared-reads :
      {A : Type 0} (quota : Option (Uuid → S → Option Err)) (client : Uuid) (r : Result A) (s : S)
      → ((asserted store quota client >> ask (λ s. r)) s).1 ≡ s
  prepared-reads quota client r s =
      asked-reads (asserted store quota client s) r s (asserted-reads quota client s)

  create_campaign-IsAtomic :
      (quota : Option (Uuid → S → Option Err)) (name : Text) (client : Uuid)
      (start end : Option Time) (now : Time) (id eid : Uuid)
      → IsAtomic (create_campaign store campaigns quota name client start end now id eid)
  unfolding create_campaign
  create_campaign-IsAtomic quota name client start end now id eid =
      guarded-IsAtomic (is_empty name) _ _ (fail_with-IsAtomic _) (
        guarded-IsAtomic (client == uuid_nil) _ _ (fail_with-IsAtomic _) (
          after-IsAtomic _ _
            (prepared-reads quota client (new_campaign name client start end now id eid))
            (λ c.
              then_ret-IsAtomic _ (pull_events c).0
                (reporting-IsAtomic _ _ (with_transaction-IsAtomic store.commit _)))))

  -- A handler that makes, changes or deletes a campaign and reports an error, be it of the quota, of
  -- the campaign, of a query, of the outbox or of the commit, leaves the database as it was; the
  -- deletion undoes those of the media that it got to.
  pub handle-atomic : (o : Command) (s : S) (e : Err) → (handle o s).0 ≡ err e → (handle o s).1 ≡ s
  handle-atomic (creating quota name client start end now id eid) =
      then_ret-IsAtomic _ tt (create_campaign-IsAtomic quota name client start end now id eid)
  handle-atomic (updating id name start end now eid) =
      update_campaign-IsAtomic id name start end now eid
  handle-atomic (deleting str id now eid new_id) = delete_campaign-IsAtomic str id now eid new_id
