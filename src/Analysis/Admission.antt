-- ===== src/Analysis/Admission.antt =====
-- When an analysis starts.
use notai_api.Analysis.Handler.{save_content, start_analysis, start_fresh}
use notai_api.Base.{
  Bool, Bool-cases, Option, Option-cases, arith, false, inl, inr, is_none, none, refl, some, true,
  ◌≡◌, ◌⊎◌,
}
use notai_api.Base.Values.{Time, Uuid}
use notai_api.Content.Entity.{Content, is_uploaded, pull_events, start_analyzing}
use notai_api.Content.Types.{analyzing}
use notai_api.Database.{Store, and_then, ask, checked, ret, settled, with_transaction, ◌>>◌}
use notai_api.Errors.{Err, Result, Result-cases, err, ok}
use notai_api.Media.Entity.{Media}

module _ {S : Type 0} (store : Store S) where
  -- The answer of the quota test lets an analysis start.
  abbrev pub admits : Option (Uuid → S → Option Err) → Uuid → S → Bool
  admits none client s = true
  admits (some assert) client s = is_none (assert client s)

  finished :
      (r : Result (Unit {0}) × S) (c d : Content) → (and_then r (λ a t. ret c t)).0 ≡ ok d → d ≡ c
  finished (ok a, t) c d h = ground arith
  finished (err e, t) c d h = ground arith

  checked-finished :
      (r : Content × Option Err) (s : S) (d : Content)
      → (and_then (checked r s) (λ c. save_content store c >> ret (pull_events c).0)).0 ≡ ok d
      → d ≡ (pull_events r.0).0
  checked-finished (c, none) s d h = finished (save_content store c s) (pull_events c).0 d h
  checked-finished (c, some e) s d h = ground arith

  -- The content is handed on as analyzing.
  abbrev pub IsStarted : Content → Content → Type 0
  IsStarted fresh d = (d.status ≡ analyzing) × (d.id ≡ fresh.id)

  finished-IsStarted :
      (fresh d : Content) (now : Time) (eid : Uuid)
      → is_uploaded fresh.status ≡ true
      → d ≡ (pull_events (start_analyzing now eid fresh).0).0
      → IsStarted fresh d
  unfolding pull_events start_analyzing
  finished-IsStarted fresh d now eid u e = rw (e, u) (refl, refl)

  start_fresh-IsStarted :
      (quota : Option (Uuid → S → Option Err)) (m : Media) (c fresh d : Content) (now : Time)
      (eid : Uuid) (s : S)
      → is_uploaded fresh.status ≡ true
      → (start_fresh store quota m c now eid (some fresh) s).0 ≡ ok d
      → (admits quota m.client_id s ≡ true) × IsStarted fresh d
  unfolding start_fresh
  start_fresh-IsStarted none m c fresh d now eid s u h = (
    refl,
    finished-IsStarted fresh d now eid u
        (checked-finished (start_analyzing now eid fresh) s d (rw u at h)),
  )
  start_fresh-IsStarted (some f) m c fresh d now eid s u h = elim (Option-cases (f m.client_id s)) [
    | inl p ↦ (
      rw p refl,
      finished-IsStarted fresh d now eid u
          (checked-finished (start_analyzing now eid fresh) s d (rw (u, p) at h)),
    )
    | inr (e, p) ↦ absurd (cc (rw (u, p) at h))
  ]

  settled-ok :
      {A : Type 0} (commit : S → Result S) (r : Result A × S) (s : S) (a : A)
      → (settled commit r s).0 ≡ ok a
      → r.0 ≡ ok a
  settled-ok commit (err f, t) s a h = h
  settled-ok commit (ok b, t) s a h = elim (Result-cases (commit t)) [
    | inl (f, p) ↦ ground arith
    | inr (u, p) ↦ ground arith
  ]

  start_fresh-kept :
      (quota : Option (Uuid → S → Option Err)) (m : Media) (c fresh d : Content) (now : Time)
      (eid : Uuid) (s : S)
      → is_uploaded fresh.status ≡ false
      → (start_fresh store quota m c now eid (some fresh) s).0 ≡ ok d
      → d ≡ fresh
  unfolding start_fresh
  start_fresh-kept quota m c fresh d now eid s u h = let k = rw u at h in ground arith

  -- For a content that is found: when the transaction that starts its analysis reports no error, an
  -- uploaded content is handed on as analyzing, and the quota test, if there is one, has passed in
  -- that transaction for the media's client; a content in any other state is handed on as found.
  pub start_analysis_lem :
      (quota : Option (Uuid → S → Option Err)) (m : Media) (c fresh d : Content) (now : Time)
      (eid : Uuid) (s : S)
      → store.get_content c.id s ≡ ok (some fresh)
      → (start_analysis store quota m c now eid s).0 ≡ ok d
      → ((is_uploaded fresh.status ≡ true)
          × (admits quota m.client_id s ≡ true)
          × IsStarted fresh d)
        ⊎ ((is_uploaded fresh.status ≡ false) × (d ≡ fresh))
  unfolding start_analysis with_transaction
  start_analysis_lem quota m c fresh d now eid s f h =
      let body = and_then (ask (store.get_content c.id) s) (start_fresh store quota m c now eid) in
      let j : body.0 ≡ ok d = settled-ok store.commit body s d h in
      let k : (start_fresh store quota m c now eid (some fresh) s).0 ≡ ok d = rw f at j in
      elim (Bool-cases (is_uploaded fresh.status)) [
        | inl u ↦
            let (a, b) = start_fresh-IsStarted quota m c fresh d now eid s u k in inl (u, a, b)
        | inr u ↦ inr (u, start_fresh-kept quota m c fresh d now eid s u k)
      ]
