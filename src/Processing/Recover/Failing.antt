-- ===== src/Processing/Recover/Failing.antt =====
-- failMedia: what becomes of a media that is older than the maximal age.
use notai_api.Analysis.Completion.{IsReliable}
use notai_api.Analysis.Finalize.{IsLawful, Replaces, stamped}
use notai_api.Base.{
  Bool-cases, List, [], arith, false, inl, inr, length, map, none, refl, some, subst, true, ℕ, ◌++◌,
  ◌+◌, ◌∙◌, ◌∷◌, ◌≡◌, ◌⊎◌,
}
use notai_api.Base.Text.{Text, codes, trim_space}
use notai_api.Base.Values.{Time, Uuid}
use notai_api.Content.Entity.{
  Content, is_terminal, mark_failed as mark_content_failed, pull_events as pull_content_events,
}
use notai_api.Database.{
  DomainEvent, M, Store, and_then, ask, of_content, of_media, settled, with_transaction,
}
use notai_api.Errors.{ok}
use notai_api.Media.Entity.{Media, pull_events as pull_media_events}
use notai_api.Media.Transitions.{mark_failed as mark_media_failed}
use notai_api.Media.Types.{failed, is_processing}
use notai_api.Processing.Recover.{
  fail_contents, fail_fresh, fail_media, save_with, stale_fail_reason,
}

pub mark_content_failed-ok :
    (at : Time) (eid : Uuid) (c : Content)
    → is_terminal c ≡ false
    → mark_content_failed at eid c ≡ ((mark_content_failed at eid c).0, none)
unfolding mark_content_failed is_terminal
mark_content_failed-ok at eid c h = ground arith

pub mark_media_failed-ok :
    (reason : Text) (at : Time) (eid : Uuid) (m : Media)
    → is_processing m.status ≡ true
    → let m' = (mark_media_failed reason at eid m).0 in
      (mark_media_failed reason at eid m ≡ (m', none))
      × Replaces m' m
      × (m'.status ≡ failed)
      × (m'.failure_reason ≡ trim_space reason)
unfolding mark_media_failed
mark_media_failed-ok reason at eid m h = ground arith

timed_out-text : trim_space stale_fail_reason ≡ codes "Media processing timed out"
unfolding trim_space
timed_out-text = refl

module _ {S : Type 0} (store : Store S) (law : IsLawful store) (live : IsReliable store) where
  -- A media that is found is found again as it was saved, with a time of change.
  pub save_with-runs :
      (es : List DomainEvent) (n m : Media) (s : S)
      → store.get_media m.id s ≡ ok (some m)
      → Replaces n m
      → (t : S) × (u : Time) × (save_with store es n s ≡ (ok tt, t))
        × (store.get_media m.id t ≡ ok (some (stamped u n)))
  unfolding save_with
  save_with-runs es n m s f r =
      let (t, p) = live.updates n s in
      let (v, q) = live.stores (es ++ map of_media (pull_media_events n).1) t in
      let (u, k) = law.found_updated f r p in
      (v, u, rw p (rw q refl), law.kept_by_outbox m.id q ∙ k)

  pub with_transaction-runs :
      {A : Type 0} (body : M S A) (a : A) (s t : S)
      → body s ≡ (ok a, t)
      → (u : S) × (with_transaction store.commit body s ≡ (ok a, u))
        × ((i : Uuid) → store.get_media i u ≡ store.get_media i t)
  unfolding with_transaction
  with_transaction-runs body a s t h =
      let (u, p) = live.commits t in (u, rw h (rw (settled, p) refl), λ i. law.kept_by_commit i p)

  module _ (at : Time) (new_id : ℕ → Uuid) where
    fail_contents-runs :
        (n : ℕ) (cs : List Content) (s : S)
        → (es : List DomainEvent) × (t : S) × (fail_contents store at new_id n cs s ≡ (ok es, t))
          × ((i : Uuid) → store.get_media i t ≡ store.get_media i s)
    unfolding fail_contents
    fail_contents-runs n [] s = ([], s, refl, λ i. refl)
    fail_contents-runs n (c ∷ cs) s = elim (Bool-cases (is_terminal c)) [
      | inl e ↦ rw e (fail_contents-runs (n + 1) cs s)
      | inr e ↦
          let c' = (mark_content_failed at (new_id n) c).0 in
          let (t, p) = live.updates_content c' s in
          let (es, u, q, k) = fail_contents-runs (n + 1) cs t in
          (
            map of_content (pull_content_events c').1 ++ es,
            u,
            rw (e, mark_content_failed-ok at (new_id n) c e, p, q) refl,
            λ i. k i ∙ law.kept_by_content i p,
          )
    ]

    fail_fresh-other :
        (m : Media) (s : S)
        → is_processing m.status ≡ false
        → fail_fresh store at new_id (some m) s ≡ (ok tt, s)
    unfolding fail_fresh
    fail_fresh-other m s h = rw h refl

    -- The media is found failed, with the reason of stale media.
    abbrev pub HasTimedOut : Uuid → S → Type 0
    HasTimedOut i t =
        (m : Media) × (store.get_media i t ≡ ok (some m))
        × (m.status ≡ failed)
        × (m.failure_reason ≡ codes "Media processing timed out")

    HasTimedOut-moved :
        {i : Uuid} {t u : S}
        → store.get_media i u ≡ store.get_media i t
        → HasTimedOut i t
        → HasTimedOut i u
    HasTimedOut-moved k (m, g, status, reason) = (m, k ∙ g, status, reason)

    fail_fresh-runs :
        (m : Media) (cs : List Content) (s : S)
        → is_processing m.status ≡ true
        → store.get_media m.id s ≡ ok (some m)
        → store.list_by_media_id m.id s ≡ ok cs
        → (t : S) × (fail_fresh store at new_id (some m) s ≡ (ok tt, t)) × HasTimedOut m.id t
    unfolding fail_fresh
    fail_fresh-runs m cs s h f l =
        let (es, t, q, k) = fail_contents-runs 0 cs s in
        let eid = new_id (length cs) in
        let m' = (mark_media_failed stale_fail_reason at eid m).0 in
        let (e, same, status, reason) = mark_media_failed-ok stale_fail_reason at eid m h in
        let (u, v, r, g) = save_with-runs es m' m t (k m.id ∙ f) same in
        (u, rw (h, l, q, e, r) refl, (stamped v m', g, status, reason ∙ timed_out-text))

    -- For a database that keeps what it promises of the media and whose statements do not fail, and
    -- a media that is found and whose contents can be listed: failMedia reports no error; a media
    -- that is not processing is left as it is, and one that is processing is found failed
    -- afterwards, with the text "Media processing timed out" as its reason.
    pub fail_media_lem :
        (i : Uuid) (m : Media) (cs : List Content) (s : S)
        → store.get_media i s ≡ ok (some m)
        → store.list_by_media_id m.id s ≡ ok cs
        → let t = (fail_media store at new_id i s).1 in
          ((fail_media store at new_id i s).0 ≡ ok tt)
          × (((is_processing m.status ≡ false) × (store.get_media i t ≡ ok (some m)))
              ⊎ ((is_processing m.status ≡ true) × HasTimedOut i t))
    unfolding fail_media
    fail_media_lem i m cs s f l =
        let body : M S (Unit {0}) =
          λ t. and_then (ask (store.get_media i) t) (fail_fresh store at new_id) in
        let b : body s ≡ fail_fresh store at new_id (some m) s = rw f refl in
        elim (Bool-cases (is_processing m.status)) [
          | inl e ↦
              let (t, p, timed) = fail_fresh-runs m cs s e (cc (f, law.id_of_found f)) l in
              let (u, q, k) = with_transaction-runs body tt s t (b ∙ p) in
              let found = subst (λ j. HasTimedOut j t) (law.id_of_found f) timed in
              rw q (refl, inr (e, HasTimedOut-moved (k i) found))
          | inr e ↦
              let (u, q, k) = with_transaction-runs body tt s s (b ∙ fail_fresh-other m s e) in
              rw q (refl, inl (e, k i ∙ f))
        ]
