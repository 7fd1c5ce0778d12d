-- ===== src/Processing/Recover/Requeue.antt =====
-- requeueMedia: the loop over the contents of a stale media that is not too old yet.
use notai_api.Analysis.Completion.{IsReliable}
use notai_api.Analysis.Finalize.{IsLawful}
use notai_api.Base.{
  Bool, Bool-cases, List, [], all_of, any_of, ap, arith, false, inl, inr, is_empty, keep_if, map,
  refl, true, ℕ, ◌++◌, ◌+◌, ◌∙◌, ◌∷◌, ◌≡◌,
}
use notai_api.Base.Values.{Time, Uuid}
use notai_api.Content.Entity.{
  Content, is_terminal, pull_events as pull_content_events, requeue_analysis,
}
use notai_api.Content.Types.{
  content_created, content_status_changed, content_uploaded, content_verdict_rendered,
}
use notai_api.Database.{
  DomainEvent, Store, of_content, of_campaign, of_client, of_user, of_workspace_event,
  of_subscription_event, of_media,
}
use notai_api.Errors.{ok}
use notai_api.Processing.Recover.{Sweep, is_stuck, requeue_contents}

-- The contents whose analysis a list of events asks for.
abbrev pub requests : List DomainEvent → List Uuid
requests [] = []
requests (of_content (content_uploaded e) ∷ es) = e.content_id ∷ requests es
requests (of_content (content_created e) ∷ es) = requests es
requests (of_content (content_status_changed e) ∷ es) = requests es
requests (of_content (content_verdict_rendered e) ∷ es) = requests es
requests (of_media e ∷ es) = requests es
requests (of_campaign e ∷ es) = requests es
requests (of_client e ∷ es) = requests es
requests (of_user e ∷ es) = requests es
requests (of_workspace_event e ∷ es) = requests es
requests (of_subscription_event e ∷ es) = requests es

abbrev pub ids : List Content → List Uuid
ids [] = []
ids (c ∷ cs) = c.id ∷ ids cs

-- Entities come from the database without events.
abbrev pub is_loaded : Content → Bool
is_loaded c = is_empty c.events

terminal-is_stuck : (t : Time) (c : Content) → is_terminal c ≡ true → is_stuck t c ≡ false
unfolding is_terminal
terminal-is_stuck t c h = ground arith

requests-one :
    (at : Time) (eid : Uuid) (c : Content) (es : List DomainEvent)
    → is_loaded c ≡ true
    → requests (map of_content (requeue_analysis at eid c).events ++ es) ≡ c.id ∷ requests es
unfolding requeue_analysis
requests-one at eid c es h = ground arith

module _ {S : Type 0} (store : Store S) (law : IsLawful store) (live : IsReliable store) where
  module _ (at : Time) (new_id : ℕ → Uuid) (stale_before : Time) where
    -- For contents loaded from a database whose statements do not fail: the loop of requeueMedia
    -- ends without an error and asks for the analysis of exactly the contents that are uploaded and
    -- were last changed before the limit, in order; it reports work exactly if there is such a
    -- content, and that all are terminal exactly if they are; and every media is found as before.
    pub requeue_contents_lem :
        (n : ℕ) (cs : List Content) (s : S)
        → all_of is_loaded cs ≡ true
        → (w : Sweep) × (t : S) × (requeue_contents store at new_id stale_before n cs s ≡ (ok w, t))
          × (requests w.events ≡ ids (keep_if (is_stuck stale_before) cs))
          × (w.did_work ≡ any_of (is_stuck stale_before) cs)
          × (w.all_terminal ≡ all_of is_terminal cs)
          × ((i : Uuid) → store.get_media i t ≡ store.get_media i s)
    unfolding requeue_contents
    requeue_contents_lem n [] s h = (
      record { events = []; did_work = false; all_terminal = true },
      s,
      refl,
      refl,
      refl,
      refl,
      λ i. refl,
    )
    requeue_contents_lem n (c ∷ cs) s h =
        let h' : all_of is_loaded cs ≡ true = ground arith in
        let j : is_loaded c ≡ true = ground arith in
        elim (Bool-cases (is_terminal c)) [
          | inl e ↦
              let (w, t, q, a, b, d, k) = requeue_contents_lem (n + 1) cs s h' in
              let f = terminal-is_stuck stale_before c e in
              (w, t, rw e q, rw f a, rw f b, rw e d, k)
          | inr e ↦ elim (Bool-cases (is_stuck stale_before c)) [
            | inl f ↦
                let c' = requeue_analysis at (new_id n) c in
                let (t, p) = live.updates_content c' s in
                let (w, u, q, a, b, d, k) = requeue_contents_lem (n + 1) cs t h' in
                (
                  record {
                    events = map of_content (pull_content_events c').1 ++ w.events;
                    did_work = true;
                    all_terminal = false;
                  },
                  u,
                  rw (e, f, p, q) refl,
                  rw f (requests-one at (new_id n) c w.events j ∙ ap (λ l. c.id ∷ l) a),
                  rw f refl,
                  rw e refl,
                  λ i. k i ∙ law.kept_by_content i p,
                )
            | inr f ↦
                let (w, t, q, a, b, d, k) = requeue_contents_lem (n + 1) cs s h' in
                (
                  record w { all_terminal = false },
                  t,
                  rw (e, f, q) refl,
                  rw f a,
                  rw f b,
                  rw e refl,
                  k,
                )
          ]
        ]
