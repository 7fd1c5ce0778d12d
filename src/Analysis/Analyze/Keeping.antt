-- ===== src/Analysis/Analyze/Keeping.antt =====
-- Which parts of an analysis leave the contents alone.
use notai_api.Analysis.Analyze.{DetectorRun, Results, mark_answer, save_result, save_results}
use notai_api.Analysis.Finalize.{Replaces}
use notai_api.Analysis.Handler.{finalize, finalize_over, is_final, save_media, try_finalize_media}
use notai_api.Analysis.MediaVerdict.{aggregate_media_verdict}
use notai_api.Analysis.Outcome.{Outcome, new}
use notai_api.Base.{
  Bool, Bool-cases, List, Option, [], all_of, arith, inl, inr, is_empty, map, none, not, refl, some,
  ◌==◌, ◌||◌, ◌∙◌, ◌∷◌, ◌≡◌,
}
use notai_api.Base.Text.{Text}
use notai_api.Base.Values.{Time, Uuid, uuid_nil}
use notai_api.Content.Entity.{Content, is_terminal}
use notai_api.Database.{
  DomainEvent, M, Store, and_then, checked, of_media, settled, with_transaction,
}
use notai_api.Errors.{Err, Result, Result-cases, err, ok}
use notai_api.Media.Entity.{Media, pull_events as pull_media_events}
use notai_api.Media.Transitions.{render_global_verdict}
use notai_api.Media.Types.{Verdict}
use notai_api.Quota.Usage.{found}

-- A new state of a content: it belongs to the same media, campaign and client.
abbrev pub Succeeds : Content → Content → Type 0
Succeeds d c =
    (d.id ≡ c.id)
    × (d.media_id ≡ c.media_id)
    × (d.campaign_id ≡ c.campaign_id)
    × (d.client_id ≡ c.client_id)

-- What a database promises of the contents: the update of one that is found is seen, with a time of
-- change of its own, and nothing else changes what is found: neither the outbox, a commit, the results
-- of detectors, nor the update of a media that is found, if that leaves it where it is and does not
-- delete it.
pub record KeepsContents {S : Type 0} (store : Store S) (results : Results S) : Type 0 where
  pub id_of_media : {i : Uuid} {s : S} {m : Media} → store.get_media i s ≡ ok (some m) → m.id ≡ i
  pub id_of_found :
      {i : Uuid} {s : S} {c : Content} → store.get_content i s ≡ ok (some c) → c.id ≡ i
  pub found_updated :
      {d c : Content} {s t : S}
      → store.get_content c.id s ≡ ok (some c)
      → Succeeds d c
      → store.update_content d s ≡ ok t
      → (u : Time) × (store.get_content c.id t
          ≡ ok (some (record d { updated_at = u; events = [] })))
  pub kept_by_media :
      (i : Uuid) {n m : Media} {s t : S}
      → store.get_media m.id s ≡ ok (some m)
      → Replaces n m
      → store.update_media n s ≡ ok t
      → store.get_content i t ≡ store.get_content i s
  pub kept_by_outbox :
      (i : Uuid) {es : List DomainEvent} {s t : S}
      → store.store_events es s ≡ ok t
      → store.get_content i t ≡ store.get_content i s
  pub kept_by_commit :
      (i : Uuid) {s t : S} → store.commit s ≡ ok t → store.get_content i t ≡ store.get_content i s
  pub kept_by_results :
      (i : Uuid) {o : Outcome} {s t : S}
      → results.upsert o s ≡ ok t
      → store.get_content i t ≡ store.get_content i s

pub and_then-ok :
    {S A B : Type 0} (r : Result A × S) (f : A → M S B) (b : B)
    → (and_then r f).0 ≡ ok b
    → (a : A) × (r.0 ≡ ok a) × (and_then r f ≡ f a r.1)
and_then-ok (err e, s) f b h = ground arith
and_then-ok (ok a, s) f b h = (a, refl, refl)

module _ {S : Type 0} (store : Store S) (results : Results S)
    (law : KeepsContents store results) where
  save_result-kept :
      (text_of : Err → Text) (c : Content) (r : DetectorRun) (i : Uuid) (s : S)
      → store.get_content i (save_result store results text_of c r s).1 ≡ store.get_content i s
  unfolding save_result
  save_result-kept text_of c r i s =
      let d = r.detector in
      elim (Result-cases (new c.id d.name r.started r.completed d.expected_weight r.marked r.id)) [
        | inl (e, p) ↦ rw p refl
        | inr (o, p) ↦ elim (Result-cases (results.upsert (mark_answer text_of r o) s)) [
          | inl (e, q) ↦ rw (p, q) refl
          | inr (t, q) ↦ rw (p, q) (law.kept_by_results i q)
        ]
      ]

  pub save_results-kept :
      (text_of : Err → Text) (c : Content) (rs : List DetectorRun) (i : Uuid) (s : S)
      → store.get_content i (save_results store results text_of c rs s).1 ≡ store.get_content i s
  unfolding save_results
  save_results-kept text_of c [] i s = refl
  save_results-kept text_of c (r ∷ rs) i s =
      save_results-kept text_of c rs i (save_result store results text_of c r s).1
      ∙ save_result-kept text_of c r i s

  save_media-kept :
      (n m : Media) (i : Uuid) (s : S)
      → store.get_media m.id s ≡ ok (some m)
      → Replaces n m
      → store.get_content i (save_media store n s).1 ≡ store.get_content i s
  unfolding save_media
  save_media-kept n m i s f r = elim (Result-cases (store.update_media n s)) [
    | inl (e, p) ↦ rw p refl
    | inr (t, p) ↦
        elim (Result-cases (store.store_events (map of_media (pull_media_events n).1) t)) [
          | inl (e, q) ↦ rw (p, q) (law.kept_by_media i f r p)
          | inr (u, q) ↦ rw (p, q) (law.kept_by_outbox i q ∙ law.kept_by_media i f r p)
        ]
  ]

  settled-kept :
      {A : Type 0} (r : Result A × S) (i : Uuid) (s : S)
      → store.get_content i r.1 ≡ store.get_content i s
      → store.get_content i (settled store.commit r s).1 ≡ store.get_content i s
  settled-kept (err e, t) i s h = refl
  settled-kept (ok a, t) i s h = elim (Result-cases (store.commit t)) [
    | inl (e, p) ↦ rw (settled, p) refl
    | inr (u, p) ↦ rw (settled, p) (law.kept_by_commit i p ∙ h)
  ]

  pub settled-ok :
      {A : Type 0} (r : Result A × S) (i : Uuid) (s : S) (a : A)
      → (settled store.commit r s).0 ≡ ok a
      → (r.0 ≡ ok a) × (store.get_content i (settled store.commit r s).1 ≡ store.get_content i r.1)
  settled-ok (err e, t) i s a h = ground arith
  settled-ok (ok b, t) i s a h = elim (Result-cases (store.commit t)) [
    | inl (e, p) ↦ ground arith
    | inr (u, p) ↦ ground (arith, law.kept_by_commit i p)
  ]

  checked_saves-kept :
      (r : Media × Option Err) (m : Media) (i : Uuid) (s : S)
      → store.get_media m.id s ≡ ok (some m)
      → Replaces r.0 m
      → store.get_content i (and_then (checked r s) (save_media store)).1 ≡ store.get_content i s
  checked_saves-kept (n, none) m i s f r = save_media-kept n m i s f r
  checked_saves-kept (n, some e) m i s f r = refl

  render_global_verdict-Replaces :
      (v : Verdict) (now : Time) (eid : Uuid) (m : Media)
      → Replaces (render_global_verdict v now eid m).0 m
  unfolding render_global_verdict
  render_global_verdict-Replaces v now eid m = ground arith

  finalize_over-kept :
      (cs : List Content) (now : Time) (eid : Uuid) (m : Media) (i : Uuid) (s : S)
      → store.get_media m.id s ≡ ok (some m)
      → store.get_content i (finalize_over store cs now eid m s).1 ≡ store.get_content i s
  unfolding finalize_over
  finalize_over-kept cs now eid m i s f =
      elim (Bool-cases (is_empty cs || not (all_of is_terminal cs))) [
        | inl p ↦ rw p refl
        | inr p ↦
            let v = aggregate_media_verdict cs in
            rw p (
              checked_saves-kept (render_global_verdict v now eid m) m i s f
                (render_global_verdict-Replaces v now eid m))
      ]

  finalize-kept :
      (j : Uuid) (now : Time) (eid : Uuid) (found : Option Media) (i : Uuid) (s : S)
      → store.get_media j s ≡ ok found
      → store.get_content i (finalize store j now eid found s).1 ≡ store.get_content i s
  unfolding finalize
  finalize-kept j now eid none i s f = refl
  finalize-kept j now eid (some m) i s f = elim (Bool-cases (is_final store m)) [
    | inl p ↦ rw p refl
    | inr p ↦ elim (Result-cases (store.list_by_media_id j s)) [
      | inl (e, q) ↦ rw (p, q) refl
      | inr (cs, q) ↦ rw (p, q) (finalize_over-kept cs now eid m i s (cc (f, law.id_of_media f)))
    ]
  ]

  found-kept :
      (j : Uuid) (now : Time) (eid : Uuid) (i : Uuid) (s : S)
      → let r = and_then (store.get_media j s, s) (finalize store j now eid) in
        store.get_content i r.1 ≡ store.get_content i s
  found-kept j now eid i s = elim (Result-cases (store.get_media j s)) [
    | inl (e, p) ↦ rw p refl
    | inr (found, p) ↦ rw p (finalize-kept j now eid found i s p)
  ]

  pub try_finalize_media-kept :
      (has_media : Bool) (j : Uuid) (now : Time) (eid : Uuid) (i : Uuid) (s : S)
      → store.get_content i (try_finalize_media store has_media j now eid s).1
        ≡ store.get_content i s
  unfolding try_finalize_media with_transaction
  try_finalize_media-kept has_media j now eid i s =
      elim (Bool-cases (not has_media || j == uuid_nil)) [
        | inl p ↦ rw p refl
        | inr p ↦ rw p (settled-kept _ i s (found-kept j now eid i s))
      ]
