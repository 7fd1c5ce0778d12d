-- ===== src/Activity/Settled.antt =====
-- What the feed has once the handler of a verdict has answered without failure.
use notai_api.Activity.Feed.{
  on_media_verdict_rendered-rows, project_media-cases, publish_created-rows, verdict_event-type,
  verdict_type,
}
use notai_api.Activity.Outcomes.{
  insert_if, on_media_verdict_rendered, verdict_activity, verdict_event,
}
use notai_api.Activity.Projector.{Feed, Readers, insert, insert_row}
use notai_api.Activity.Types.{Event}
use notai_api.Base.{
  Bool, Bool-cases, List, Option, any_of, arith, false, inl, inr, is_some, none, refl, some, subst,
  true, ◌==◌, ◌≡◌,
}
use notai_api.Base.Text.{Text}
use notai_api.Base.Values.{Time, Uuid}
use notai_api.Media.Types.{MediaVerdictRendered}
use notai_api.Messaging.Dedup.{next_fault}

module _ (r : Readers) where
  abbrev pub has_row : Uuid → Feed → Bool
  has_row i f = any_of (λ (y : Event). y.id == i) f.rows

  insert-has_row :
      (now : Time) (x : Event) (f : Feed)
      → (insert r now x f).1 ≡ none
      → has_row x.id (insert r now x f).0 ≡ true
  unfolding insert insert_row
  insert-has_row now x f h = elim (Bool-cases (next_fault f.faults)) [
    | inl b ↦ ground arith
    | inr b ↦ elim (Bool-cases (has_row x.id f)) [
      | inl c ↦ ground arith
      | inr c ↦ grind (arith, publish_created-rows)
    ]
  ]

  verdict_event-is_some :
      (id client : Uuid) (name : Text) (e : MediaVerdictRendered)
      → is_some (verdict_type e) ≡ true
      → is_some (verdict_event r id client name e) ≡ true
  unfolding verdict_event verdict_activity
  verdict_event-is_some id client name e h = ground arith

  insert_if-has_row :
      (now : Time) (id : Uuid) (o : Option Event) (f : Feed)
      → (insert_if r now o f).1 ≡ none
      → is_some o ≡ true
      → ((x : Event) → o ≡ some x → x.id ≡ id)
      → has_row id (insert_if r now o f).0 ≡ true
  insert_if-has_row now id none f h k i = cc
  insert_if-has_row now id (some x) f h k i =
      subst (λ (j : Uuid). has_row j (insert r now x f).0 ≡ true) (i x refl)
        (insert-has_row now x f h)

  on_media_verdict_rendered-has_row :
      (now : Time) (e : MediaVerdictRendered) (f : Feed)
      → (on_media_verdict_rendered r now (some e) f).1 ≡ none
      → is_some (verdict_type e) ≡ true
      → (i : Uuid) × (r.parse e.event_id ≡ some i)
        × (has_row i (on_media_verdict_rendered r now (some e) f).0 ≡ true)
  unfolding on_media_verdict_rendered
  on_media_verdict_rendered-has_row now e f h k =
      let row_of : Uuid → Uuid → Text → Option Event = λ i c n. verdict_event r i c n e in
      elim (project_media-cases r now e.client_id e.event_id e.media_id row_of f) [
        | inl (q, a) ↦ absurd (ground (arith, a, h))
        | inr (i, c, n, p, q) ↦ (
          i,
          p,
          rw q (
              insert_if-has_row now i (row_of i c n) f (cc (q, h)) (verdict_event-is_some i c n e k)
                (λ x w. (verdict_event-type r i c n e x w).0)),
        )
      ]

  -- If the handler of a verdict, of a failure or with one of the three labels, answers without failure,
  -- then the id of the event was parsed and the feed has a row of that id; and whenever the event
  -- comes again, whatever the database has in store for Insert then, the rows stay as they are.
  pub on_media_verdict_rendered-settles :
      (now again : Time) (e : MediaVerdictRendered) (f : Feed) (faults : List Bool)
      → (on_media_verdict_rendered r now (some e) f).1 ≡ none
      → is_some (verdict_type e) ≡ true
      → let g = (on_media_verdict_rendered r now (some e) f).0 in
        (i : Uuid) × (r.parse e.event_id ≡ some i)
        × (has_row i g ≡ true)
        × ((on_media_verdict_rendered r again (some e) (record g { faults = faults })).0.rows
            ≡ g.rows)
  on_media_verdict_rendered-settles now again e f faults h k =
      let (i, p, m) = on_media_verdict_rendered-has_row now e f h k in
      let g = (on_media_verdict_rendered r now (some e) f).0 in
      (
        i,
        p,
        m,
        elim (on_media_verdict_rendered-rows r again e (record g { faults = faults })) [
          | inl q ↦ q
          | inr (x, (q, c, p', t)) ↦
              let same : x.id ≡ i = grind (arith, p, p') in
              cc (m, subst (λ (j : Uuid). has_row j g ≡ false) same c)
        ],
      )
