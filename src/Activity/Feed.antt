-- ===== src/Activity/Feed.antt =====
-- What the feed tells of a media, from the calls of its methods to the rows.
use notai_api.Activity.Outcomes.{
  insert_if, on_media_status_changed, on_media_verdict_rendered, project_media, verdict_activity,
  verdict_event,
}
use notai_api.Activity.Projector.{Feed, Readers, filename_of, insert, insert_row, publish_created}
use notai_api.Activity.Types.{
  ActivityType, Event, media_ai_flagged, media_failed, media_human_verified, media_manual_review,
}
use notai_api.Base.{
  Bool, Bool-cases, List, Option, Option-cases, [], all_of, any_of, ap, arith, false, if◌then◌else◌,
  inl, inr, is_none, is_some, none, not, refl, some, subst, suc, true, zero, ℕ, ◌==◌, ◌∷◌, ◌≡◌, ◌⊎◌,
}
use notai_api.Base.Text.{Text}
use notai_api.Base.Values.{Time, Uuid}
use notai_api.Content.Types.{Label, ai_generated, human, other_label, uncertain}
use notai_api.Errors.{Result-cases}
use notai_api.Media.Types.{
  MediaEvent, MediaStatusChanged, MediaVerdictRendered, Status, Verdict, analyzed, failed,
  is_failed, media_status_changed, media_verdict_rendered,
}
use notai_api.Messaging.Dedup.{next_fault}

-- The kind of row for a verdict.
abbrev pub type_of_label : Option Label → Option ActivityType
type_of_label (some ai_generated) = some media_ai_flagged
type_of_label (some uncertain) = some media_manual_review
type_of_label (some human) = some media_human_verified
type_of_label (some (other_label t)) = none
type_of_label none = none

abbrev pub verdict_type : MediaVerdictRendered → Option ActivityType
verdict_type e = if is_failed e.status then some media_failed else type_of_label e.label

-- The kind of row that a media has to show.
abbrev pub outcome_type : Status → Option Verdict → Option ActivityType
outcome_type failed v = some media_failed
outcome_type analyzed (some v) = type_of_label (some v.label)
outcome_type _ _ = none

-- The verdicts that a list of events renders.
abbrev pub verdicts : List MediaEvent → List MediaVerdictRendered
verdicts [] = []
verdicts (media_verdict_rendered e ∷ es) = e ∷ verdicts es
verdicts (_ ∷ es) = verdicts es

abbrev pub listed : Option MediaVerdictRendered → List MediaVerdictRendered
listed none = []
listed (some e) = e ∷ []

abbrev Among : MediaVerdictRendered → List MediaVerdictRendered → Type 0
Among e [] = ⊥
Among e (x ∷ xs) = (e ≡ x) ⊎ Among e xs

-- A failure has no label, a verdict has one, and a change of status is not a failure.
abbrev pub is_sound : MediaEvent → Bool
is_sound (media_verdict_rendered e) =
    if is_failed e.status then is_none e.label else is_some e.label
is_sound (media_status_changed e) = not (is_failed e.status)
is_sound _ = true

module _ (r : Readers) where
  -- The handlers of an event.
  abbrev pub project : Time → MediaEvent → Feed → Feed
  project now (media_verdict_rendered e) f = (on_media_verdict_rendered r now (some e) f).0
  project now (media_status_changed e) f = (on_media_status_changed r now (some e) f).0
  project now _ f = f

  -- A delivery of the event at this position, if there is one.
  unfoldable pub deliver : Time → ℕ → List MediaEvent → Feed → Feed
  deliver now i [] f = f
  deliver now zero (e ∷ es) f = project now e f
  deliver now (suc i) (e ∷ es) f = deliver now i es f

  unfoldable pub deliver_all : List (Time × ℕ) → List MediaEvent → Feed → Feed
  deliver_all [] es f = f
  deliver_all ((now, i) ∷ ds) es f = deliver_all ds es (deliver now i es f)

  -- What a verdict that is projected does to the rows.
  abbrev Inserts : MediaVerdictRendered → Event → Feed → Feed → Type 0
  Inserts e x f g =
      (g.rows ≡ x ∷ f.rows)
      × (any_of (λ (y : Event). y.id == x.id) f.rows ≡ false)
      × (r.parse e.event_id ≡ some x.id)
      × (verdict_type e ≡ some x.type)

  pub publish_created-rows : (x : Event) (f : Feed) → (publish_created r x f).0.rows ≡ f.rows
  unfolding publish_created
  publish_created-rows x f = ground arith

  insert-rows :
      (now : Time) (x : Event) (f : Feed)
      → ((insert r now x f).0.rows ≡ f.rows)
        ⊎ ((y : Event) × ((insert r now x f).0.rows ≡ y ∷ f.rows)
            × (y.id ≡ x.id)
            × (y.type ≡ x.type)
            × (any_of (λ (z : Event). z.id == y.id) f.rows ≡ false))
  unfolding insert insert_row
  insert-rows now x f = elim (Bool-cases (next_fault f.faults)) [
    | inl b ↦ inl (ground arith)
    | inr b ↦ elim (Bool-cases (any_of (λ (z : Event). z.id == x.id) f.rows)) [
      | inl c ↦ inl (ground arith)
      | inr c ↦ inr (
        record x { occurred_at = if x.occurred_at == 0 then now else x.occurred_at },
        grind (arith, publish_created-rows),
        refl,
        refl,
        c,
      )
    ]
  ]

  pub verdict_event-type :
      (id client : Uuid) (name : Text) (e : MediaVerdictRendered) (x : Event)
      → verdict_event r id client name e ≡ some x
      → (x.id ≡ id) × (verdict_type e ≡ some x.type)
  unfolding verdict_event verdict_activity
  verdict_event-type id client name e x h = ground arith

  insert_if-rows :
      (now : Time) (e : MediaVerdictRendered) (id : Uuid) (o : Option Event) (f : Feed)
      → r.parse e.event_id ≡ some id
      → ((x : Event) → o ≡ some x → (x.id ≡ id) × (verdict_type e ≡ some x.type))
      → ((insert_if r now o f).0.rows ≡ f.rows)
        ⊎ ((x : Event) × Inserts e x f (insert_if r now o f).0)
  insert_if-rows now e id none f p h = inl refl
  insert_if-rows now e id (some x) f p h = elim (insert-rows now x f) [
    | inl q ↦ inl q
    | inr (y, q, a, b, c) ↦ inr (y, (q, c, cc (p, a, (h x refl).0), cc (b, (h x refl).1)))
  ]

  pub project_media-cases :
      (now : Time) (client id media : Uuid) (row_of : Uuid → Uuid → Text → Option Event) (f : Feed)
      → (((project_media r now client id media row_of f).0 ≡ f)
          × (is_some (project_media r now client id media row_of f).1 ≡ true))
        ⊎ ((i : Uuid) × (c : Uuid) × (n : Text) × (r.parse id ≡ some i)
            × (project_media r now client id media row_of f ≡ insert_if r now (row_of i c n) f))
  unfolding project_media
  project_media-cases now client id media row_of f = elim (Option-cases (r.parse client)) [
    | inl p ↦ inl (ground arith, ground arith)
    | inr (c, p) ↦ elim (Option-cases (r.parse id)) [
      | inl q ↦ inl (ground arith, ground arith)
      | inr (i, q) ↦ elim (Option-cases (r.parse media)) [
        | inl o ↦ inl (ground arith, ground arith)
        | inr (m, o) ↦ elim (Result-cases (filename_of r media m)) [
          | inl (x, w) ↦ inl (ground arith, ground arith)
          | inr (n, w) ↦ inr (i, c, n, q, ground arith)
        ]
      ]
    ]
  ]

  pub on_media_verdict_rendered-rows :
      (now : Time) (e : MediaVerdictRendered) (f : Feed)
      → ((on_media_verdict_rendered r now (some e) f).0.rows ≡ f.rows)
        ⊎ ((x : Event) × Inserts e x f (on_media_verdict_rendered r now (some e) f).0)
  unfolding on_media_verdict_rendered
  on_media_verdict_rendered-rows now e f =
      let row_of : Uuid → Uuid → Text → Option Event = λ i c n. verdict_event r i c n e in
      elim (project_media-cases now e.client_id e.event_id e.media_id row_of f) [
        | inl (q, a) ↦ inl (ap (λ (g : Feed). g.rows) q)
        | inr (i, c, n, p, q) ↦
            rw q (insert_if-rows now e i (row_of i c n) f p (verdict_event-type i c n e))
      ]

  on_media_status_changed-rows :
      (now : Time) (e : MediaStatusChanged) (f : Feed)
      → not (is_failed e.status) ≡ true
      → (on_media_status_changed r now (some e) f).0 ≡ f
  unfolding on_media_status_changed
  on_media_status_changed-rows now e f h = ground arith

  deliver-rows :
      (now : Time) (i : ℕ) (es : List MediaEvent) (f : Feed)
      → all_of is_sound es ≡ true
      → ((deliver now i es f).rows ≡ f.rows)
        ⊎ ((e : MediaVerdictRendered) × (x : Event) × Among e (verdicts es)
            × Inserts e x f (deliver now i es f))
  unfolding deliver
  deliver-rows now i [] f h = inl refl
  deliver-rows now zero (media_verdict_rendered e ∷ es) f h =
      elim (on_media_verdict_rendered-rows now e f) [
        | inl q ↦ inl q
        | inr (x, q) ↦ inr (e, x, inl refl, q)
      ]
  deliver-rows now zero (media_status_changed e ∷ es) f h =
      inl (ap (λ (g : Feed). g.rows) (on_media_status_changed-rows now e f (ground arith)))
  deliver-rows now zero (_ ∷ es) f h = inl refl
  deliver-rows now (suc i) (media_verdict_rendered e ∷ es) f h =
      elim (deliver-rows now i es f (ground arith)) [
        | inl q ↦ inl q
        | inr (e', x, m, q) ↦ inr (e', x, inr m, q)
      ]
  deliver-rows now (suc i) (_ ∷ es) f h = deliver-rows now i es f (ground arith)

  -- The rows that the feed with these rows may come to have, if this is the verdict.
  abbrev pub Shows : List Event → Option MediaVerdictRendered → Feed → Type 0
  Shows rows none f = f.rows ≡ rows
  Shows rows (some e) f =
      (f.rows ≡ rows)
      ⊎ ((x : Event) × (f.rows ≡ x ∷ rows)
          × (r.parse e.event_id ≡ some x.id)
          × (verdict_type e ≡ some x.type))

  deliver-Shows :
      (now : Time) (i : ℕ) (es : List MediaEvent) (o : Option MediaVerdictRendered)
      (rows : List Event) (f : Feed)
      → all_of is_sound es ≡ true
      → verdicts es ≡ listed o
      → Shows rows o f
      → Shows rows o (deliver now i es f)
  deliver-Shows now i es none rows f h v s = elim (deliver-rows now i es f h) [
    | inl q ↦ cc (q, s)
    | inr (e, x, m, q) ↦ absurd (subst (Among e) v m)
  ]
  deliver-Shows now i es (some a) rows f h v s = elim (deliver-rows now i es f h) [
    | inl q ↦ rw q s
    | inr (e, x, m, (p, c, k, t)) ↦ elim (subst (Among e) v m) [
      | inl w ↦ elim s [
        | inl z ↦ inr (x, cc (p, z), cc (k, w), cc (t, ap verdict_type w))
        | inr (y, z, k', t') ↦
            let has : List Event → Bool = any_of (λ (y : Event). y.id == x.id) in
            let c' = subst (λ (l : List Event). has l ≡ false) z c in
            let w' = ap (λ (e : MediaVerdictRendered). e.event_id) w in
            let same : x.id ≡ y.id = grind (arith, k, k', w') in absurd (ground (arith, c', same))
      ]
      | inr u ↦ absurd u
    ]
  ]

  pub deliver_all-Shows :
      (ds : List (Time × ℕ)) (es : List MediaEvent) (o : Option MediaVerdictRendered)
      (rows : List Event) (f : Feed)
      → all_of is_sound es ≡ true
      → verdicts es ≡ listed o
      → Shows rows o f
      → Shows rows o (deliver_all ds es f)
  unfolding deliver_all
  deliver_all-Shows [] es o rows f h v s = s
  deliver_all-Shows ((now, i) ∷ ds) es o rows f h v s =
      deliver_all-Shows ds es o rows (deliver now i es f) h v
        (deliver-Shows now i es o rows f h v s)
