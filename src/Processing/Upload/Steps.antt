-- ===== src/Processing/Upload/Steps.antt =====
-- The methods of entities that an upload calls, where they succeed.
use notai_api.Analysis.Finalize.{Replaces}
use notai_api.Base.{arith, false, inl, inr, is_empty, none, refl, some, true, ◌<◌, ◌≡◌}
use notai_api.Base.Int.{ℤ}
use notai_api.Base.Text.{Text, trim_space}
use notai_api.Base.Values.{Time, Uuid}
use notai_api.Content.Entity.{Content, at_least_0, new_from_media}
use notai_api.Errors.{Result-cases, ok}
use notai_api.Media.Entity.{Media}
use notai_api.Media.Transitions.{mark_failed, mark_uploaded, start_processing}
use notai_api.Media.Types.{failed, is_pending, processing, uploaded}
use notai_api.Quota.Usage.{found}

pub mark_failed-pending :
    (reason : Text) (at : Time) (eid : Uuid) (m : Media)
    → is_pending m.status ≡ true
    → let m' = (mark_failed reason at eid m).0 in
      (mark_failed reason at eid m ≡ (m', none))
      × Replaces m' m
      × (m'.status ≡ failed)
      × (m'.failure_reason ≡ trim_space reason)
unfolding mark_failed
mark_failed-pending reason at eid m h = ground arith

pub mark_uploaded-ok :
    (size : ℤ) (content_type : Text) (at : Time) (eid : Uuid) (m : Media)
    → is_pending m.status ≡ true
    → let m' = (mark_uploaded size content_type at eid m).0 in
      (mark_uploaded size content_type at eid m ≡ (m', none))
      × Replaces m' m
      × (m'.object_key ≡ m.object_key)
      × (m'.status ≡ uploaded)
      × (m'.size_bytes ≡ some (at_least_0 size))
unfolding mark_uploaded
mark_uploaded-ok size content_type at eid m h =
    rw h (refl, (refl, refl, refl, refl), refl, refl, refl)

pub start_processing-ok :
    (at : Time) (eid1 eid2 : Uuid) (m : Media)
    → m.status ≡ uploaded
    → let m' = (start_processing at eid1 eid2 m).0 in
      (start_processing at eid1 eid2 m ≡ (m', none))
      × Replaces m' m
      × (m'.object_key ≡ m.object_key)
      × (m'.status ≡ processing)
      × (m'.size_bytes ≡ m.size_bytes)
unfolding start_processing
start_processing-ok at eid1 eid2 m h = rw h (refl, (refl, refl, refl, refl), refl, refl, refl)

pub new_from_media-ok :
    (i campaign client : Uuid) (key : Text) (size : ℤ) (thumbnail : Text) (at : Time)
    (id eid1 eid2 : Uuid)
    → 0 < i
    → is_empty (trim_space key) ≡ false
    → (c : Content) × (new_from_media i campaign client key none none size thumbnail at id eid1 eid2
        ≡ ok c)
unfolding new_from_media
new_from_media-ok i campaign client key size thumbnail at id eid1 eid2 z h =
    elim (Result-cases
      (new_from_media i campaign client key none none size thumbnail at id eid1 eid2)) [
        | inl (e, p) ↦ ground arith
        | inr found ↦ found
      ]
