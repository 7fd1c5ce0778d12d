-- ===== src/Processing/Recover.antt =====
-- internal/application/command/media/recover_stale_processing.go. `at` is what time.Now() answers,
-- and `new_id` numbers the UUIDs that a call makes: one for each content in order, then one for the
-- media.
pub mod Decision
pub mod Failing
pub mod Requeue
pub mod Rounds
use notai_api.Analysis.MediaVerdict.{aggregate_media_verdict}
use notai_api.Base.{
  Bool, List, Option, [], false, if◌then◌else◌, length, ltb, map, none, not, some, true, ℕ, ◌&&◌,
  ◌*◌, ◌++◌, ◌+◌, ◌-◌, ◌==◌, ◌^◌, ◌∷◌,
}
use notai_api.Base.Int.{ltb_ℤ, pos, pos_part, ℤ}
use notai_api.Base.Text.{Text, codes}
use notai_api.Base.Values.{Time, Uuid}
use notai_api.Content.Entity.{
  Content, is_terminal, is_uploaded, mark_failed as mark_content_failed,
  pull_events as pull_content_events, requeue_analysis,
}
use notai_api.Database.{
  DomainEvent, M, Store, ask, checked, of_content, of_media, ret, with_transaction, write, ◌>>=◌,
  ◌>>◌,
}
use notai_api.Errors.{Result, err, ok}
use notai_api.Media.Entity.{Media, pull_events as pull_media_events}
use notai_api.Media.Transitions.{
  mark_failed as mark_media_failed, render_global_verdict, requeue_uploaded, touch,
}
use notai_api.Media.Types.{is_processing, is_video, processing}
use notai_api.Messaging.Relay.{store_events}

pub record RecoverStaleProcessingMediasResult : Type 0 where
  pub scanned : ℕ
  pub requeued : ℕ
  pub failed : ℕ
  pub errors : ℕ

-- The two durations and the batch size; a duration is in nanoseconds.
pub record RecoverStaleProcessingMediasHandler : Type 0 where
  pub stale_after : ℕ
  pub max_age : ℕ
  pub batch_size : ℕ

abbrev pub minute : ℕ
minute = 60 * 10 ^ 9

abbrev pub default_stale_after : ℕ
default_stale_after = 30 * minute

abbrev pub default_max_age : ℕ
default_max_age = 2 * 60 * minute

abbrev pub default_batch_size : ℕ
default_batch_size = 100

abbrev pub stale_fail_reason : Text
stale_fail_reason = codes "Media processing timed out"

-- `if d <= 0 { d = default }`
abbrev pub duration_or : ℤ → ℕ → ℕ
duration_or d default = if ltb_ℤ (pos 0) d then pos_part d else default

unfoldable pub new_recover_stale_processing_medias_handler :
    ℤ → ℤ → RecoverStaleProcessingMediasHandler
new_recover_stale_processing_medias_handler stale_after max_age = record {
  stale_after = duration_or stale_after default_stale_after;
  max_age = duration_or max_age default_max_age;
  batch_size = default_batch_size;
}

-- The variables of the loop in requeueMedia.
pub record Sweep : Type 0 where
  pub events : List DomainEvent
  pub did_work : Bool
  pub all_terminal : Bool

-- A content that never left the state uploaded.
abbrev pub is_stuck : Time → Content → Bool
is_stuck stale_before c = is_uploaded c.status && ltb c.updated_at stale_before

module _ {S : Type 0} (store : Store S) where
  -- Update of a media, and StoreEvents of what was collected before and what it pulls.
  unfoldable pub save_with : List DomainEvent → Media → M S (Unit {0})
  unfolding pull_media_events
  save_with events m = do
    write (store.update_media m)
    write (store.store_events (events ++ map of_media (pull_media_events m).1))

module _ {S : Type 0} (store : Store S) (at : Time) (new_id : ℕ → Uuid) where
  -- The loop in failMedia, which collects the events; n numbers the contents.
  unfoldable pub fail_contents : ℕ → List Content → M S (List DomainEvent)
  unfolding pull_content_events
  fail_contents n [] = ret []
  fail_contents n (c ∷ cs) =
      let rest = fail_contents (n + 1) cs in
      let fail_one = checked (mark_content_failed at (new_id n) c) >>= λ c'.
      write (store.update_content c') >> rest >>= λ events.
      ret (map of_content (pull_content_events c').1 ++ events) in
      if is_terminal c then rest else fail_one

  unfoldable pub fail_fresh : Option Media → M S (Unit {0})
  fail_fresh none = ret tt
  fail_fresh (some m) =
      if not (is_processing m.status)
      then ret tt
      else ask (store.list_by_media_id m.id) >>= λ cs. fail_contents 0 cs >>= λ events.
          checked (mark_media_failed stale_fail_reason at (new_id (length cs)) m)
          >>= save_with store events

  unfoldable pub fail_media : Uuid → M S (Unit {0})
  fail_media media_id =
      with_transaction store.commit (ask (store.get_media media_id) >>= fail_fresh)

  unfoldable pub requeue_contents : Time → ℕ → List Content → M S Sweep
  unfolding pull_content_events
  requeue_contents stale_before n [] =
      ret (record { events = []; did_work = false; all_terminal = true })
  requeue_contents stale_before n (c ∷ cs) =
      let rest = requeue_contents stale_before (n + 1) cs in
      let c' = requeue_analysis at (new_id n) c in
      let requeue_one = write (store.update_content c') >> rest >>= λ w. ret (record {
        events = map of_content (pull_content_events c').1 ++ w.events;
        did_work = true;
        all_terminal = false;
      }) in
      if is_terminal c
      then rest
      else if is_stuck stale_before c
      then requeue_one
      else rest >>= λ w. ret (record w { all_terminal = false })

  -- A media without contents.
  unfoldable pub requeue_empty : Media → M S Bool
  requeue_empty m =
      if not (is_video m.media_type)
      then checked (mark_media_failed stale_fail_reason at (new_id 0) m)
        >>= save_with store []
        >> ret true
      else checked (requeue_uploaded at (new_id 0) m) >>= save_with store [] >> ret true

  -- After the loop. Where all contents are terminal the loop has changed none of them.
  unfoldable pub requeue_after : Time → List Content → Media → Sweep → M S Bool
  requeue_after now cs m w =
      if w.all_terminal
      then checked (render_global_verdict (aggregate_media_verdict cs) at (new_id (length cs)) m)
        >>= save_with store w.events
        >> ret true
      else if not w.did_work
      then ret false
      else write (store.update_media (touch now at m))
        >> write (store.store_events w.events)
        >> ret true

  unfoldable pub requeue_over : Time → Time → Media → List Content → M S Bool
  requeue_over stale_before now m [] = requeue_empty m
  requeue_over stale_before now m (c ∷ cs) =
      requeue_contents stale_before 0 (c ∷ cs) >>= requeue_after now (c ∷ cs) m

  unfoldable pub requeue_fresh : Time → Time → Option Media → M S Bool
  requeue_fresh stale_before now none = ret false
  requeue_fresh stale_before now (some m) =
      if not (is_processing m.status)
      then ret false
      else ask (store.list_by_media_id m.id) >>= requeue_over stale_before now m

  unfoldable pub requeue_media : Time → Time → Uuid → M S Bool
  requeue_media stale_before now media_id =
      with_transaction store.commit
        (ask (store.get_media media_id) >>= requeue_fresh stale_before now)

-- What became of one media of a round.
pub data Treatment : Type 0 where
  treated_as_failed treated_as_requeued left_alone treated_with_error : Treatment

abbrev pub of_failing : Result (Unit {0}) → Treatment
of_failing (ok a) = treated_as_failed
of_failing (err e) = treated_with_error

abbrev pub of_requeueing : Result Bool → Treatment
of_requeueing (ok true) = treated_as_requeued
of_requeueing (ok false) = left_alone
of_requeueing (err e) = treated_with_error

unfoldable pub count_treatment :
    Treatment → RecoverStaleProcessingMediasResult → RecoverStaleProcessingMediasResult
count_treatment treated_as_failed r = record r { failed = r.failed + 1 }
count_treatment treated_as_requeued r = record r { requeued = r.requeued + 1 }
count_treatment left_alone r = r
count_treatment treated_with_error r = record r { errors = r.errors + 1 }

module _ {S : Type 0} (store : Store S) (at : Time) (new_id : Uuid → ℕ → Uuid) where
  -- The body of Handle's loop.
  unfoldable pub treat : Time → Time → Time → Media → S → Treatment × S
  treat stale_before cutoff now m s =
      let f = fail_media store at (new_id m.id) m.id s in
      let q = requeue_media store at (new_id m.id) stale_before now m.id s in
      if ltb m.created_at cutoff then (of_failing f.0, f.1) else (of_requeueing q.0, q.1)

  unfoldable pub treat_all :
      Time
      → Time
      → Time
      → List Media
      → RecoverStaleProcessingMediasResult
      → S
      → RecoverStaleProcessingMediasResult × S
  treat_all stale_before cutoff now [] r s = (r, s)
  treat_all stale_before cutoff now (m ∷ ms) r s =
      let (t, s') = treat stale_before cutoff now m s in
      treat_all stale_before cutoff now ms (count_treatment t r) s'

  -- A time never lies before 0, so that the differences may stop there.
  unfoldable pub recover_stale_processing :
      RecoverStaleProcessingMediasHandler → Time → M S RecoverStaleProcessingMediasResult
  recover_stale_processing h now s =
      let now' = if now == 0 then at else now in
      let stale_before = now' - h.stale_after in
      elim (store.list_processing_updated_before stale_before h.batch_size s) [
        | err e ↦ (err e, s)
        | ok medias ↦
            let start : RecoverStaleProcessingMediasResult = record {
              scanned = length medias;
              requeued = 0;
              failed = 0;
              errors = 0;
            } in
            let (r, s') = treat_all stale_before (now' - h.max_age) now' medias start s in
            (ok r, s')
      ]
