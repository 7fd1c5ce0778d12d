-- ===== src/Processing/Recover/Rounds.antt =====
-- Handle: the numbers that a round reports.
use notai_api.Base.{
  Bool, Bool-cases, List, [], arith, count_if, if◌then◌else◌, inl, inr, length, ltb, not, refl, ℕ,
  ◌+◌, ◌-◌, ◌==◌, ◌∙◌, ◌∷◌, ◌≡◌, ◌≤◌,
}
use notai_api.Base.Values.{Time, Uuid}
use notai_api.Database.{Store}
use notai_api.Errors.{Result-cases, ok}
use notai_api.Media.Entity.{Media}
use notai_api.Processing.Recover.{
  RecoverStaleProcessingMediasHandler, RecoverStaleProcessingMediasResult, count_treatment,
  fail_media, recover_stale_processing, requeue_media, treat, treat_all,
}

-- The media is older than the maximal age.
abbrev pub is_too_old : Time → Media → Bool
is_too_old cutoff m = ltb m.created_at cutoff

-- What a loop over these medias may add to the numbers.
abbrev pub Within :
    Time
    → List Media
    → RecoverStaleProcessingMediasResult
    → RecoverStaleProcessingMediasResult
    → Type 0
Within cutoff ms r r' =
    (r'.scanned ≡ r.scanned)
    × (r'.failed ≤ r.failed + count_if (is_too_old cutoff) ms)
    × (r'.requeued ≤ r.requeued + count_if (λ m. not (is_too_old cutoff m)) ms)
    × (r'.requeued + r'.failed + r'.errors ≤ r.requeued + r.failed + r.errors + length ms)

Within-step :
    (cutoff : Time) (m : Media) (ms : List Media) (r r' r'' : RecoverStaleProcessingMediasResult)
    → Within cutoff (m ∷ []) r r'
    → Within cutoff ms r' r''
    → Within cutoff (m ∷ ms) r r''
Within-step cutoff m ms r r' r'' (a, b, c, d) (a', b', c', d') =
    (a' ∙ a, omega (arith, b, b'), omega (arith, c, c'), omega (arith, d, d'))

module _ {S : Type 0} (store : Store S) (at : Time) (new_id : Uuid → ℕ → Uuid) where
  treat-counts :
      (stale_before cutoff now : Time) (m : Media) (r : RecoverStaleProcessingMediasResult) (s : S)
      → Within cutoff
          (m ∷ [])
          r
          (count_treatment (treat store at new_id stale_before cutoff now m s).0 r)
  unfolding treat count_treatment
  treat-counts stale_before cutoff now m r s = elim (Bool-cases (is_too_old cutoff m)) [
    | inl e ↦ elim (Result-cases (fail_media store at (new_id m.id) m.id s).0) [
      | inl (x, p) ↦ rw (e, p) (omega arith)
      | inr (x, p) ↦ rw (e, p) (omega arith)
    ]
    | inr e ↦ elim (Result-cases (requeue_media store at (new_id m.id) stale_before now m.id s).0) [
      | inl (x, p) ↦ rw (e, p) (omega arith)
      | inr (x, p) ↦ elim (Bool-cases x) [
        | inl q ↦ rw (e, p, q) (omega arith)
        | inr q ↦ rw (e, p, q) (omega arith)
      ]
    ]
  ]

  treat_all-counts :
      (stale_before cutoff now : Time) (ms : List Media) (r : RecoverStaleProcessingMediasResult)
      (s : S)
      → Within cutoff ms r (treat_all store at new_id stale_before cutoff now ms r s).0
  unfolding treat_all
  treat_all-counts stale_before cutoff now [] r s = omega arith
  treat_all-counts stale_before cutoff now (m ∷ ms) r s =
      let t = treat store at new_id stale_before cutoff now m s in
      let a = treat-counts stale_before cutoff now m r s in
      let b = treat_all-counts stale_before cutoff now ms (count_treatment t.0 r) t.1 in
      Within-step cutoff m ms r (count_treatment t.0 r)
        (treat_all store at new_id stale_before cutoff now ms (count_treatment t.0 r) t.1).0 a b

  -- A round whose stale medias can be listed reports their number as scanned; it reports as failed at
  -- most those that are older than the maximal age, as requeued at most the others, and as failed,
  -- requeued or in error together at most all of them.
  recover_stale_processing_counts :
      (h : RecoverStaleProcessingMediasHandler) (now : Time) (ms : List Media) (s : S)
      → let now' = if now == 0 then at else now in
        let old = is_too_old (now' - h.max_age) in
        store.list_processing_updated_before (now' - h.stale_after) h.batch_size s ≡ ok ms
        → (r : RecoverStaleProcessingMediasResult) × ((recover_stale_processing store at new_id h
              now s).0
            ≡ ok r)
          × (r.scanned ≡ length ms)
          × (r.failed ≤ count_if old ms)
          × (r.requeued ≤ count_if (λ m. not (old m)) ms)
          × (r.requeued + r.failed + r.errors ≤ length ms)
  unfolding recover_stale_processing
  recover_stale_processing_counts h now ms s l =
      let now' = if now == 0 then at else now in
      let stale_before = now' - h.stale_after in
      let cutoff = now' - h.max_age in
      let start : RecoverStaleProcessingMediasResult = record {
        scanned = length ms;
        requeued = 0;
        failed = 0;
        errors = 0;
      } in
      let (a, b, c, d) = treat_all-counts stale_before cutoff now' ms start s in
      (
        (treat_all store at new_id stale_before cutoff now' ms start s).0,
        rw (recover_stale_processing, l) refl,
        a,
        omega (arith, b),
        omega (arith, c),
        omega (arith, d),
      )
