-- ===== src/Analysis/MediaVerdict/Counts.antt =====
-- What the verdict of a media says of its contents.
use notai_api.Analysis.MediaVerdict.{Tally, aggregate_media_verdict, count_content, no_tally, tally}
use notai_api.Base.{
  Bool, List, Option, [], arith, count_if, false, length, none, not, refl, some, true, ◌&&◌, ◌+◌,
  ◌<◌, ◌↔◌, ◌∷◌, ◌≡◌, ◌≤◌,
}
use notai_api.Content.Entity.{Content, is_failed}
use notai_api.Content.Types.{Label, ai_generated, human, uncertain}

-- A content whose analysis failed.
abbrev pub has_failed : Content → Bool
has_failed c = is_failed c.status

abbrev pub says_ai : Option Label → Bool
says_ai (some ai_generated) = true
says_ai _ = false

abbrev pub says_nothing : Option Label → Bool
says_nothing (some uncertain) = true
says_nothing none = true
says_nothing _ = false

-- A content that was found to be generated.
abbrev pub is_flagged : Content → Bool
is_flagged c = not (has_failed c) && says_ai c.label

-- A content that was analyzed with no clear answer.
abbrev pub is_unclear : Content → Bool
is_unclear c = not (has_failed c) && says_nothing c.label

pub flagged-tally :
    (t : Tally) (cs : List Content) → (tally t cs).flagged ≡ t.flagged + count_if is_flagged cs
unfolding tally
flagged-tally t [] = omega arith
flagged-tally t (c ∷ cs) = ground (arith, flagged-tally (count_content t c) cs)

pub failed-tally :
    (t : Tally) (cs : List Content) → (tally t cs).failed ≡ t.failed + count_if has_failed cs
unfolding tally
failed-tally t [] = omega arith
failed-tally t (c ∷ cs) = ground (arith, failed-tally (count_content t c) cs)

pub unclear-tally :
    (t : Tally) (cs : List Content) → (tally t cs).uncertain ≡ t.uncertain + count_if is_unclear cs
unfolding tally
unclear-tally t [] = omega arith
unclear-tally t (c ∷ cs) = ground (arith, unclear-tally (count_content t c) cs)

apart : (cs : List Content) → count_if is_flagged cs + count_if has_failed cs ≤ length cs
apart [] = omega arith
apart (c ∷ cs) = ground (arith, apart cs)

-- The counts of a verdict are those of the contents: all of them, the failed ones, and the flagged
-- ones among the others; so flagged and failed together are at most the total.
pub aggregate_media_verdict_counts :
    (cs : List Content)
    → let v = aggregate_media_verdict cs in
      (v.total_count ≡ length cs)
      × (v.flagged_count ≡ count_if is_flagged cs)
      × (v.failed_count ≡ count_if has_failed cs)
      × (v.flagged_count + v.failed_count ≤ v.total_count)
unfolding aggregate_media_verdict
aggregate_media_verdict_counts cs =
    let p = flagged-tally no_tally cs in
    let q = failed-tally no_tally cs in
    (refl, omega (arith, p), omega (arith, q), omega (arith, p, q, apart cs))

-- The label is ai_generated exactly if a content is flagged, human exactly if no content is
-- flagged, failed or unclear, and uncertain exactly in the other cases.
pub aggregate_media_verdict_label :
    (cs : List Content)
    → let l = (aggregate_media_verdict cs).label in
      ((l ≡ ai_generated) ↔ (0 < count_if is_flagged cs))
      × ((l ≡ human)
          ↔ (count_if is_flagged cs + count_if has_failed cs + count_if is_unclear cs ≡ 0))
      × ((l ≡ uncertain)
          ↔ ((count_if is_flagged cs ≡ 0) × (0 < count_if has_failed cs + count_if is_unclear cs)))
unfolding aggregate_media_verdict
aggregate_media_verdict_label cs =
    ground (arith, flagged-tally no_tally cs, failed-tally no_tally cs, unclear-tally no_tally cs)
