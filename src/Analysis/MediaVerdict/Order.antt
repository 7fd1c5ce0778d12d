-- ===== src/Analysis/MediaVerdict/Order.antt =====
-- The verdict of a media does not depend on the order in which its contents are listed.
use mathlib.Core.List.{Permᴰ}
use notai_api.Analysis.MediaVerdict.{Tally, aggregate_media_verdict, no_tally, tally}
use notai_api.Analysis.MediaVerdict.Counts.{
  failed-tally, flagged-tally, has_failed, is_flagged, is_unclear, unclear-tally,
}
use notai_api.Base.{Bool, List, ap, arith, count_if, length, refl, suc, ◌∙◌, ◌≡◌}
use notai_api.Content.Entity.{Content}

count_if-perm :
    (p : Content → Bool) {xs ys : List Content} → Permᴰ xs ys → count_if p xs ≡ count_if p ys
count_if-perm p Permᴰ.nil = refl
count_if-perm p (Permᴰ.cons e d) = rw e (rw (count_if-perm p d) refl)
count_if-perm p (Permᴰ.swap {a} {b} e f) = rw (e, f) (omega arith)
count_if-perm p (Permᴰ.trans d d') = count_if-perm p d ∙ count_if-perm p d'

length-perm : {xs ys : List Content} → Permᴰ xs ys → length xs ≡ length ys
length-perm Permᴰ.nil = refl
length-perm (Permᴰ.cons e d) = ap suc (length-perm d)
length-perm (Permᴰ.swap e f) = refl
length-perm (Permᴰ.trans d d') = length-perm d ∙ length-perm d'

Tally-ext :
    (t u : Tally) → t.flagged ≡ u.flagged → t.failed ≡ u.failed → t.uncertain ≡ u.uncertain → t ≡ u
Tally-ext t u a b c = cc (a, b, c)

tally-perm : {xs ys : List Content} → Permᴰ xs ys → tally no_tally xs ≡ tally no_tally ys
tally-perm {xs} {ys} d =
    let t = tally no_tally xs in
    let u = tally no_tally ys in
    let a : t.flagged ≡ u.flagged =
      omega
        (arith, flagged-tally no_tally xs, flagged-tally no_tally ys, count_if-perm is_flagged d) in
    let b : t.failed ≡ u.failed =
      omega
        (arith, failed-tally no_tally xs, failed-tally no_tally ys, count_if-perm has_failed d) in
    let c : t.uncertain ≡ u.uncertain =
      omega
        (arith, unclear-tally no_tally xs, unclear-tally no_tally ys, count_if-perm is_unclear d) in
    Tally-ext t u a b c

-- Two listings of the same contents, in any order, give the same verdict.
pub aggregate_media_verdict-perm :
    {xs ys : List Content} → Permᴰ xs ys → aggregate_media_verdict xs ≡ aggregate_media_verdict ys
unfolding aggregate_media_verdict
aggregate_media_verdict-perm {xs} {ys} d = rw (tally-perm d, length-perm d) refl
