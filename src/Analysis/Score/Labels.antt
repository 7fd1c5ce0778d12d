-- ===== src/Analysis/Score/Labels.antt =====
-- Which label the scoring of signals gives.
use mathlib.Core.List.{append-nil, append_assoc}
use notai_api.Analysis.Outcome.{Outcome, is_success}
use notai_api.Analysis.Score.{
  Sums, add_outcome, add_outcomes, aggregate, ai_score, compute_label, is_scoring, label_of_score,
  no_sums,
}
use notai_api.Base.{
  Bool, Bool-cases, List, [], any_of, arith, false, if◌then◌else◌, inl, inr, not, refl, sym, true,
  ◌&&◌, ◌++◌, ◌||◌, ◌↔◌, ◌∙◌, ◌∷◌, ◌≡◌,
}
use notai_api.Base.Float.{Float64, FloatArith, f_0_3, f_0_7, f_zero, ge, gt, is_nan}
use notai_api.Content.Types.{Signal, ai_generated, human}

-- A scoring signal whose weight reaches a bound.
abbrev pub reaches : Float64 → Signal → Bool
reaches c s = is_scoring s && ge s.weight c

-- A scoring signal whose weight is over a bound.
abbrev pub exceeds : Float64 → Signal → Bool
exceeds c s = is_scoring s && gt s.weight c

raise_ge :
    (b : Bool) (w a c : Float64)
    → is_nan a ≡ false
    → ge (if b && gt w a then w else a) c ≡ (ge a c || (b && ge w c))
unfolding gt ge
raise_ge b w a c n = ground arith

raise_nan :
    (b : Bool) (w a : Float64) → is_nan a ≡ false → is_nan (if b && gt w a then w else a) ≡ false
unfolding gt
raise_nan b w a n = ground arith

raise_gt :
    (b : Bool) (w a c : Float64)
    → is_nan a ≡ false
    → gt (if b && gt w a then w else a) c ≡ (gt a c || (b && gt w c))
unfolding gt
raise_gt b w a c n = ground arith

or_assoc : (a b c : Bool) → ((a || b) || c) ≡ (a || (b || c))
or_assoc true b c = refl
or_assoc false b c = refl

or_false : (a : Bool) → a ≡ (a || false)
or_false true = refl
or_false false = refl

abbrev raised : Signal → Float64 → Float64
raised s a = if is_scoring s && gt s.weight a then s.weight else a

ai_score_nan : (a : Float64) (ss : List Signal) → is_nan a ≡ false → is_nan (ai_score a ss) ≡ false
unfolding ai_score
ai_score_nan a [] n = n
ai_score_nan a (s ∷ ss) n = ai_score_nan (raised s a) ss (raise_nan (is_scoring s) s.weight a n)

-- The score reaches a bound exactly if it did at the start or a scoring signal does.
ge-ai_score :
    (a c : Float64) (ss : List Signal)
    → is_nan a ≡ false
    → ge (ai_score a ss) c ≡ (ge a c || any_of (reaches c) ss)
unfolding ai_score
ge-ai_score a c [] n = or_false _
ge-ai_score a c (s ∷ ss) n =
    ge-ai_score (raised s a) c ss (raise_nan (is_scoring s) s.weight a n)
    ∙ rw (raise_ge (is_scoring s) s.weight a c n)
        (or_assoc (ge a c) (is_scoring s && ge s.weight c) (any_of (reaches c) ss))

gt-ai_score :
    (a c : Float64) (ss : List Signal)
    → is_nan a ≡ false
    → gt (ai_score a ss) c ≡ (gt a c || any_of (exceeds c) ss)
unfolding ai_score
gt-ai_score a c [] n = or_false _
gt-ai_score a c (s ∷ ss) n =
    gt-ai_score (raised s a) c ss (raise_nan (is_scoring s) s.weight a n)
    ∙ rw (raise_gt (is_scoring s) s.weight a c n)
        (or_assoc (gt a c) (is_scoring s && gt s.weight c) (any_of (exceeds c) ss))

not_over : (x : Float64) → is_nan x ≡ false → ge f_0_3 x ≡ not (gt x f_0_3)
unfolding gt ge
not_over x n = ground arith

high_over : (x : Float64) → ge x f_0_7 ≡ true → gt x f_0_3 ≡ true
unfolding gt ge
high_over x h = ground arith

label_cases :
    (fl : FloatArith) (x : Float64)
    → is_nan x ≡ false
    → (((label_of_score fl x).0 ≡ ai_generated) ↔ (ge x f_0_7 ≡ true))
      × (((label_of_score fl x).0 ≡ human) ↔ (gt x f_0_3 ≡ false))
unfolding label_of_score
label_cases fl x n = ground (arith, not_over x n, high_over x)

-- The label is ai_generated exactly if some scoring signal weighs 0.7 or more, and human exactly if
-- no scoring signal weighs more than 0.3; NaN weights and signals of type meta count for neither.
compute_label_lem :
    (fl : FloatArith) (ss : List Signal)
    → (((compute_label fl ss).0 ≡ ai_generated) ↔ (any_of (reaches f_0_7) ss ≡ true))
      × (((compute_label fl ss).0 ≡ human) ↔ (any_of (exceeds f_0_3) ss ≡ false))
unfolding compute_label ge gt
compute_label_lem fl ss =
    let c = label_cases fl (ai_score f_zero ss) (ai_score_nan f_zero ss refl) in
    rw (← ge-ai_score f_zero f_0_7 ss refl) (rw (← gt-ai_score f_zero f_0_3 ss refl) c)

-- The signals of the successful outcomes, in order.
abbrev pub success_signals : List Outcome → List Signal
success_signals [] = []
success_signals (r ∷ rs) =
    if is_success r.status then r.signals ++ success_signals rs else success_signals rs

signals-add_outcomes :
    (fl : FloatArith) (s : Sums) (rs : List Outcome)
    → (add_outcomes fl s rs).signals ≡ s.signals ++ success_signals rs
unfolding add_outcomes
signals-add_outcomes fl s [] = sym (append-nil s.signals)
signals-add_outcomes fl s (r ∷ rs) = elim (Bool-cases (is_success r.status)) [
  | inl e ↦
      signals-add_outcomes fl (add_outcome fl s r) rs
      ∙ rw (e, add_outcome) (append_assoc s.signals r.signals (success_signals rs))
  | inr e ↦ signals-add_outcomes fl (add_outcome fl s r) rs ∙ rw (e, add_outcome) refl
]

-- The verdict of a content looks at the signals of the successful outcomes alone: it is
-- ai_generated exactly if a scoring one of these weighs 0.7 or more, and human exactly if none
-- weighs more than 0.3.
pub aggregate_lem :
    (fl : FloatArith) (rs : List Outcome)
    → (((aggregate fl rs).label ≡ ai_generated)
        ↔ (any_of (reaches f_0_7) (success_signals rs) ≡ true))
      × (((aggregate fl rs).label ≡ human) ↔ (any_of (exceeds f_0_3) (success_signals rs) ≡ false))
unfolding aggregate
aggregate_lem fl rs =
    rw (← signals-add_outcomes fl no_sums rs)
      (compute_label_lem fl (add_outcomes fl no_sums rs).signals)
