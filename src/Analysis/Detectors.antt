-- ===== src/Analysis/Detectors.antt =====
-- internal/application/command/content/analyze_content.go: selectDetectors; IsExternal of
-- internal/domain/content/detector.go.
use native.Mathlib.Nat.{sub-zero}
use notai_api.Base.{
  Bool, Bool-cases, List, Option, [], arith, if◌then◌else◌, inl, inr, keep_if, leb, none, not, refl,
  some, subst, suc, take, zero, ℕ, ◌+◌, ◌-◌, ◌<◌, ◌∙◌, ◌∷◌, ◌≡◌,
}
use notai_api.Base.Float.{Float64}
use notai_api.Base.Int.{negsuc, pos, pos_part, ℤ}
use notai_api.Base.Text.{Text}
use notai_api.Errors.{Result, err, ok}

-- What selectDetectors reads of a Detector: Name, ExpectedWeight and IsExternal.
pub record Detector : Type 0 where
  pub name : Text
  pub expected_weight : Float64
  pub is_external : Bool

-- The loop, with the number of external detectors kept so far.
unfoldable pub select_from : ℕ → ℕ → List Detector → List Detector
select_from max kept [] = []
select_from max kept (d ∷ ds) =
    let drop = select_from max kept ds in
    let keep_external = d ∷ select_from max (kept + 1) ds in
    let keep_local = d ∷ drop in
    if d.is_external then (if leb max kept then drop else keep_external) else keep_local

-- maxExternal: the plan's limit, 0 if it is negative or the usage cannot be read.
unfoldable pub max_external : Result ℤ → ℕ
max_external (ok n) = pos_part n
max_external (err e) = 0

-- With no quota handler every detector is kept. Else `limit` is MaxDetectorsPerAnalysis of the
-- usage, or the error of reading it.
unfoldable pub select_detectors : Option (Result ℤ) → List Detector → List Detector
unfolding select_from max_external
select_detectors none ds = ds
select_detectors (some limit) ds = select_from (max_external limit) 0 ds

abbrev pub external_ones : List Detector → List Detector
external_ones = keep_if (λ d. d.is_external)

abbrev pub local_ones : List Detector → List Detector
local_ones = keep_if (λ d. not d.is_external)

-- A list with some elements left out.
pub data IsSubsequence : List Detector → List Detector → Type 0 where
  done : IsSubsequence [] []
  skip : {d : Detector} {xs ys : List Detector} → IsSubsequence xs ys → IsSubsequence xs (d ∷ ys)
  keep :
      {d : Detector} {xs ys : List Detector} → IsSubsequence xs ys → IsSubsequence (d ∷ xs) (d ∷ ys)

select_from-IsSubsequence :
    (max kept : ℕ) (ds : List Detector) → IsSubsequence (select_from max kept ds) ds
unfolding select_from
select_from-IsSubsequence max kept [] = done
select_from-IsSubsequence max kept (d ∷ ds) = elim (Bool-cases d.is_external) [
  | inl e ↦ elim (Bool-cases (leb max kept)) [
    | inl f ↦ rw e (rw f (skip (select_from-IsSubsequence max kept ds)))
    | inr f ↦ rw e (rw f (keep (select_from-IsSubsequence max (kept + 1) ds)))
  ]
  | inr e ↦ rw e (keep (select_from-IsSubsequence max kept ds))
]

select_from-local :
    (max kept : ℕ) (ds : List Detector) → local_ones (select_from max kept ds) ≡ local_ones ds
unfolding select_from
select_from-local max kept [] = refl
select_from-local max kept (d ∷ ds) =
    ground (arith, select_from-local max kept ds, select_from-local max (kept + 1) ds)

take-suc :
    (n : ℕ) (d : Detector) (ds : List Detector) → 0 < n → take n (d ∷ ds) ≡ d ∷ take (n - 1) ds
take-suc zero d ds h = elim h [ ]
take-suc (suc n) d ds h = let e : suc n - 1 ≡ n = omega arith in rw e refl

take-zero : (n : ℕ) (ds : List Detector) → n ≡ 0 → take n ds ≡ []
take-zero zero ds h = refl
take-zero (suc n) ds h = absurd (omega arith)

take-nil : (n : ℕ) → [] ≡ take {A = Detector} n []
take-nil zero = refl
take-nil (suc n) = refl

whole : (ds : List Detector) → IsSubsequence ds ds
whole [] = done
whole (d ∷ ds) = keep (whole ds)

select_from-external :
    (max kept : ℕ) (ds : List Detector)
    → external_ones (select_from max kept ds) ≡ take (max - kept) (external_ones ds)
unfolding select_from
select_from-external max kept [] = take-nil (max - kept)
select_from-external max kept (d ∷ ds) = ground (
  arith,
  select_from-external max kept ds,
  select_from-external max (kept + 1) ds,
  take-suc (max - kept) d (external_ones ds),
  take-zero (max - kept) (d ∷ external_ones ds),
  take-zero (max - kept) (external_ones ds),
)

-- The external detectors that this limit of a plan leaves, where a limit that cannot be read, or is
-- negative, leaves none.
abbrev pub allowed : Option (Result ℤ) → List Detector → List Detector
allowed none ds = ds
allowed (some (ok (pos n))) ds = take n ds
allowed (some (ok (negsuc n))) ds = []
allowed (some (err e)) ds = []

allowed-take : (r : Result ℤ) (ds : List Detector) → take (max_external r) ds ≡ allowed (some r) ds
unfolding max_external
allowed-take (ok (pos n)) ds = refl
allowed-take (ok (negsuc n)) ds = refl
allowed-take (err e) ds = refl

-- With a quota handler every local detector is kept, in order; of the external ones the first N
-- are kept, in order, for the plan's limit N (0 if it is negative or unknown); and nothing else is
-- added or reordered. Without one all detectors are kept.
pub select_detectors_lem :
    (limit : Option (Result ℤ)) (ds : List Detector)
    → let kept = select_detectors limit ds in
      (local_ones kept ≡ local_ones ds)
      × (external_ones kept ≡ allowed limit (external_ones ds))
      × IsSubsequence kept ds
unfolding select_detectors
select_detectors_lem none ds = (refl, refl, whole ds)
select_detectors_lem (some r) ds = (
  select_from-local (max_external r) 0 ds,
  subst (λ k. external_ones (select_from (max_external r) 0 ds) ≡ take k (external_ones ds))
        (sub-zero (max_external r)) (select_from-external (max_external r) 0 ds)
      ∙ allowed-take r (external_ones ds),
  select_from-IsSubsequence (max_external r) 0 ds,
)
