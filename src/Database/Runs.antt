-- ===== src/Database/Runs.antt =====
-- Runs that report no error, taken apart.
use notai_api.Base.{
  Bool, Option, ap, arith, false, if◌then◌else◌, inl, inr, none, refl, some, true, ◌≡◌, ◌⊎◌,
}
use notai_api.Database.{M, and_then, checked, fail_with, reported, settled, write, written}
use notai_api.Errors.{Err, Result, Result-cases, err, ok}

module _ {S : Type 0} where
  -- A computation answers a value and leaves the database in a state.
  abbrev pub Runs : {A : Type 0} → M S A → S → A → S → Type 0
  Runs m s a t = m s ≡ (ok a, t)

  pub and_then-Runs :
      {A B : Type 0} (r : Result A × S) (f : A → M S B) {b : B} {u : S}
      → and_then r f ≡ (ok b, u)
      → (a : A) × (t : S) × (r ≡ (ok a, t)) × Runs (f a) t b u
  and_then-Runs (err e, t) f h = ground arith
  and_then-Runs (ok a, t) f h = (a, t, refl, h)

  written-Runs : (r : Result S) (s : S) {x : Unit {0}} {t : S} → written r s ≡ (ok x, t) → r ≡ ok t
  written-Runs (err e) s h = ground arith
  written-Runs (ok u) s h = ground arith

  pub write-Runs :
      (w : S → Result S) {s : S} {x : Unit {0}} {t : S} → Runs (write w) s x t → w s ≡ ok t
  write-Runs w {s} h = written-Runs (w s) s h

  pub reported-Runs :
      {A : Type 0} (e : Err) (r : Result A × S) {a : A} {t : S}
      → reported e r ≡ (ok a, t)
      → r ≡ (ok a, t)
  reported-Runs e (err f, s) h = ground arith
  reported-Runs e (ok b, s) h = h

  -- A transaction leaves the database as it was, or its body has run and is committed.
  pub settled-cases :
      {A : Type 0} (commit : S → Result S) (r : Result A × S) (s : S)
      → ((settled commit r s).1 ≡ s)
        ⊎ ((a : A) × (t : S) × (u : S) × (r ≡ (ok a, t))
            × (commit t ≡ ok u)
            × (settled commit r s ≡ (ok a, u)))
  settled-cases commit (err e, t) s = inl refl
  settled-cases commit (ok a, t) s = elim (Result-cases (commit t)) [
    | inl (e, p) ↦ inl (rw (p, settled) refl)
    | inr (u, p) ↦ inr (a, t, u, refl, p, rw (p, settled) refl)
  ]

  pub settled-Runs :
      {A : Type 0} (commit : S → Result S) (r : Result A × S) (s : S) {a : A} {u : S}
      → settled commit r s ≡ (ok a, u)
      → (t : S) × (r ≡ (ok a, t)) × (commit t ≡ ok u)
  settled-Runs commit (err e, t) s h = absurd (ground (arith, h))
  settled-Runs commit (ok b, t) s h = elim (Result-cases (commit t)) [
    | inl (e, p) ↦ absurd (ground (arith, h, p))
    | inr (v, p) ↦ (t, ground (arith, h, p), ground (arith, h, p))
  ]

  pub chosen-Runs :
      {A : Type 0} (b : Bool) (m n : M S A) {s : S} {a : A} {t : S}
      → Runs (if b then m else n) s a t
      → ((b ≡ true) × Runs m s a t) ⊎ ((b ≡ false) × Runs n s a t)
  chosen-Runs true m n h = inl (refl, h)
  chosen-Runs false m n h = inr (refl, h)

  pub end-of :
      {A : Type 0} {r : Result A} {a : A} {s t : S}
      → ◌≡◌ {A = Result A × S} (r, s) (ok a, t)
      → s ≡ t
  end-of {A} h = ap (λ (r : Result A × S). r.1) h

  pub value-of :
      {A : Type 0} {a b : A} {s t : S} → ◌≡◌ {A = Result A × S} (ok a, s) (ok b, t) → a ≡ b
  value-of h = ground arith

  -- A computation that fails does not run.
  pub fails-not : {A : Type 0} {e : Err} {a : A} {s t : S} → Runs (fail_with e) s a t → ⊥
  fails-not h = ground arith

  pub checked-Runs :
      {A : Type 0} (r : A × Option Err) {s t : S} {a : A}
      → checked r s ≡ (ok a, t)
      → (r.0 ≡ a) × (s ≡ t)
  checked-Runs (a, none) h = (value-of h, end-of h)
  checked-Runs (a, some e) h = absurd (fails-not h)
