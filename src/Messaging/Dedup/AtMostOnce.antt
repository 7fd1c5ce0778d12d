-- ===== src/Messaging/Dedup/AtMostOnce.antt =====
-- How often a wrapped handler does its work for one event.
use notai_api.Base.{
  Bool, List, Option, Option-cases, [], arith, false, if◌then◌else◌, inl, inr, is_empty, is_none,
  none, refl, some, true, ℕ, ◌&&◌, ◌+◌, ◌<◌, ◌==◌, ◌∷◌, ◌≡◌, ◌≤◌,
}
use notai_api.Base.Text.{Text, text_eq, text_eq_iff}
use notai_api.Base.Values.{Uuid}
use notai_api.Messaging.Dedup.{
  Store, deliver, is_marked, later_faults, run_marked, with_dedup, without,
}
use notai_api.Messaging.Failure.{Answer, deferred, retryable}
use notai_api.Messaging.Registry.{Handler}

is_marked-without_other :
    (i j : Uuid) (n m : Text) (t : List (Uuid × Text))
    → (i == j && text_eq n m) ≡ false
    → is_marked i n (without j m t) ≡ is_marked i n t
is_marked-without_other i j n m [] h = refl
is_marked-without_other i j n m ((k, o) ∷ t) h =
    ground (
      arith,
      is_marked-without_other i j n m t h,
      text_eq_iff n m,
      text_eq_iff o n,
      text_eq_iff o m,
    )

is_marked_head : (i : Uuid) (n : Text) (t : List (Uuid × Text)) → is_marked i n ((i, n) ∷ t) ≡ true
is_marked_head i n t = ground (arith, (text_eq_iff n n).1 refl)

module _ {P : Type 0} (event_id_of : P → Option Text) (parse : Text → Option Uuid) where
  -- The payload carries this event.
  abbrev pub carries : Uuid → P → Bool
  carries id p = elim (event_id_of p) [
    | none ↦ false
    | some i ↦ elim (parse i) [ none ↦ false | some j ↦ id == j ]
  ]

  -- A handler that also counts its successful runs for one event.
  abbrev pub counting : {S : Type 0} → Uuid → Handler S P → Handler (S × ℕ) P
  counting id next p (s, n) =
      let (s', a) = next p s in ((s', if is_none a && carries id p then n + 1 else n), a)

-- At most one run has succeeded, and after one the row is in the table.
pub record Once {S : Type 0} (id : Uuid) (name : Text) (d : Store (S × ℕ)) : Type 0 where
  pub once : d.inner.1 ≤ 1
  pub marked : 0 < d.inner.1 → is_marked id name d.processed ≡ true

module _ {S : Type 0} {P : Type 0} (event_id_of : P → Option Text) (parse : Text → Option Uuid)
    (id : Uuid) (name : Text) (next : Handler S P) where
  run_marked-Once :
      (j : Uuid) (p : P) (d : Store (S × ℕ))
      → carries event_id_of parse id p ≡ (id == j)
      → is_marked j name d.processed ≡ false
      → Once id name d
      → Once id name
          (run_marked event_id_of parse j name
            (counting event_id_of parse id next)
            p
            (record d { processed = (j, name) ∷ d.processed })).0
  unfolding run_marked
  run_marked-Once j p d c f h = ground (
    arith,
    is_marked_head j name d.processed,
    is_marked_head id name d.processed,
    is_marked-without_other id j name name d.processed,
    is_marked-without_other id j name name ((j, name) ∷ d.processed),
    (text_eq_iff name name).1 refl,
  )

  with_dedup-Once :
      (p : P) (d : Store (S × ℕ))
      → Once id name d
      → Once id name (with_dedup event_id_of parse name (counting event_id_of parse id next) p d).0
  unfolding with_dedup
  with_dedup-Once p d h = elim (Option-cases (event_id_of p)) [
    | inl e ↦ ground arith
    | inr (i, e) ↦ elim (Option-cases (parse i)) [
      | inl f ↦ ground arith
      | inr (j, f) ↦
          ground (arith, run_marked-Once j p (record d { faults = later_faults d.faults }))
    ]
  ]

  deliver-Once :
      (ps : List P) (d : Store (S × ℕ))
      → Once id name d
      → Once id name (
          deliver event_id_of parse
            (with_dedup event_id_of parse name (counting event_id_of parse id next))
            ps
            d)
  unfolding deliver
  deliver-Once [] d h = h
  deliver-Once (p ∷ ps) d h = deliver-Once ps _ (with_dedup-Once p d h)

  -- Whatever payloads are delivered to a wrapped handler, in whatever order and however often, and
  -- whichever of the database's calls fail, at most one run for a given event succeeds.
  pub with_dedup_at_most_once :
      (ps : List P) (table : List (Uuid × Text)) (faults : List Bool) (s : S)
      → (deliver event_id_of parse
          (with_dedup event_id_of parse name (counting event_id_of parse id next))
          ps
          (record { processed = table; faults = faults; inner = (s, 0) })).inner.1
        ≤ 1
  with_dedup_at_most_once ps table faults s =
      (deliver-Once ps (record { processed = table; faults = faults; inner = (s, 0) })
        (record { once = omega arith; marked = λ h. absurd (omega arith) })).once

-- The failures for which the row is taken out again.
abbrev pub asks_again : Answer → Bool
asks_again (some (retryable e)) = true
asks_again (some (deferred e)) = true
asks_again _ = false

-- What a second delivery of a payload does, whose event id can be read and parsed, when no event
-- is in the table yet and the database does not fail, by how the first run ended: a success or a
-- failure that is neither retryable nor deferred is final, and the handler is not run again;
-- after the other failures it is run again.
pub with_dedup_again :
    {S : Type 0} {P : Type 0} (event_id_of : P → Option Text) (parse : Text → Option Uuid)
    (name : Text) (next : Handler S P) (p : P) (i : Text) (j : Uuid) (s : S)
    → event_id_of p ≡ some i
    → is_empty i ≡ false
    → parse i ≡ some j
    → let h = with_dedup event_id_of parse name next in
      let fresh : Store S = record { processed = []; faults = []; inner = s } in
      let first = next p s in
      let (d', a') = h p (h p fresh).0 in
      ((h p fresh).1 ≡ first.1)
      × (d'.inner ≡ (if asks_again first.1 then (next p first.0).0 else first.0))
      × (a' ≡ (if asks_again first.1 then (next p first.0).1 else none))
unfolding with_dedup run_marked
with_dedup_again event_id_of parse name next p i j s e f g =
    ground (arith, (text_eq_iff name name).1 refl)
