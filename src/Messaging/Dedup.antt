-- ===== src/Messaging/Dedup.antt =====
-- internal/application/event/dedup/with_dedup.go over the table of processed events
-- (internal/infrastructure/persistence/processed/repository.go).
pub mod AtMostOnce
use notai_api.Base.{
  Bool, List, Option, [], any_of, false, if◌then◌else◌, is_empty, keep_if, none, not, some, true,
  ◌&&◌, ◌==◌, ◌||◌, ◌∷◌,
}
use notai_api.Base.Text.{Text, text_eq}
use notai_api.Base.Values.{Uuid}
use notai_api.Errors.{Err, Result, err, external, missing_event_id, ok}
use notai_api.Messaging.Failure.{Answer, is_deferred, is_retryable, non_retryable, retryable}
use notai_api.Messaging.Registry.{Handler}

-- The table, with the results that the database still has in store for its calls (true is a
-- failure, and so on for ever with success), and the state that the handlers act on.
pub record Store (S : Type 0) : Type 0 where
  pub processed : List (Uuid × Text)
  pub faults : List Bool
  pub inner : S

abbrev pub is_entry : Uuid → Text → Uuid × Text → Bool
is_entry id name (i, n) = i == id && text_eq n name

-- A row with this primary key.
abbrev pub is_marked : Uuid → Text → List (Uuid × Text) → Bool
is_marked id name = any_of (is_entry id name)

abbrev pub without : Uuid → Text → List (Uuid × Text) → List (Uuid × Text)
without id name = keep_if (λ e. not (is_entry id name e))

abbrev pub next_fault : List Bool → Bool
next_fault [] = false
next_fault (b ∷ bs) = b

abbrev pub later_faults : List Bool → List Bool
later_faults [] = []
later_faults (b ∷ bs) = bs

abbrev pub outside_error : Err
outside_error = external []

-- `event_id_of` is the decoding of the field eventId (none: json.Unmarshal fails), and `parse` is
-- uuid.Parse, of packages outside the repository.
module _ {S : Type 0} {P : Type 0} (event_id_of : P → Option Text)
    (parse : Text → Option Uuid) where
  -- MarkProcessed, past the parsing: whether a row was inserted, or a database error.
  unfoldable pub mark_processed : Uuid → Text → Store S → Store S × Result Bool
  mark_processed id name d =
      let d' = record d { faults = later_faults d.faults } in
      if next_fault d.faults
      then (d', err outside_error)
      else if is_marked id name d.processed
      then (d', ok false)
      else (record d' { processed = (id, name) ∷ d.processed }, ok true)

  -- UnmarkProcessed; its error is ignored.
  unfoldable pub unmark_processed : Uuid → Text → Store S → Store S
  unmark_processed id name d =
      let d' = record d { faults = later_faults d.faults } in
      if next_fault d.faults then d' else record d' { processed = without id name d.processed }

  -- The wrapped handler runs once the row is in; a failure that asks for a retry takes it out.
  unfoldable pub run_marked : Uuid → Text → Handler S P → P → Store S → Store S × Answer
  unfolding unmark_processed
  run_marked id name next p d =
      let (s, a) = next p d.inner in
      let d' = record d { inner = s } in
      elim a [
        | none ↦ (d', none)
        | some f ↦
            (if is_retryable f || is_deferred f then unmark_processed id name d' else d', some f)
      ]

  unfoldable pub with_dedup : Text → Handler S P → Handler (Store S) P
  unfolding mark_processed
  with_dedup name next p d = elim (event_id_of p) [
    | none ↦ (d, some (non_retryable outside_error))
    | some i ↦ if is_empty i then (d, some (non_retryable missing_event_id)) else elim (parse i) [
      | none ↦ (d, some (retryable outside_error))
      | some id ↦
          let (d', r) = mark_processed id name d in
          elim r [
            | err e ↦ (d', some (retryable e))
            | ok false ↦ (d', none)
            | ok true ↦ run_marked id name next p d'
          ]
    ]
  ]

  -- The deliveries of a list of payloads, in turn.
  unfoldable pub deliver : Handler (Store S) P → List P → Store S → Store S
  deliver h [] d = d
  deliver h (p ∷ ps) d = deliver h ps (h p d).0
