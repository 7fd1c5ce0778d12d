-- ===== src/Messaging/Consumer/Settling.antt =====
-- How a delivery ends, and how often a message is delivered.
use notai_api.Base.{
  Bool, Option, any_of, ap, arith, count_if, false, if◌then◌else◌, is_none, none, not, refl, some,
  suc, true, zero, ℕ, ◌&&◌, ◌+◌, ◌-◌, ◌<◌, ◌≡◌, ◌≤◌,
}
use notai_api.Base.Float.{Float64}
use notai_api.Base.Int.{leb_ℤ, pos, ℤ}
use notai_api.Errors.{Err}
use notai_api.Messaging.Consumer.{
  Action, Envelope, XDeath, ack, handle_delivery, nack, publish_dlq, retry_count, settle,
}
use notai_api.Messaging.Failure.{Answer, deferred, non_retryable, retryable, unclassified}
use notai_api.Messaging.Registry.{Registry, dispatch}

abbrev pub is_settling : Action → Bool
is_settling ack = true
is_settling nack = true
is_settling (publish_dlq t) = false

abbrev pub is_dlq : Action → Bool
is_dlq (publish_dlq t) = true
is_dlq _ = false

abbrev pub is_nack : Action → Bool
is_nack nack = true
is_nack _ = false

-- The answer of the handlers to a decoded body.
abbrev pub answer_to : {S P : Type 0} → Registry S P → Envelope P → S → Answer
answer_to r e s = (dispatch r e.event_type e.payload s).1

abbrev pub succeeds : {S P : Type 0} → Registry S P → Option (Envelope P) → S → Bool
succeeds r none s = false
succeeds r (some e) s = is_none (answer_to r e s)

abbrev pub asks_back : Bool → Answer → Bool
asks_back exhausted none = false
asks_back exhausted (some (deferred e)) = true
asks_back exhausted (some (non_retryable e)) = false
asks_back exhausted (some (retryable e)) = not exhausted
asks_back exhausted (some (unclassified e)) = not exhausted

-- The failures for which a delivery is given back, with or without retries left.
abbrev pub given_back : {S P : Type 0} → Registry S P → Bool → Option (Envelope P) → S → Bool
given_back r exhausted none s = false
given_back r exhausted (some e) s = asks_back exhausted (answer_to r e s)

settle_cases :
    (max attempts : ℤ) (a : Answer)
    → let actions = settle max attempts a in
      (count_if is_settling actions ≡ 1)
      × (any_of is_nack actions ≡ asks_back (leb_ℤ max attempts) a)
      × (any_of is_dlq actions ≡ (not (is_none a) && not (asks_back (leb_ℤ max attempts) a)))
unfolding settle
settle_cases max attempts none = (refl, refl, refl)
settle_cases max attempts (some (deferred e)) = (refl, refl, refl)
settle_cases max attempts (some (non_retryable e)) = (refl, refl, refl)
settle_cases max attempts (some (retryable e)) = ground arith
settle_cases max attempts (some (unclassified e)) = ground arith

-- Every delivery is settled exactly once. It is given back to the retry queue (nack) exactly if its
-- handlers failed with a deferred failure, or with another one that is not non-retryable before the
-- retries are used up; and it goes to the dead-letter queue exactly if its body cannot be decoded or
-- its handlers failed and it is not given back.
pub handle_delivery_settles :
    {S P : Type 0} (truncate : Float64 → ℤ) (max : ℤ) (r : Registry S P) (death : XDeath)
    (body : Option (Envelope P)) (s : S)
    → let actions = (handle_delivery truncate max r death body s).1 in
      (count_if is_settling actions ≡ 1)
      × (any_of is_nack actions ≡ given_back r (leb_ℤ max (retry_count truncate death)) body s)
      × (any_of is_dlq actions ≡ (
          not (succeeds r body s)
          && not (given_back r (leb_ℤ max (retry_count truncate death)) body s)))
unfolding handle_delivery
handle_delivery_settles truncate max r death none s = (refl, refl, refl)
handle_delivery_settles truncate max r death (some e) s =
    settle_cases max (retry_count truncate death) (answer_to r e s)

-- A message whose handlers fail the same way each time, from its k-th redelivery on, for at most
-- `fuel` deliveries: how often it is delivered. The broker counts redeliveries in `death`.
unfoldable pub deliveries : (Float64 → ℤ) → ℤ → (ℕ → XDeath) → Answer → ℕ → ℕ → ℕ
deliveries truncate max death a zero k = 0
deliveries truncate max death a (suc fuel) k =
    let again = suc (deliveries truncate max death a fuel (k + 1)) in
    if any_of is_nack (settle max (retry_count truncate (death k)) a) then again else 1

deliveries_deferred :
    (truncate : Float64 → ℤ) (max : ℤ) (death : ℕ → XDeath) (e : Err) (fuel k : ℕ)
    → deliveries truncate max death (some (deferred e)) fuel k ≡ fuel
unfolding deliveries settle
deliveries_deferred truncate max death e zero k = refl
deliveries_deferred truncate max death e (suc fuel) k =
    ap suc (deliveries_deferred truncate max death e fuel (k + 1))

module _ (truncate : Float64 → ℤ) (max : ℕ) (death : ℕ → XDeath)
    (counted : (k : ℕ) → retry_count truncate (death k) ≡ pos k) where
  deliveries_from :
      (e : Err) (fuel k : ℕ)
      → k ≤ max
      → max < k + fuel
      → deliveries truncate (pos max) death (some (retryable e)) fuel k ≡ max + 1 - k
  unfolding deliveries settle
  deliveries_from e zero k h h' = absurd (omega arith)
  deliveries_from e (suc fuel) k h h' =
      rw (counted k) (ground (arith, deliveries_from e fuel (k + 1)))

  -- If the broker counts the redeliveries of a message, one whose handlers always fail with a
  -- retryable failure is delivered exactly maxRetries + 1 times, however many are allowed for
  -- beyond that; one that fails with a deferred failure takes all that are allowed for.
  pub deliveries_lem :
      (e : Err) (fuel : ℕ)
      → max < fuel
      → (deliveries truncate (pos max) death (some (retryable e)) fuel 0 ≡ max + 1)
        × (deliveries truncate (pos max) death (some (deferred e)) fuel 0 ≡ fuel)
  deliveries_lem e fuel h = (
    omega (arith, deliveries_from e fuel 0 (omega arith) (omega arith)),
    deliveries_deferred truncate (pos max) death e fuel 0,
  )
