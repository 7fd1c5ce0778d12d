-- ===== src/Messaging/Consumer.antt =====
-- internal/infrastructure/messaging/rabbitmq/consumer.go: NewConsumer, handleDelivery, retryCount.
-- What it tells the broker is the list of the calls that it makes, in order.
pub mod Settling
use notai_api.Base.{List, Option, [], if◌then◌else◌, none, some, ◌||◌, ◌∷◌}
use notai_api.Base.Float.{Float64}
use notai_api.Base.Int.{leb_ℤ, pos, ℤ}
use notai_api.Base.Text.{Text, codes}
use notai_api.Messaging.Failure.{Answer, is_deferred, is_non_retryable}
use notai_api.Messaging.Registry.{Registry, dispatch}

-- The dynamic type of the entry "count"; `other` is any type that the switch does not name.
pub data DeathCount : Type 0 where
  int64 int32 int : ℤ → DeathCount
  float64 : Float64 → DeathCount
  other : DeathCount

-- The header "x-death": none if it is no list, and an element none if it is no table.
abbrev pub XDeath : Type 0
XDeath = Option (List (Option DeathCount))

pub record Envelope (P : Type 0) : Type 0 where
  pub event_type : Text
  pub payload : P

pub data Action : Type 0 where
  publish_dlq : Text → Action
  ack nack : Action

abbrev pub default_max_retries : ℤ
default_max_retries = pos 3

-- The maxRetries of NewConsumer.
unfoldable pub new_max_retries : ℤ → ℤ
new_max_retries n = if leb_ℤ n (pos 0) then default_max_retries else n

-- `truncate` is Go's conversion of a float64 to an int.
unfoldable pub retry_count : (Float64 → ℤ) → XDeath → ℤ
retry_count truncate none = pos 0
retry_count truncate (some []) = pos 0
retry_count truncate (some (none ∷ ds)) = pos 0
retry_count truncate (some (some (int64 n) ∷ ds)) = n
retry_count truncate (some (some (int32 n) ∷ ds)) = n
retry_count truncate (some (some (int n) ∷ ds)) = n
retry_count truncate (some (some (float64 x) ∷ ds)) = truncate x
retry_count truncate (some (some other ∷ ds)) = pos 0

-- The part of handleDelivery behind Dispatch.
unfoldable pub settle : ℤ → ℤ → Answer → List Action
settle max attempts none = ack ∷ []
settle max attempts (some f) =
    if is_deferred f
    then nack ∷ []
    else if is_non_retryable f || leb_ℤ max attempts
    then publish_dlq (codes "handler_failed") ∷ ack ∷ []
    else nack ∷ []

-- `body` is the decoded body; none: json.Unmarshal fails.
unfoldable pub handle_delivery :
    {S P : Type 0}
    → (Float64 → ℤ)
    → ℤ
    → Registry S P
    → XDeath
    → Option (Envelope P)
    → S
    → S × List Action
unfolding retry_count settle
handle_delivery truncate max r death none s = (s, publish_dlq (codes "invalid_envelope") ∷ ack ∷ [])
handle_delivery truncate max r death (some e) s =
    let (s', a) = dispatch r e.event_type e.payload s in
    (s', settle max (retry_count truncate death) a)
