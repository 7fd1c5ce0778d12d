-- ===== src/Messaging/Failure.antt =====
-- internal/application/messaging/errors.go: how a handler classifies its failure. errors.As finds the
-- class through the wrapping that Dispatch adds, so a failure keeps its class.
use notai_api.Base.{Bool, Option, false, true}
use notai_api.Errors.{Err}

pub data Failure : Type 0 where
  retryable deferred non_retryable unclassified : Err → Failure

-- A handler returns nil or a failure.
abbrev pub Answer : Type 0
Answer = Option Failure

abbrev pub is_deferred : Failure → Bool
is_deferred (deferred e) = true
is_deferred _ = false

abbrev pub is_retryable : Failure → Bool
is_retryable (retryable e) = true
is_retryable _ = false

abbrev pub is_non_retryable : Failure → Bool
is_non_retryable (non_retryable e) = true
is_non_retryable _ = false
