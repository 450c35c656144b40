-- ===== src/Tags/Retry.antt =====
-- builder/vsphere/common/tags_retry.go: `withRetry`. An operation changes a state; the `select` on
-- the context and the timer is `wait`, which says whether the context was cancelled first.
use packer_plugin_vsphere.Base.{
  ℕ, zero, suc, ◌*◌, min, true, false, Option, none, some, ◌++◌, Result, ok, err, codes, itoa,
}
use packer_plugin_vsphere.Tags.{Error, nil, wrapped}
use packer_plugin_vsphere.Tags.Errors.{is_retryable_error}

-- Durations in nanoseconds, none of them negative. `scaled` is `time.Duration(float64(delay) *
-- BackoffFactor)` where that is an int64; a product that is too large for one, whose conversion Go leaves
-- open, is not modelled.
pub record RetryConfig : Type 0 where
  pub max_attempts : ℕ
  pub initial_delay : ℕ
  pub max_delay : ℕ
  pub scaled : ℕ → ℕ

-- `DefaultRetryConfig`; its factor is 2.
unfoldable pub default_retry_config : RetryConfig
default_retry_config = record {
  max_attempts = 3;
  initial_delay = 1000000000;
  max_delay = 30000000000;
  scaled = λ d. d * 2;
}

-- A nil configuration is the default one.
unfoldable pub config_or_default : Option RetryConfig → RetryConfig
config_or_default none = default_retry_config
config_or_default (some c) = c

-- An operation on a state; `wait s d` is `some e` if the context is done, with `ctx.Err()`, before
-- the delay `d` is over.
abbrev pub Action : Type 0 → Type 0 → Type 0
Action S A = S → Result Error A × S

abbrev pub Wait : Type 0 → Type 0
Wait S = S → ℕ → Option Error × S

module _ {S A : Type 0} (config : RetryConfig) (wait : Wait S) (operation : Action S A) where
  unfoldable pub failed_after : Error → Result Error A
  failed_after e = err (
      wrapped (codes "operation failed after " ++ (itoa config.max_attempts ++ codes " attempts"))
        e)

  unfoldable pub next_delay : ℕ → ℕ
  next_delay d = min (config.scaled d) config.max_delay

  -- What follows a wait.
  unfoldable pub after_wait :
      (S → ℕ → Result Error A × S) → ℕ → Option Error × S → Result Error A × S
  after_wait again delay (some e, s) = (err (wrapped (codes "operation cancelled") e), s)
  after_wait again delay (none, s) = again s (next_delay delay)

  -- What follows an attempt: `again` is the rest of the loop, if an attempt is left.
  unfoldable pub after_attempt :
      Option (S → ℕ → Result Error A × S) → ℕ → Result Error A × S → Result Error A × S
  unfolding after_wait failed_after
  after_attempt again delay (ok a, s) = (ok a, s)
  after_attempt again delay (err e, s) = elim (is_retryable_error e) [
    | false ↦ (err (wrapped (codes "non-retryable error") e), s)
    | true ↦ elim again [
      | none ↦ (failed_after e, s)
      | some rest ↦ after_wait rest delay (wait s delay)
    ]
  ]

  -- The loop with `left` attempts after this one.
  unfoldable pub attempt_loop : ℕ → S → ℕ → Result Error A × S
  unfolding after_attempt
  attempt_loop zero s delay = after_attempt none delay (operation s)
  attempt_loop (suc left) s delay =
      after_attempt (some (λ s' d. attempt_loop left s' d)) delay (operation s)

  unfoldable pub attempts : ℕ → S → Result Error A × S
  attempts zero s = (failed_after nil, s)
  attempts (suc n) s = attempt_loop n s config.initial_delay

  unfoldable pub with_retry : S → Result Error A × S
  unfolding attempts attempt_loop failed_after next_delay
  with_retry s = attempts config.max_attempts s
