-- ===== src/Tags/Attempts.antt =====
-- builder/vsphere/common/tags_retry.go: the runs of `withRetry`, as a relation, and what they bound.
use packer_plugin_vsphere.Base.{
  ℕ, zero, suc, ◌*◌, ◌<◌, min, ◌≡◌, refl, ◌∙◌, inl, inr, true, false, Option, none, some, arith,
  Bool-cases, Result, ok, err, codes,
}
use packer_plugin_vsphere.Tags.{Error, wrapped}
use packer_plugin_vsphere.Tags.Errors.{is_retryable_error}
use packer_plugin_vsphere.Tags.Retry.{
  RetryConfig, Action, Wait, with_retry, failed_after, next_delay, after_wait, after_attempt,
  attempt_loop, attempts,
}

module _ {S A : Type 0} (config : RetryConfig) (wait : Wait S) (operation : Action S A) where
  -- `Retried k s d t e`: after `k` attempts from state `s` and delay `d`, each failed with a
  -- retryable error and was waited for in full, the state is `t` and the next delay is `e`.
  pub data Retried : ℕ → S → ℕ → S → ℕ → Type 0 where
    here : {s : S} {d : ℕ} → Retried 0 s d s d
    again :
        {k : ℕ} {s : S} {d : ℕ} {t : S} {d' : ℕ} (e : Error) (s₁ s₂ : S)
        → operation s ≡ (err e, s₁)
        → is_retryable_error e ≡ true
        → wait s₁ d ≡ (none, s₂)
        → Retried k s₂ (next_delay config wait operation d) t d'
        → Retried (suc k) s d t d'

  -- How a run of at most `n` attempts from `s` and delay `d` ends.
  pub data Run (n : ℕ) (s : S) (d : ℕ) (r : Result Error A × S) : Type 0 where
    succeeded :
        (k : ℕ) (t : S) (d' : ℕ) (a : A) (s' : S)
        → k < n
        → Retried k s d t d'
        → operation t ≡ (ok a, s')
        → r ≡ (ok a, s')
        → Run n s d r
    refused :
        (k : ℕ) (t : S) (d' : ℕ) (e : Error) (s' : S)
        → k < n
        → Retried k s d t d'
        → operation t ≡ (err e, s')
        → is_retryable_error e ≡ false
        → r ≡ (err (wrapped (codes "non-retryable error") e), s')
        → Run n s d r
    cancelled :
        (k : ℕ) (t : S) (d' : ℕ) (e c : Error) (s₁ s' : S)
        → suc k < n
        → Retried k s d t d'
        → operation t ≡ (err e, s₁)
        → is_retryable_error e ≡ true
        → wait s₁ d' ≡ (some c, s')
        → r ≡ (err (wrapped (codes "operation cancelled") c), s')
        → Run n s d r
    exhausted :
        (k : ℕ) (t : S) (d' : ℕ) (e : Error) (s' : S)
        → suc k ≡ n
        → Retried k s d t d'
        → operation t ≡ (err e, s')
        → is_retryable_error e ≡ true
        → r ≡ (failed_after config wait operation e, s')
        → Run n s d r

  -- A run after one more attempt.
  Run-again :
      (n : ℕ) (s : S) (d : ℕ) (e : Error) (s₁ s₂ : S) (r : Result Error A × S)
      → operation s ≡ (err e, s₁)
      → is_retryable_error e ≡ true
      → wait s₁ d ≡ (none, s₂)
      → Run n s₂ (next_delay config wait operation d) r
      → Run (suc n) s d r
  Run-again n s d e s₁ s₂ r p q w (succeeded k t d' a s' l c o z) =
      succeeded (suc k) t d' a s' (omega arith) (again e s₁ s₂ p q w c) o z
  Run-again n s d e s₁ s₂ r p q w (refused k t d' f s' l c o x z) =
      refused (suc k) t d' f s' (omega arith) (again e s₁ s₂ p q w c) o x z
  Run-again n s d e s₁ s₂ r p q w (cancelled k t d' f g u s' l c o x y z) =
      cancelled (suc k) t d' f g u s' (omega arith) (again e s₁ s₂ p q w c) o x y z
  Run-again n s d e s₁ s₂ r p q w (exhausted k t d' f s' l c o x z) =
      exhausted (suc k) t d' f s' (omega arith) (again e s₁ s₂ p q w c) o x z

  -- The last attempt.
  last_attempt :
      (s : S) (d : ℕ) (o : Result Error A × S)
      → operation s ≡ o
      → Run 1 s d (after_attempt config wait operation none d o)
  unfolding after_attempt
  last_attempt s d (ok a, s') h = succeeded 0 s d a s' (omega arith) here h refl
  last_attempt s d (err e, s') h = elim (Bool-cases (is_retryable_error e)) [
    | inl q ↦ exhausted 0 s d e s' refl here h q (rw (q, after_attempt))
    | inr q ↦ refused 0 s d e s' (omega arith) here h q (rw (q, after_attempt))
  ]

  waited :
      (n : ℕ) (s : S) (d : ℕ) (e : Error) (s₁ : S) (w : Option Error × S)
      (rest : S → ℕ → Result Error A × S)
      → operation s ≡ (err e, s₁)
      → is_retryable_error e ≡ true
      → wait s₁ d ≡ w
      → ((t : S) (d' : ℕ) → Run (suc n) t d' (rest t d'))
      → Run (suc (suc n)) s d (after_wait config wait operation rest d w)
  unfolding after_wait
  waited n s d e s₁ (some c, s') rest h q w run =
      cancelled 0 s d e c s₁ s' (omega arith) here h q w refl
  waited n s d e s₁ (none, s₂) rest h q w run =
      Run-again (suc n) s d e s₁ s₂ _ h q w (run s₂ (next_delay config wait operation d))

  early_attempt :
      (n : ℕ) (s : S) (d : ℕ) (o : Result Error A × S) (rest : S → ℕ → Result Error A × S)
      → operation s ≡ o
      → ((t : S) (d' : ℕ) → Run (suc n) t d' (rest t d'))
      → Run (suc (suc n)) s d (after_attempt config wait operation (some rest) d o)
  unfolding after_attempt
  early_attempt n s d (ok a, s') rest h run = succeeded 0 s d a s' (omega arith) here h refl
  early_attempt n s d (err e, s') rest h run = elim (Bool-cases (is_retryable_error e)) [
    | inl q ↦ rw (q, after_attempt) (waited n s d e s' (wait s' d) rest h q refl run)
    | inr q ↦ refused 0 s d e s' (omega arith) here h q (rw (q, after_attempt))
  ]

  loop-Run : (n : ℕ) (s : S) (d : ℕ) → Run (suc n) s d (attempt_loop config wait operation n s d)
  unfolding attempt_loop
  loop-Run zero s d = last_attempt s d (operation s) refl
  loop-Run (suc n) s d = early_attempt n s d (operation s) _ refl (loop-Run n)

  attempts-Run :
      (n : ℕ) (s : S) → 0 < n → Run n s config.initial_delay (attempts config wait operation n s)
  unfolding attempts
  attempts-Run zero s h = absurd (omega arith)
  attempts-Run (suc n) s h = loop-Run n s config.initial_delay

  -- With at least one attempt allowed, a run ends in one of four ways, and in no other: an attempt
  -- succeeds; an attempt fails with an error that is not retryable; the context is cancelled in a
  -- wait, before the last attempt; or all allowed attempts failed. All attempts before failed with
  -- retryable errors, and there were fewer than are allowed.
  pub with_retry-Run :
      (s : S)
      → 0 < config.max_attempts
      → Run config.max_attempts s config.initial_delay (with_retry config wait operation s)
  unfolding with_retry
  with_retry-Run s h = attempts-Run config.max_attempts s h

abbrev pub doubled : ℕ → ℕ → ℕ
doubled zero d = d
doubled (suc k) d = 2 * doubled k d

-- The delay after some retries, where each is twice the one before it and at most the maximal one.
abbrev pub doubled_delay : ℕ → ℕ → ℕ → ℕ
doubled_delay zero d m = d
doubled_delay (suc k) d m = min (doubled (suc k) d) m

min-doubled : (k d m : ℕ) → min (doubled k (min (d * 2) m)) m ≡ min (doubled (suc k) d) m
min-doubled zero d m = omega arith
min-doubled (suc k) d m = omega (arith, min-doubled k d m)

-- A configuration with the factor 2.
abbrev pub doubling : ℕ → ℕ → ℕ → RetryConfig
doubling n d m = record { max_attempts = n; initial_delay = d; max_delay = m; scaled = λ x. x * 2 }

double_min : (k d m : ℕ) → doubled_delay k (min (d * 2) m) m ≡ doubled_delay (suc k) d m
double_min zero d m = omega arith
double_min (suc k) d m = min-doubled (suc k) d m

module _ {S A : Type 0} (n d₀ m : ℕ) (wait : Wait S) (operation : Action S A) where
  -- With the factor 2, the delay before any retry is the first one, and after one or more retries it
  -- is the first one doubled as many times, or the maximal delay where that is less.
  pub Retried-delay :
      {k : ℕ} {s : S} {d : ℕ} {t : S} {d' : ℕ}
      → Retried (doubling n d₀ m) wait operation k s d t d'
      → d' ≡ doubled_delay k d m
  unfolding next_delay
  Retried-delay here = refl
  Retried-delay {d' = d'} (again {k = k} {d = d} e s₁ s₂ p q w r) =
      Retried-delay r ∙ double_min k d m
