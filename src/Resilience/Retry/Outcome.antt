-- ===== src/Resilience/Retry/Outcome.antt =====
-- What a call of `retry_async` does, against a big-step description of its rounds.
use plugshub_common.Common.{
  ℕ, zero, suc, ◌+◌, ◌-◌, ◌≤◌, ◌<◌, ◌≡◌, refl, sym, ◌∙◌, subst, inl, inr, true, false, Option, none,
  some, arith, leb, Bool-cases,
}
use plugshub_common.Errors.{Exc, assertion_error}
use plugshub_common.Exec.{Result, ok, raised, Exec, continue, Result-cases}
use plugshub_common.Float.{Float}
use plugshub_common.Resilience.Retry.{
  Sys, Host, RetryPolicy, allow_call, note_success, note_failure, open_error, pause, settle,
  retry_from, retry_async,
}

module _ (fl : Float) {W : Type 0} (host : Host fl W) {T : Type 0} (func : Exec (Sys fl W) T)
    (policy : RetryPolicy fl) (sleep : fl.F → Exec (Sys fl W) (Unit {0})) where
  -- The state in which `func` is called, what the call gives, and the state that it leaves.
  abbrev pub entered : Sys fl W → Sys fl W
  entered s = (allow_call fl host s).1

  abbrev pub outcome : Sys fl W → Result T
  outcome s = (func (entered s)).0

  abbrev pub left_by : Sys fl W → Sys fl W
  left_by s = (func (entered s)).1

  abbrev pub paused : ℕ → Sys fl W → Result (Unit {0}) × Sys fl W
  paused attempt s = pause fl host func policy sleep attempt (note_failure fl host (left_by s))

  -- Rounds that fail and are retried: from attempt `a` in state `s` to attempt `b` in state `t`. Each
  -- is admitted by the breaker, raises a retryable exception with attempts left, and sleeps.
  pub data Retried (a : ℕ) (s : Sys fl W) : ℕ → Sys fl W → Type 0 where
    here : Retried a s a s
    again :
        {b c : ℕ} {t : Sys fl W} (e : Exc)
        → Retried a s b t
        → (allow_call fl host t).0 ≡ true
        → outcome t ≡ raised e
        → policy.retry_on e ≡ true
        → b < policy.max_attempts
        → (paused b t).0 ≡ ok tt
        → c ≡ b + 1
        → Retried a s c (paused b t).1

  -- How the last attempt, number `a` in state `s`, ends the call.
  pub data Ends (a : ℕ) (s : Sys fl W) : Result T → Sys fl W → Type 0 where
    refused :
        (allow_call fl host s).0 ≡ false
        → Ends a s (raised (open_error fl host (entered s))) (entered s)
    succeeded :
        (v : T)
        → (allow_call fl host s).0 ≡ true
        → outcome s ≡ ok v
        → Ends a s (ok v) (note_success fl host (left_by s))
    not_retryable :
        (e : Exc)
        → (allow_call fl host s).0 ≡ true
        → outcome s ≡ raised e
        → policy.retry_on e ≡ false
        → Ends a s (raised e) (left_by s)
    exhausted :
        (e : Exc)
        → (allow_call fl host s).0 ≡ true
        → outcome s ≡ raised e
        → policy.retry_on e ≡ true
        → a ≡ policy.max_attempts
        → Ends a s (raised e) (note_failure fl host (left_by s))
    interrupted :
        (e i : Exc)
        → (allow_call fl host s).0 ≡ true
        → outcome s ≡ raised e
        → policy.retry_on e ≡ true
        → a < policy.max_attempts
        → (paused a s).0 ≡ raised i
        → Ends a s (raised i) (paused a s).1

  -- A run that began at attempt `a` in state `s`.
  pub record Run (a : ℕ) (s : Sys fl W) (out : Result T × Sys fl W) : Type 0 where
    pub last : ℕ
    pub state : Sys fl W
    pub rounds : Retried a s last state
    pub ends : Ends last state out.0 out.1
    pub within : last ≤ policy.max_attempts

  abbrev pub loop : ℕ → ℕ → Option Exc → Exec (Sys fl W) T
  loop = retry_from fl host func policy sleep

  pub loop_refused :
      (n a : ℕ) (l : Option Exc) (s : Sys fl W)
      → (allow_call fl host s).0 ≡ false
      → loop (suc n) a l s ≡ (raised (open_error fl host (entered s)), entered s)
  unfolding retry_from
  loop_refused n a l s h = rw h

  pub loop_ok :
      (n a : ℕ) (l : Option Exc) (s : Sys fl W) (v : T)
      → (allow_call fl host s).0 ≡ true
      → outcome s ≡ ok v
      → loop (suc n) a l s ≡ (ok v, note_success fl host (left_by s))
  unfolding retry_from
  loop_ok n a l s v h o = rw (h, o, settle)

  pub loop_not_retryable :
      (n a : ℕ) (l : Option Exc) (s : Sys fl W) (e : Exc)
      → (allow_call fl host s).0 ≡ true
      → outcome s ≡ raised e
      → policy.retry_on e ≡ false
      → loop (suc n) a l s ≡ (raised e, left_by s)
  unfolding retry_from
  loop_not_retryable n a l s e h o r = rw (h, o, settle, r)

  loop_exhausted :
      (n a : ℕ) (l : Option Exc) (s : Sys fl W) (e : Exc)
      → (allow_call fl host s).0 ≡ true
      → outcome s ≡ raised e
      → policy.retry_on e ≡ true
      → leb policy.max_attempts a ≡ true
      → loop (suc n) a l s ≡ (raised e, note_failure fl host (left_by s))
  unfolding retry_from
  loop_exhausted n a l s e h o r m = rw (h, o, settle, r, m)

  loop_again :
      (n a : ℕ) (l : Option Exc) (s : Sys fl W) (e : Exc)
      → (allow_call fl host s).0 ≡ true
      → outcome s ≡ raised e
      → policy.retry_on e ≡ true
      → leb policy.max_attempts a ≡ false
      → loop (suc n) a l s ≡ continue (paused a s).0 (λ _. loop n (a + 1) (some e)) (paused a s).1
  unfolding retry_from
  loop_again n a l s e h o r m = rw (h, o, settle, r, m)

  module _ (a0 : ℕ) (s0 : Sys fl W) where
    -- A run that ends in this round.
    stop :
        (a : ℕ) (s : Sys fl W) (out out' : Result T × Sys fl W)
        → Retried a0 s0 a s
        → a ≤ policy.max_attempts
        → out' ≡ out
        → Ends a s out.0 out.1
        → Run a0 s0 out'
    stop a s out out' rs w e ends =
        rw e (record { last = a; state = s; rounds = rs; ends = ends; within = w })

    module _ (n a : ℕ) (l : Option Exc) (s : Sys fl W) (rs : Retried a0 s0 a s)
        (w : a ≤ policy.max_attempts) where
      -- One round, given what is to be shown if it fails with a retryable exception.
      round :
          ((e : Exc)
            → (allow_call fl host s).0 ≡ true
            → outcome s ≡ raised e
            → policy.retry_on e ≡ true
            → Run a0 s0 (loop (suc n) a l s))
          → Run a0 s0 (loop (suc n) a l s)
      round retryable = elim (Bool-cases (allow_call fl host s).0) [
        | inr no_call ↦ stop a s _ _ rs w (loop_refused n a l s no_call) (refused no_call)
        | inl call ↦ elim (Result-cases (outcome s)) [
          | inl (v, o) ↦ stop a s _ _ rs w (loop_ok n a l s v call o) (succeeded v call o)
          | inr (e, o) ↦ elim (Bool-cases (policy.retry_on e)) [
            | inr fatal ↦
                stop a s _ _ rs w (loop_not_retryable n a l s e call o fatal)
                  (not_retryable e call o fatal)
            | inl r ↦ retryable e call o r
          ]
        ]
      ]

      round_again :
          (e : Exc)
          → (allow_call fl host s).0 ≡ true
          → outcome s ≡ raised e
          → policy.retry_on e ≡ true
          → a < policy.max_attempts
          → ((t : Sys fl W) → Retried a0 s0 (a + 1) t → Run a0 s0 (loop n (a + 1) (some e) t))
          → Run a0 s0 (loop (suc n) a l s)
      round_again e call o r lt next =
          let looped = loop_again n a l s e call o r (ground arith) in
          elim (Result-cases (paused a s).0) [
            | inr (i, stopped) ↦
                stop a s _ _ rs w (looped ∙ rw stopped) (interrupted e i call o r lt stopped)
            | inl (u, slept) ↦
                rw (looped, slept) (next (paused a s).1 (again e rs call o r lt slept refl))
          ]

    rounds_from :
        (n a : ℕ) (l : Option Exc) (s : Sys fl W)
        → Retried a0 s0 a s
        → a + n ≡ policy.max_attempts
        → Run a0 s0 (loop (suc n) a l s)
    rounds_from zero a l s rs h = round zero a l s rs (omega arith) λ e call o r.
        stop a s _ _ rs (omega arith) (loop_exhausted zero a l s e call o r (ground arith))
          (exhausted e call o r (omega arith))
    rounds_from (suc n) a l s rs h = round (suc n) a l s rs (omega arith) λ e call o r.
        round_again (suc n) a l s rs (omega arith) e call o r (omega arith)
          λ t rs'. rounds_from n (a + 1) (some e) t rs' (omega arith)

  -- Whatever `func`, `sleep` and the other tasks do, a call of `retry_async` with at least one
  -- attempt is a run of at most `max_attempts` attempts: some rounds that the breaker admitted, that
  -- raised a retryable exception and slept, and then one that ends the call in one of five ways. It
  -- is refused by the breaker, returns the value of `func`, passes on an exception that is not
  -- retryable, passes on the exception of the last attempt, or is interrupted in its sleep.
  pub retry_async-Run :
      (s : Sys fl W) → 0 < policy.max_attempts → Run 1 s (retry_async fl host func policy sleep s)
  unfolding retry_async
  retry_async-Run s h =
      let e : policy.max_attempts ≡ suc (policy.max_attempts - 1) = omega arith in
      subst (λ m. Run 1 s (loop m 1 none s)) (sym e)
        (rounds_from 1 s (policy.max_attempts - 1) 1 none s here (omega arith))

  -- With no attempts at all `func` is never called: the call fails on its assertion, and leaves the
  -- state alone.
  pub retry_async_none :
      (s : Sys fl W)
      → policy.max_attempts ≡ 0
      → retry_async fl host func policy sleep s ≡ (raised assertion_error, s)
  unfolding retry_async
  retry_async_none s h = rw (h, retry_from)
