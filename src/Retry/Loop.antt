-- ===== src/Retry/Loop.antt =====
-- What the attempt loop does, over every operation, state and retry test.
use moe_assets_updater_next.Prelude.{
  ℕ, zero, suc, ◌+◌, ◌<◌, ◌≡◌, refl, Bool, true, false, List, [], ◌∷◌, arith, ltb, max, Bool-cases,
  inl, inr, ap, ltb→lt,
}
use moe_assets_updater_next.Retry.{
  RetryConfig, backoff_delay, Result, ok, err, returned, Run, attempt_once, retry_loop, retry,
}

-- The delays before the `k` calls that follow the one numbered `attempt`.
abbrev pub delays : RetryConfig → ℕ → ℕ → List ℕ
delays config attempt zero = []
delays config attempt (suc k) = backoff_delay config attempt ∷ delays config (attempt + 1) k

module _ {ℓ} {S T E : Type ℓ} (config : RetryConfig) (op : ℕ → S → Result T E × S)
    (should_retry : E → Bool) where
  -- The call after `k` retries, of the calls numbered from `attempt` on.
  abbrev pub call : ℕ → ℕ → S → Result T E × S
  call attempt zero s = op attempt s
  call attempt (suc k) s = call (attempt + 1) k (op attempt s).1

  -- The first `k` calls all failed with an error that may be retried.
  abbrev pub Retried : ℕ → ℕ → S → Type ℓ
  Retried attempt zero s = Unit {ℓ}
  Retried attempt (suc k) s =
      ((e : E) × ((op attempt s).0 ≡ err e) × (should_retry e ≡ true))
      × Retried (attempt + 1) k (op attempt s).1

  -- A result that ends the loop with rounds to spare.
  abbrev pub IsFinal : Result T E → Type ℓ
  IsFinal (ok value) = Unit {ℓ}
  IsFinal (err e) = (should_retry e ≡ false) × Unit {ℓ}

  -- The run made `k` retries, and returned what the call after them returned.
  pub record Ended (left attempt : ℕ) (s : S) (r : Run S T E) : Type ℓ where
    pub k : ℕ
    pub within : k < left
    pub retried : Retried attempt k s
    pub last : (r.outcome ≡ returned (call attempt k s).0) × (r.state ≡ (call attempt k s).1)
    pub final : suc k < left → IsFinal (call attempt k s).0
    pub slept : r.slept ≡ delays config attempt k

  once_final :
      (left attempt : ℕ) (s s' : S) (res : Result T E)
      → op attempt s ≡ (res, s')
      → (0 < left → IsFinal res)
      → (out : Run S T E) → out ≡ record { outcome = returned res; state = s'; slept = [] }
      → Ended (suc left) attempt s out
  once_final left attempt s s' res e fin out eq = record {
    k = 0;
    within = omega arith;
    retried = tt;
    last = rw (eq, e) (refl, refl);
    final = λ h. rw e (fin (omega arith));
    slept = rw eq;
  }

  once_more :
      (left attempt : ℕ) (s : S) (e : E) {r : Run S T E}
      → (op attempt s).0 ≡ err e
      → should_retry e ≡ true
      → Ended left (attempt + 1) (op attempt s).1 r
      → Ended (suc left) attempt s (record r { slept = backoff_delay config attempt ∷ r.slept })
  once_more left attempt s e failed again h = record {
    k = suc h.k;
    within = omega (arith, h.within);
    retried = ((e, failed, again), h.retried);
    last = h.last;
    final = λ p. h.final (omega arith);
    slept = ap (λ t. backoff_delay config attempt ∷ t) h.slept;
  }

  attempt_once-Ended :
      (left attempt : ℕ) (s s' : S) (res : Result T E)
      → op attempt s ≡ (res, s')
      → (rest : S → Run S T E) → (0 < left → Ended left (attempt + 1) s' (rest s'))
      → Ended
          (suc left)
          attempt
          s
          (attempt_once config op should_retry attempt (ltb 0 left) (res, s') rest)
  unfolding attempt_once
  attempt_once-Ended left attempt s s' (ok value) e rest h =
      once_final left attempt s s' (ok value) e (λ _. tt) _ refl
  attempt_once-Ended left attempt s s' (err x) e rest h = elim (Bool-cases (ltb 0 left)) [
    | inr last ↦
        rw last (once_final left attempt s s' (err x) e (λ p. absurd (ground arith)) _ refl)
    | inl more ↦ elim (Bool-cases (should_retry x)) [
      | inr stop ↦ rw (more, stop) (once_final left attempt s s' (err x) e (λ _. (stop, tt)) _ refl)
      | inl again ↦
          rw (more, again) (once_more left attempt s x (rw e) again (rw e (h (ltb→lt 0 left more))))
    ]
  ]

  retry_loop-Ended :
      (left attempt : ℕ) (s : S)
      → 0 < left
      → Ended left attempt s (retry_loop config op should_retry left attempt s)
  unfolding retry_loop
  retry_loop-Ended zero attempt s h = absurd (omega arith)
  retry_loop-Ended (suc left) attempt s h =
      attempt_once-Ended left attempt s (op attempt s).1 (op attempt s).0 refl _
        (λ p. retry_loop-Ended left (attempt + 1) (op attempt s).1 p)

  -- For every configuration, operation and retry test, the loop returns (its `unreachable!` is never
  -- reached). It calls the operation k + 1 times, with k below max(attempts, 1): the first k calls
  -- failed with retryable errors, and the result and the state are those of the last call, which
  -- fails with a retryable error only if k + 1 is max(attempts, 1). It sleeps exactly the delays of
  -- the attempts 1 to k, in order.
  pub retry-Ended : (s : S) → Ended (max config.attempts 1) 1 s (retry config op should_retry s)
  unfolding retry
  retry-Ended s = retry_loop-Ended (max config.attempts 1) 1 s (omega arith)
