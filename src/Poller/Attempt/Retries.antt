-- ===== src/Poller/Attempt/Retries.antt =====
-- How often a region is attempted, and what a poll does after one that completed.
use mathlib.Core.Path.{subst}
use moe_assets_updater_next.Prelude.{
  ℕ, zero, suc, ◌+◌, ◌*◌, ◌≤◌, ◌≡◌, refl, sym, inl, inr, Bool, true, false, not, ◌&&◌, some, [],
  ◌∷◌, arith, ltb, text_eq, Bool-cases,
}
use moe_assets_updater_next.Poller.{Result, ok, err, PollError}
use moe_assets_updater_next.Poller.Watermarks.{get}
use moe_assets_updater_next.Poller.Attempt.{
  CurrentVersionInfo, RunOutcome, State, World, Env, Ended, watermark_of, execute_once_attempt,
  Tried, is_config, after_attempt, retry_from, retry_region_in_place,
}

module _ {Bytes : Type 0} (env : Env Bytes) (current : CurrentVersionInfo) where
  module _ (world : ℕ → World Bytes) (cancelled interrupted : ℕ → Bool) where
    -- After attempt `n`, the loop goes on.
    abbrev goes_on : ℕ → PollError → Bool
    goes_on n e = ltb n 10 && not (is_config env current e) && not (cancelled n)

    abbrev Final : ℕ → Result RunOutcome → Type 0
    Final n (ok outcome) = Unit {0}
    Final n (err e) = goes_on n e ≡ false

    -- The attempts from number `n` on. They end with an attempt that succeeds, with an error of the
    -- configuration, with a cancellation, or with attempt number 10; else the next one starts in the state
    -- that the last one left, after a sleep of 5 seconds times its number.
    pub data Tries : ℕ → State Bytes → Tried env current → Type 0 where
      stops :
          (n : ℕ) (s : State Bytes)
          → n ≤ 10
          → Final n (execute_once_attempt env current (world n) s).1
          → Tries n s (record {
            state = (execute_once_attempt env current (world n) s).0;
            result = (execute_once_attempt env current (world n) s).1;
            slept = [];
          })
      cut_off :
          (n : ℕ) (s t : State Bytes) (e : PollError)
          → execute_once_attempt env current (world n) s ≡ (t, err e)
          → goes_on n e ≡ true
          → interrupted n ≡ true
          → Tries n s (record { state = t; result = err e; slept = [] })
      again :
          (n : ℕ) (s t : State Bytes) (e : PollError) (r : Tried env current)
          → execute_once_attempt env current (world n) s ≡ (t, err e)
          → goes_on n e ≡ true
          → Tries (n + 1) t r
          → Tries n s (record r { slept = 5 * n ∷ r.slept })

    after_attempt-Tries :
        (n : ℕ) (s : State Bytes) (ended : Ended env) (rest : State Bytes → Tried env current)
        → execute_once_attempt env current (world n) s ≡ ended
        → n ≤ 10
        → ((t : State Bytes) → n + 1 ≤ 10 → Tries (n + 1) t (rest t))
        → Tries n s (after_attempt env current world cancelled interrupted n ended rest)
    after_attempt-Tries n s (t, ok outcome) rest e le go =
        let final : Final n (execute_once_attempt env current (world n) s).1 =
          subst (λ (d : Ended env). Final n d.1) (sym e) tt in
        subst (λ (d : Ended env). Tries n s (record { state = d.0; result = d.1; slept = [] })) e
          (stops n s le final)
    after_attempt-Tries n s (t, err x) rest e le go = elim (Bool-cases (goes_on n x)) [
      | inr stop ↦
          let final : Final n (execute_once_attempt env current (world n) s).1 =
            subst (λ (d : Ended env). Final n d.1) (sym e) stop in
          rw stop (
            subst (λ (d : Ended env). Tries n s (record { state = d.0; result = d.1; slept = [] }))
              e (stops n s le final))
      | inl more ↦ elim (Bool-cases (interrupted n)) [
        | inl cut ↦ rw (more, cut) (cut_off n s t x e more cut)
        | inr slept ↦ rw (more, slept) (again n s t x (rest t) e more (go t (ground arith)))
      ]
    ]

    retry_from-Tries :
        (left n : ℕ) (s : State Bytes)
        → left + n ≡ 11
        → 1 ≤ left
        → Tries n s (retry_from env current world cancelled interrupted left n s)
    unfolding retry_from
    retry_from-Tries zero n s e le = absurd (omega arith)
    retry_from-Tries (suc left) n s e le =
        after_attempt-Tries n s (execute_once_attempt env current (world n) s) _ refl
          (omega (arith, e))
          (λ t more. retry_from-Tries left (n + 1) t (omega (arith, e)) (omega (arith, e, more)))

    -- A region is attempted up to ten times, as `Tries` describes it, from attempt 1 on.
    pub retry_region_in_place-Tries :
        (s : State Bytes)
        → Tries 1 s (retry_region_in_place env current world cancelled interrupted s)
    unfolding retry_region_in_place
    retry_region_in_place-Tries s = retry_from-Tries 10 1 s refl (omega arith)

    -- After an attempt that completed, the region has the watermark of the current version.
    abbrev Marked : State Bytes → Type 0
    Marked s =
        (n : ℕ) × (now : ℕ) × (get env.region s.watermarks ≡ some (watermark_of env current n now))
