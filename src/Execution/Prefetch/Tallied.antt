-- ===== src/Execution/Prefetch/Tallied.antt =====
-- A prefetch ends, and counts each bundle once.
use moe_assets_updater_next.Prelude.{
  ℕ, zero, suc, ◌+◌, ◌≡◌, ◌≢◌, refl, ap, inl, inr, List, [], ◌∷◌, ◌++◌, length, arith, All, sum_of,
  join_next, join_next-sum, join_next-length, join_next-All,
}
use moe_assets_updater_next.Execution.{DownloadTask}
use moe_assets_updater_next.Execution.Run.{
  ok, BundleOutcome, done, failed, bundle_completed, bundle_failed,
}
use moe_assets_updater_next.Execution.Run.Ends.{BundleOutcome-cases}
use moe_assets_updater_next.Execution.Prefetch.{Prefetched, prefetch_loop}

-- One for a success, the first, or for a failure, the second.
abbrev pub outcome_count : ℕ → ℕ → BundleOutcome → ℕ
outcome_count a b done = a
outcome_count a b failed = b
outcome_count a b BundleOutcome.cancelled = 0

-- The variables after a success and after a failure.
abbrev succeeded : DownloadTask → Prefetched → Prefetched
succeeded t s = record s {
  completed = s.completed + 1;
  sent = s.sent ++ bundle_completed t.bundle_path ∷ [];
}

abbrev lost : DownloadTask → Prefetched → Prefetched
lost t s = record s { failed = s.failed + 1; sent = s.sent ++ bundle_failed t.bundle_path ∷ [] }

module _ (prefetch_bundle : DownloadTask → BundleOutcome) (schedule : ℕ → ℕ) where
  abbrev pub Finishes : DownloadTask → Type 0
  Finishes t = prefetch_bundle t ≢ BundleOutcome.cancelled

  abbrev pub counted : ℕ → ℕ → List DownloadTask → ℕ
  counted a b tasks = sum_of (λ t. outcome_count a b (prefetch_bundle t)) tasks

  -- Whatever the order in which the prefetches end, the loop returns when none is cancelled, and the
  -- completed and the failed bundles are those whose prefetch succeeds and fails, each counted once.
  pub prefetch_loop-Counted :
      (n : ℕ) (joins : List DownloadTask) (s : Prefetched)
      → n ≡ length joins
      → All Finishes joins
      → (s' : Prefetched) × (prefetch_loop prefetch_bundle schedule n joins s ≡ ok s')
        × (s'.completed ≡ s.completed + counted 1 0 joins)
        × (s'.failed ≡ s.failed + counted 0 1 joins)
  unfolding prefetch_loop
  prefetch_loop-Counted n [] s e h = (s, refl, omega arith, omega arith)
  prefetch_loop-Counted zero (j ∷ joins) s e h = absurd (omega arith)
  prefetch_loop-Counted (suc n) (j ∷ joins) s e h =
      let i = schedule n in
      let t = (join_next i j joins).0 in
      let (one, others) = join_next-All Finishes i j joins h in
      let left = join_next-length i j joins in
      let good = join_next-sum (λ t. outcome_count 1 0 (prefetch_bundle t)) i j joins in
      let bad = join_next-sum (λ t. outcome_count 0 1 (prefetch_bundle t)) i j joins in
      elim (BundleOutcome-cases (prefetch_bundle t)) [
        | inl d ↦
            let (s', ended, c, f) =
              prefetch_loop-Counted n (join_next i j joins).1 (succeeded t s)
                (omega (arith, e, left)) others in
            (
              s',
              rw d ended,
              omega (arith, c, good, ap (outcome_count 1 0) d),
              omega (arith, f, bad, ap (outcome_count 0 1) d),
            )
        | inr (inl d) ↦
            let (s', ended, c, f) =
              prefetch_loop-Counted n (join_next i j joins).1 (lost t s) (omega (arith, e, left))
                others in
            (
              s',
              rw d ended,
              omega (arith, c, good, ap (outcome_count 1 0) d),
              omega (arith, f, bad, ap (outcome_count 0 1) d),
            )
        | inr (inr d) ↦ absurd (one d)
      ]
