-- ===== src/Execution/Run/Counted.antt =====
-- What is counted of the bundles of a run, whatever the order in which its tasks end.
use moe_assets_updater_next.Prelude.{
  ℕ, ◌+◌, ◌≡◌, ◌≢◌, refl, ap, true, false, [], List, ◌∷◌, ◌++◌, arith, take, drop, join_next, max,
  sum_of, sum_of-append, join_next-sum, join_next-All, All, All-append, All-take, All-drop,
  take-append-drop, Bool, text_eq,
}
use moe_assets_updater_next.Execution.{DownloadTask}
use moe_assets_updater_next.Execution.Run.{
  BundleOutcome, done, Tally, Fate, ok, record_failed_bundle, record_completed_bundle, run_tasks,
}
use moe_assets_updater_next.Execution.Run.Ends.{Kept, run_tasks-Ends}

-- Neither step of the bundle is cancelled.
abbrev pub Uncancelled : Fate → DownloadTask → Type 0
Uncancelled fate t =
    (fate.download t ≢ BundleOutcome.cancelled) × (fate.post_process t ≢ BundleOutcome.cancelled)

-- Both steps of the bundle succeed.
abbrev pub both_done : BundleOutcome → BundleOutcome → Bool
both_done done done = true
both_done _ _ = false

abbrev pub succeeds : Fate → DownloadTask → Bool
succeeds fate t = both_done (fate.download t) (fate.post_process t)

pub next_download :
    (weight : DownloadTask → ℕ) (i : ℕ) (j : DownloadTask) (joins pending : List DownloadTask)
    → weight (join_next i j joins).0
        + sum_of weight ((join_next i j joins).1 ++ take 1 pending)
        + sum_of weight (drop 1 pending)
      ≡ sum_of weight (j ∷ joins) + sum_of weight pending
next_download weight i j joins pending =
    let whole = ap (sum_of weight) (take-append-drop 1 pending) in
    omega (
      arith,
      whole,
      join_next-sum weight i j joins,
      sum_of-append weight (join_next i j joins).1 (take 1 pending),
      sum_of-append weight (take 1 pending) (drop 1 pending),
    )

module _ (fate : Fate) (batch_save_size : ℕ) where
  -- A count of the variables that a bundle raises by its weight.
  pub record Counts (weight : DownloadTask → ℕ) (count : Tally → ℕ) : Type 0 where
    pub completes :
        (t : DownloadTask) (s : Tally)
        → succeeds fate t ≡ true
        → count (record_completed_bundle fate batch_save_size t s) ≡ count s + weight t
    pub fails :
        (t : DownloadTask) (s : Tally)
        → succeeds fate t ≡ false
        → count (record_failed_bundle t s) ≡ count s + weight t

  module _ (tasks : List DownloadTask) (start : Tally) where
    -- Every count, with the weights of what is left, comes to the count at the start with the weights of
    -- all tasks.
    record Balanced (joins posts pending : List DownloadTask) (s : Tally) : Type 0 where
      live : All (Uncancelled fate) joins
      ready : All (λ t. Uncancelled fate t × (fate.download t ≡ done)) posts
      waiting : All (Uncancelled fate) pending
      balance :
          (weight : DownloadTask → ℕ) (count : Tally → ℕ)
          → Counts weight count
          → count s + sum_of weight joins + sum_of weight posts + sum_of weight pending
            ≡ count start + sum_of weight tasks

    Balanced-Kept : Kept fate batch_save_size Balanced
    Balanced-Kept = record {
      downloads = λ i j joins posts pending s h.
          let t = (join_next i j joins).0 in
          let (one, others) = join_next-All (Uncancelled fate) i j joins h.live in
          let started =
            All-append (Uncancelled fate) (join_next i j joins).1 (take 1 pending) others
              (All-take (Uncancelled fate) 1 pending h.waiting) in
          let left = All-drop (Uncancelled fate) 1 pending h.waiting in
          (
            one.0,
            λ d. record {
              live = started;
              ready =
                  All-append (λ t. Uncancelled fate t × (fate.download t ≡ done)) posts (t ∷ [])
                    h.ready ((one, d), tt);
              waiting = left;
              balance = λ weight count counts. omega (
                arith,
                next_download weight i j joins pending,
                h.balance weight count counts,
                sum_of-append weight posts (t ∷ []),
              );
            },
            λ f. record {
              live = started;
              ready = h.ready;
              waiting = left;
              balance = λ weight count counts. omega (
                arith,
                next_download weight i j joins pending,
                h.balance weight count counts,
                counts.fails t s (rw f refl),
              );
            },
          );
      processes = λ i p joins posts pending s h.
          let t = (join_next i p posts).0 in
          let (one, others) =
            join_next-All (λ t. Uncancelled fate t × (fate.download t ≡ done)) i p posts h.ready in
          (
            one.0.1,
            λ d. record {
              live = h.live;
              ready = others;
              waiting = h.waiting;
              balance = λ weight count counts. omega (
                arith,
                h.balance weight count counts,
                counts.completes t s (rw (one.1, d) refl),
                join_next-sum weight i p posts,
              );
            },
            λ f. record {
              live = h.live;
              ready = others;
              waiting = h.waiting;
              balance = λ weight count counts. omega (
                arith,
                h.balance weight count counts,
                counts.fails t s (rw (one.1, f) refl),
                join_next-sum weight i p posts,
              );
            },
          );
    }

    pub run_tasks-Counted :
        (download_concurrency : ℕ)
        → All (Uncancelled fate) tasks
        → (s : Tally) × (run_tasks fate batch_save_size download_concurrency tasks start ≡ ok s)
          × ((weight : DownloadTask → ℕ) (count : Tally → ℕ)
              → Counts weight count
              → count s ≡ count start + sum_of weight tasks)
    run_tasks-Counted download_concurrency h =
        let c = max download_concurrency 1 in
        let (s, ended, rest) =
          run_tasks-Ends fate batch_save_size Balanced Balanced-Kept download_concurrency tasks
            start
            (record {
              live = All-take (Uncancelled fate) c tasks h;
              ready = tt;
              waiting = All-drop (Uncancelled fate) c tasks h;
              balance = λ weight count counts. omega (
                arith,
                sum_of-append weight (take c tasks) (drop c tasks),
                ap (sum_of weight) (take-append-drop c tasks),
              );
            }) in
        (s, ended, λ weight count counts. omega (arith, rest.balance weight count counts))
