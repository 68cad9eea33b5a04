-- ===== src/Execution/Run/Ends.antt =====
-- The loop over the tasks ends, and what each of its rounds keeps holds at its end.
use moe_assets_updater_next.Prelude.{
  ℕ, zero, suc, ◌+◌, ◌*◌, ◌≤◌, ◌≡◌, ◌≢◌, refl, ap, ◌⊎◌, inl, inr, [], List, ◌∷◌, ◌++◌, arith,
  length, take, drop, join_next, join_next-length, length-append, take-append-drop, length-drop,
  Bool-cases, max,
}
use moe_assets_updater_next.Execution.{DownloadTask}
use moe_assets_updater_next.Execution.Run.{
  BundleOutcome, done, failed, Tally, Fate, Ran, ok, record_failed_bundle, record_completed_bundle,
  after_download, after_post_process, run_loop, run_tasks,
}

pub BundleOutcome-cases :
    (o : BundleOutcome) → (o ≡ done) ⊎ ((o ≡ failed) ⊎ (o ≡ BundleOutcome.cancelled))
BundleOutcome-cases done = inl refl
BundleOutcome-cases failed = inr (inl refl)
BundleOutcome-cases BundleOutcome.cancelled = inr (inr refl)

-- A predicate on what is being downloaded, what waits for its post-processing or is in it, what is not yet
-- spawned, and the variables.
abbrev pub OnLoop : Type 1
OnLoop = List DownloadTask → List DownloadTask → List DownloadTask → Tally → Type 0

module _ (fate : Fate) (batch_save_size : ℕ) where
  -- What a round has to show: that nothing is cancelled, and that the predicate holds after it.
  pub record Kept (P : OnLoop) : Type 0 where
    pub downloads :
        (i : ℕ) (j : DownloadTask) (joins posts pending : List DownloadTask) (s : Tally)
        → P (j ∷ joins) posts pending s
        → let r = join_next i j joins in
          (fate.download r.0 ≢ BundleOutcome.cancelled)
          × (fate.download r.0 ≡ done
              → P (r.1 ++ take 1 pending) (posts ++ r.0 ∷ []) (drop 1 pending) s)
          × (fate.download r.0 ≡ failed
              → P (r.1 ++ take 1 pending) posts (drop 1 pending) (record_failed_bundle r.0 s))
    pub processes :
        (i : ℕ) (p : DownloadTask) (joins posts pending : List DownloadTask) (s : Tally)
        → P joins (p ∷ posts) pending s
        → let r = join_next i p posts in
          (fate.post_process r.0 ≢ BundleOutcome.cancelled)
          × (fate.post_process r.0 ≡ done
              → P joins r.1 pending (record_completed_bundle fate batch_save_size r.0 s))
          × (fate.post_process r.0 ≡ failed → P joins r.1 pending (record_failed_bundle r.0 s))

  -- The rounds left suffice, and a download is in flight while any task waits to be spawned.
  abbrev Fueled : ℕ → List DownloadTask → List DownloadTask → List DownloadTask → Type 0
  Fueled n joins posts pending =
      (2 * (length joins + length pending) + length posts ≤ n)
      × (length joins ≡ 0 → length pending ≡ 0)

  Fueled-download :
      (n i : ℕ) (j : DownloadTask) (joins posts posts' pending : List DownloadTask)
      → Fueled (suc n) (j ∷ joins) posts pending
      → length posts' ≤ suc (length posts)
      → Fueled n ((join_next i j joins).1 ++ take 1 pending) posts' (drop 1 pending)
  Fueled-download n i j joins posts posts' [] h l =
      let e = length-append (join_next i j joins).1 [] in
      (omega (arith, e, join_next-length i j joins, h.0), λ _. omega arith)
  Fueled-download n i j joins posts posts' (k ∷ pending) h l =
      let e = length-append (join_next i j joins).1 (k ∷ []) in
      (omega (arith, e, join_next-length i j joins, h.0), λ z. absurd (omega (arith, e)))

  Fueled-process :
      (n i : ℕ) (p : DownloadTask) (joins posts pending : List DownloadTask)
      → Fueled (suc n) joins (p ∷ posts) pending
      → Fueled n joins (join_next i p posts).1 pending
  Fueled-process n i p joins posts pending h = (omega (arith, join_next-length i p posts, h.0), h.1)

  module _ (P : OnLoop) (kept : Kept P) where
    -- The loop from a state ends, and the predicate holds when nothing is left.
    abbrev pub Ends : Ran Tally → Type 0
    Ends run = (s : Tally) × (run ≡ ok s) × P [] [] [] s

    download-Ends :
        (i : ℕ) (j : DownloadTask) (joins posts pending : List DownloadTask) (s : Tally)
        (rest : List DownloadTask → Tally → Ran Tally)
        → P (j ∷ joins) posts pending s
        → ((posts' : List DownloadTask) (s' : Tally)
            → length posts' ≤ suc (length posts)
            → P ((join_next i j joins).1 ++ take 1 pending) posts' (drop 1 pending) s'
            → Ends (rest posts' s'))
        → Ends (
            after_download fate batch_save_size
              (fate.download (join_next i j joins).0)
              (join_next i j joins).0
              posts
              s
              rest)
    download-Ends i j joins posts pending s rest p go =
        let t = (join_next i j joins).0 in
        let (live, good, bad) = kept.downloads i j joins posts pending s p in
        elim (BundleOutcome-cases (fate.download t)) [
          | inl e ↦
              rw e (go (posts ++ t ∷ []) s (omega (arith, length-append posts (t ∷ []))) (good e))
          | inr (inl e) ↦ rw e (go posts (record_failed_bundle t s) (omega arith) (bad e))
          | inr (inr e) ↦ absurd (live e)
        ]

    process-Ends :
        (i : ℕ) (p : DownloadTask) (joins posts pending : List DownloadTask) (s : Tally)
        (rest : Tally → Ran Tally)
        → P joins (p ∷ posts) pending s
        → ((s' : Tally) → P joins (join_next i p posts).1 pending s' → Ends (rest s'))
        → Ends (
            after_post_process fate batch_save_size
              (fate.post_process (join_next i p posts).0)
              (join_next i p posts).0
              s
              rest)
    process-Ends i p joins posts pending s rest h go =
        let t = (join_next i p posts).0 in
        let (live, good, bad) = kept.processes i p joins posts pending s h in
        elim (BundleOutcome-cases (fate.post_process t)) [
          | inl e ↦ rw e (go (record_completed_bundle fate batch_save_size t s) (good e))
          | inr (inl e) ↦ rw e (go (record_failed_bundle t s) (bad e))
          | inr (inr e) ↦ absurd (live e)
        ]

    pub run_loop-Ends :
        (n : ℕ) (joins posts pending : List DownloadTask) (s : Tally)
        → Fueled n joins posts pending
        → P joins posts pending s
        → Ends (run_loop fate batch_save_size n joins posts pending s)
    unfolding run_loop
    run_loop-Ends n [] [] [] s f p = (s, refl, p)
    run_loop-Ends n [] [] (k ∷ pending) s f p = absurd (omega (arith, f.1))
    run_loop-Ends zero (j ∷ joins) posts pending s f p = absurd (omega (arith, f.0))
    run_loop-Ends zero [] (q ∷ posts) pending s f p = absurd (omega (arith, f.0))
    run_loop-Ends (suc n) (j ∷ joins) [] pending s f p =
        download-Ends (fate.pick n).index j joins [] pending s _ p λ posts s' l h.
          run_loop-Ends n ((join_next (fate.pick n).index j joins).1 ++ take 1 pending) posts
            (drop 1 pending) s' (Fueled-download n (fate.pick n).index j joins [] posts pending f l)
            h
    run_loop-Ends (suc n) [] (q ∷ posts) pending s f p =
        process-Ends (fate.pick n).index q [] posts pending s _ p λ s' h.
          run_loop-Ends n [] (join_next (fate.pick n).index q posts).1 pending s'
            (Fueled-process n (fate.pick n).index q [] posts pending f) h
    run_loop-Ends (suc n) (j ∷ joins) (q ∷ posts) pending s f p =
        elim (Bool-cases (fate.pick n).download_first) [
          | inl first ↦ rw first (
              download-Ends (fate.pick n).index j joins (q ∷ posts) pending s _ p λ posts' s' l h.
                run_loop-Ends n ((join_next (fate.pick n).index j joins).1 ++ take 1 pending) posts'
                  (drop 1 pending) s'
                  (Fueled-download n (fate.pick n).index j joins (q ∷ posts) posts' pending f l) h)
          | inr later ↦ rw later (
              process-Ends (fate.pick n).index q (j ∷ joins) posts pending s _ p λ s' h.
                run_loop-Ends n (j ∷ joins) (join_next (fate.pick n).index q posts).1 pending s'
                  (Fueled-process n (fate.pick n).index q (j ∷ joins) posts pending f) h)
        ]

    pub run_tasks-Ends :
        (download_concurrency : ℕ) (tasks : List DownloadTask) (s : Tally)
        → P (take (max download_concurrency 1) tasks) [] (drop (max download_concurrency 1) tasks) s
        → Ends (run_tasks fate batch_save_size download_concurrency tasks s)
    unfolding run_tasks
    run_tasks-Ends download_concurrency tasks s p =
        let c = max download_concurrency 1 in
        let whole = ap length (take-append-drop c tasks) in
        let parts = length-append (take c tasks) (drop c tasks) in
        let later = length-drop c tasks in
        run_loop-Ends (2 * length tasks) (take (max download_concurrency 1) tasks) []
          (drop (max download_concurrency 1) tasks) s (omega arith, λ z. omega arith) p
