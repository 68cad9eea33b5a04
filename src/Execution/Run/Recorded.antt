-- ===== src/Execution/Run/Recorded.antt =====
-- What the download record holds after a run.
use mathlib.Core.Path.{subst}
use moe_assets_updater_next.Prelude.{
  ℕ, ◌+◌, ◌<◌, ◌≡◌, refl, ap, Option, none, some, [], List, ◌∷◌, arith, Text, text_eq, take, drop,
  join_next, max, sum_of, sum_of-append, join_next-sum, join_next-All, All, All-append, All-take,
  All-drop, take-append-drop, lookup, In, All-In, All-In_self,
}
use moe_assets_updater_next.Execution.{DownloadTask}
use moe_assets_updater_next.Execution.Run.{done, Tally, Fate, ok, run_tasks}
use moe_assets_updater_next.Execution.Run.Ends.{Kept, run_tasks-Ends}
use moe_assets_updater_next.Execution.Run.Counted.{Uncancelled, next_download}
use moe_assets_updater_next.Execution.Run.Standing.{
  named, In-named, Judged, Stands, Stands-completed, Stands-failed,
}

module _ (fate : Fate) (size : ℕ) where
  module _ (tasks : List DownloadTask) (start : Tally) where
    abbrev Planned : DownloadTask → Type 0
    Planned t = In t tasks × Uncancelled fate t

    left_of : Text → List DownloadTask → List DownloadTask → List DownloadTask → ℕ
    left_of name joins posts pending =
        sum_of (named name) joins + sum_of (named name) posts + sum_of (named name) pending

    -- A name that shall be recorded is one of a task.
    abbrev Sought : Text → Option Text → Type 0
    Sought name none = Unit {0}
    Sought name (some hash) = 0 < sum_of (named name) tasks

    record Tracked (joins posts pending : List DownloadTask) (s : Tally) : Type 0 where
      live : All Planned joins
      ready : All (λ t. Planned t × (fate.download t ≡ done)) posts
      waiting : All Planned pending
      stands :
          (name : Text) (v : Option Text)
          → Sought name v
          → All (Judged fate size name v) tasks
          → Stands fate size start name v (left_of name joins posts pending) s

    Tracked-Kept : Kept fate size Tracked
    unfolding left_of
    Tracked-Kept = record {
      downloads = λ i j joins posts pending s h.
          let t = (join_next i j joins).0 in
          let (one, others) = join_next-All Planned i j joins h.live in
          let started =
            All-append Planned (join_next i j joins).1 (take 1 pending) others
              (All-take Planned 1 pending h.waiting) in
          let left = All-drop Planned 1 pending h.waiting in
          (
            one.1.0,
            λ d. record {
              live = started;
              ready =
                  All-append (λ t. Planned t × (fate.download t ≡ done)) posts (t ∷ []) h.ready
                    ((one, d), tt);
              waiting = left;
              stands = λ name v sought judged.
                  subst (λ n. Stands fate size start name v n s)
                    (omega (
                      arith,
                      next_download (named name) i j joins pending,
                      sum_of-append (named name) posts (t ∷ []),
                    ))
                    (h.stands name v sought judged);
            },
            λ f. record {
              live = started;
              ready = h.ready;
              waiting = left;
              stands = λ name v sought judged.
                  Stands-failed fate size start name v _ t s
                    (All-In (Judged fate size name v) tasks judged one.0) (rw f refl)
                    (subst (λ n. Stands fate size start name v n s)
                      (omega (arith, next_download (named name) i j joins pending))
                      (h.stands name v sought judged));
            },
          );
      processes = λ i p joins posts pending s h.
          let t = (join_next i p posts).0 in
          let (one, others) =
            join_next-All (λ t. Planned t × (fate.download t ≡ done)) i p posts h.ready in
          (
            one.0.1.1,
            λ d. record {
              live = h.live;
              ready = others;
              waiting = h.waiting;
              stands = λ name v sought judged.
                  Stands-completed fate size start name v _ t s
                    (All-In (Judged fate size name v) tasks judged one.0.0) (rw (one.1, d) refl)
                    (subst (λ n. Stands fate size start name v n s)
                      (omega (arith, join_next-sum (named name) i p posts))
                      (h.stands name v sought judged));
            },
            λ f. record {
              live = h.live;
              ready = others;
              waiting = h.waiting;
              stands = λ name v sought judged.
                  Stands-failed fate size start name v _ t s
                    (All-In (Judged fate size name v) tasks judged one.0.0) (rw (one.1, f) refl)
                    (subst (λ n. Stands fate size start name v n s)
                      (omega (arith, join_next-sum (named name) i p posts))
                      (h.stands name v sought judged));
            },
          );
    }

    pub run_tasks-Stands :
        (download_concurrency : ℕ)
        → All (Uncancelled fate) tasks
        → (s : Tally) × (run_tasks fate size download_concurrency tasks start ≡ ok s)
          × ((name : Text)
              → All (Judged fate size name none) tasks
              → lookup name s.downloaded_assets ≡ lookup name start.downloaded_assets)
          × ((name hash : Text) (t : DownloadTask)
              → In t tasks
              → t.bundle_path ≡ name
              → All (Judged fate size name (some hash)) tasks
              → lookup name s.downloaded_assets ≡ some hash)
    unfolding left_of
    run_tasks-Stands download_concurrency h =
        let c = max download_concurrency 1 in
        let planned = both tasks (All-In_self tasks) h in
        let (s, ended, rest) =
          run_tasks-Ends fate size Tracked Tracked-Kept download_concurrency tasks start (record {
            live = All-take Planned c tasks planned;
            ready = tt;
            waiting = All-drop Planned c tasks planned;
            stands = λ name v sought judged. begin c name v sought;
          }) in
        (
          s,
          ended,
          λ name judged. rest.stands name none tt judged,
          λ name hash t i e judged.
              rest.stands name (some hash) (In-named name t tasks i e) judged refl,
        )
      where
        both :
            (ts : List DownloadTask)
            → All (λ t. In t tasks) ts
            → All (Uncancelled fate) ts
            → All Planned ts
        both [] p q = tt
        both (t ∷ ts) p q = ((p.0, q.0), both ts p.1 q.1)

        begin :
            (c : ℕ) (name : Text) (v : Option Text)
            → Sought name v
            → Stands fate size start name v
                (sum_of (named name) (take c tasks) + 0 + sum_of (named name) (drop c tasks))
                start
        begin c name none p = refl
        begin c name (some hash) p = λ z. absurd (
            omega (
              arith,
              sum_of-append (named name) (take c tasks) (drop c tasks),
              ap (sum_of (named name)) (take-append-drop c tasks),
            ))
