-- ===== src/Poller/Transfers/Complete.antt =====
-- Whatever the schedule, the concurrent uploads are all the uploads, each once.
use moe_assets_updater_next.Prelude.{
  ℕ, zero, suc, ◌+◌, ◌≡◌, refl, sym, ap, ◌∙◌, inl, inr, Option, none, some, List, [], ◌∷◌, ◌++◌,
  join_next, sum_of, sum_of-append, join_next-sum, join_next-length, join_next-All, All-join_next,
  min, max, length, take, drop, arith, Option-cases, All, All-append, All-take, All-drop,
  length-append, length-take, length-drop, take-append-drop,
}
use moe_assets_updater_next.Hip.Codec.{Placement}
use moe_assets_updater_next.Poller.{Result, ok, err, hip}
use moe_assets_updater_next.Poller.Transfers.{
  HipUploadFileJob, joined, join_loop, upload_hip_files_concurrently,
}

-- The sum of a weight over what is returned, and over what the uploads of the jobs return.
abbrev pub weigh : (Option Placement → ℕ) → List (Option Placement) → ℕ
weigh f ps = sum_of f ps

module _ (upload : HipUploadFileJob → Option (Option Placement)) where
  abbrev pub Succeeds : HipUploadFileJob → Type 0
  Succeeds job = (p : Option Placement) × (upload job ≡ some p)

  abbrev weight_of : (Option Placement → ℕ) → Option (Option Placement) → ℕ
  weight_of f none = 0
  weight_of f (some p) = f p

  abbrev pub weigh_jobs : (Option Placement → ℕ) → List HipUploadFileJob → ℕ
  weigh_jobs f jobs = sum_of (λ j. weight_of f (upload j)) jobs

module _ (upload : HipUploadFileJob → Option (Option Placement)) (schedule : ℕ → ℕ) where
  -- The uploads that the loop still has to end are `n`, and one is in flight while any waits.
  abbrev Sized : ℕ → List HipUploadFileJob → List HipUploadFileJob → Type 0
  Sized n joins pending =
      (n ≡ length joins + length pending) × (length joins ≡ 0 → length pending ≡ 0)

  Sized-next :
      (n i : ℕ) (j : HipUploadFileJob) (joins pending : List HipUploadFileJob)
      → Sized (suc n) (j ∷ joins) pending
      → Sized n ((join_next i j joins).1 ++ take 1 pending) (drop 1 pending)
  Sized-next n i j joins [] h =
      let e = length-append (join_next i j joins).1 [] in
      (omega (arith, e, join_next-length i j joins, h.0), λ _. omega arith)
  Sized-next n i j joins (k ∷ pending) h =
      let e = length-append (join_next i j joins).1 (k ∷ []) in
      (omega (arith, e, join_next-length i j joins, h.0), λ z. absurd (omega (arith, e)))

  next-weigh :
      (f : Option Placement → ℕ) (pending : List HipUploadFileJob)
      → weigh_jobs upload f (take 1 pending) + weigh_jobs upload f (drop 1 pending)
        ≡ weigh_jobs upload f pending
  next-weigh f [] = omega arith
  next-weigh f (j ∷ pending) = omega arith

  -- The rest of the loop, given what the next upload returned.
  abbrev rest :
      ℕ
      → HipUploadFileJob
      → List HipUploadFileJob
      → List HipUploadFileJob
      → List (Option Placement)
      → Option Placement
      → Result (List (Option Placement))
  rest n j joins pending results placement =
      join_loop upload schedule n ((join_next (schedule n) j joins).1 ++ take 1 pending)
        (drop 1 pending) (results ++ placement ∷ [])

  join_loop-Complete :
      (n : ℕ) (joins pending : List HipUploadFileJob) (results : List (Option Placement))
      → Sized n joins pending
      → All (Succeeds upload) joins
      → All (Succeeds upload) pending
      → (out : List (Option Placement)) × (join_loop upload schedule n joins pending results
          ≡ ok out)
        × ((f : Option Placement → ℕ)
            → weigh f out
              ≡ weigh f results + (weigh_jobs upload f joins + weigh_jobs upload f pending))
  unfolding join_loop
  join_loop-Complete n [] [] results h p q = (results, refl, λ f. omega arith)
  join_loop-Complete n [] (k ∷ pending) results h p q = absurd (omega (arith, h.1))
  join_loop-Complete zero (j ∷ joins) pending results h p q = absurd (omega (arith, h.0))
  join_loop-Complete (suc n) (j ∷ joins) pending results h p q =
      let (one, others) = join_next-All (Succeeds upload) (schedule n) j joins p in
      let (placement, e) = one in
      let (out, run, weights) =
        join_loop-Complete n ((join_next (schedule n) j joins).1 ++ take 1 pending) (drop 1 pending)
          (results ++ placement ∷ []) (Sized-next n (schedule n) j joins pending h)
          (All-append (Succeeds upload) (join_next (schedule n) j joins).1 (take 1 pending) others
            (All-take (Succeeds upload) 1 pending q))
          (All-drop (Succeeds upload) 1 pending q) in
      (
        out,
        ap (λ o. joined o (rest n j joins pending results)) e ∙ run,
        λ f. omega (
          arith,
          weights f,
          sum_of-append f results (placement ∷ []),
          sum_of-append (λ j. weight_of upload f (upload j)) (join_next (schedule n) j joins).1
              (take 1 pending),
          join_next-sum (λ j. weight_of upload f (upload j)) (schedule n) j joins,
          ap (weight_of upload f) e,
          next-weigh f pending,
        ),
      )

  All-next :
      (pending : List HipUploadFileJob) (others : List HipUploadFileJob)
      → All (Succeeds upload) (others ++ take 1 pending)
      → All (Succeeds upload) (drop 1 pending)
      → All (Succeeds upload) others × All (Succeeds upload) pending
  All-next pending [] p q = (tt, front pending p q)
    where
      front :
          (pending : List HipUploadFileJob)
          → All (Succeeds upload) (take 1 pending)
          → All (Succeeds upload) (drop 1 pending)
          → All (Succeeds upload) pending
      front [] p q = tt
      front (j ∷ pending) p q = (p.0, q)
  All-next pending (j ∷ others) p q = let (r, s) = All-next pending others p.1 q in ((p.0, r), s)

  -- The loop returns only when every upload succeeded.
  join_loop-Succeeds :
      (n : ℕ) (joins pending : List HipUploadFileJob) (results : List (Option Placement))
      {out : List (Option Placement)}
      → Sized n joins pending
      → join_loop upload schedule n joins pending results ≡ ok out
      → All (Succeeds upload) joins × All (Succeeds upload) pending
  unfolding join_loop
  join_loop-Succeeds n [] [] results h e = (tt, tt)
  join_loop-Succeeds n [] (k ∷ pending) results h e = absurd (omega (arith, h.1))
  join_loop-Succeeds zero (j ∷ joins) pending results h e = absurd (omega (arith, h.0))
  join_loop-Succeeds (suc n) (j ∷ joins) pending results h e =
      elim (Option-cases (upload (join_next (schedule n) j joins).0)) [
        | inl failed ↦
            let shut : err hip ≡ ok _ =
              sym (ap (λ o. joined o (rest n j joins pending results)) failed) ∙ e in
            cc
        | inr (placement, succeeded) ↦
            let (p, q) =
              join_loop-Succeeds n ((join_next (schedule n) j joins).1 ++ take 1 pending)
                (drop 1 pending) (results ++ placement ∷ [])
                (Sized-next n (schedule n) j joins pending h)
                (sym (ap (λ o. joined o (rest n j joins pending results)) succeeded) ∙ e) in
            let (others, waiting) = All-next pending (join_next (schedule n) j joins).1 p q in
            (
              All-join_next (Succeeds upload) (schedule n) j joins (placement, succeeded) others,
              waiting,
            )
      ]

  Sized-start :
      (jobs : List HipUploadFileJob) (m : ℕ)
      → let c = min (max m 1) (length jobs) in Sized (length jobs) (take c jobs) (drop c jobs)
  Sized-start jobs m =
      let c = min (max m 1) (length jobs) in
      let t = length-take c jobs (omega arith) in
      let d = length-drop c jobs in (omega (arith, t, d), λ z. omega (arith, t, d))

  -- Whatever the schedule and the concurrency, the uploads of a batch return exactly when each of them
  -- succeeds, and then each result once: a sum of any weight over the results is its sum over the
  -- uploads.
  pub upload_hip_files_concurrently-Complete :
      (jobs : List HipUploadFileJob) (max_concurrency : ℕ)
      → (All (Succeeds upload) jobs
          → (out : List (Option Placement)) × (upload_hip_files_concurrently upload schedule jobs
                max_concurrency
              ≡ ok out)
            × ((f : Option Placement → ℕ) → weigh f out ≡ weigh_jobs upload f jobs))
        × ((out : List (Option Placement))
            → upload_hip_files_concurrently upload schedule jobs max_concurrency ≡ ok out
            → All (Succeeds upload) jobs)
  unfolding upload_hip_files_concurrently
  upload_hip_files_concurrently-Complete jobs m =
      let c = min (max m 1) (length jobs) in
      (
        λ h.
            let (out, run, weights) =
              join_loop-Complete (length jobs) (take c jobs) (drop c jobs) [] (Sized-start jobs m)
                (All-take (Succeeds upload) c jobs h) (All-drop (Succeeds upload) c jobs h) in
            (
              out,
              run,
              λ f. omega (
                arith,
                weights f,
                sum_of-append (λ j. weight_of upload f (upload j)) (take c jobs) (drop c jobs),
                ap (weigh_jobs upload f) (take-append-drop c jobs),
              ),
            ),
        λ out e.
            let (p, q) =
              join_loop-Succeeds (length jobs) (take c jobs) (drop c jobs) [] (Sized-start jobs m)
                e in
            rw (take-append-drop c jobs) at
              (All-append (Succeeds upload) (take c jobs) (drop c jobs) p q),
      )
