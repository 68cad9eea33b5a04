-- ===== src/Poller/Uploader/Runs.antt =====
-- The whole run of the uploader: every bundle that it received is committed, once and in order.
use moe_assets_updater_next.Prelude.{
  ℕ, ◌+◌, ◌≤◌, ◌<◌, ◌≡◌, refl, sym, ap, ◌∙◌, Bool, true, false, not, ◌&&◌, ◌||◌, Option, List, [],
  ◌∷◌, ◌++◌, arith, ltb, leb, ◌==◌, length, length-append, append-nil, append_assoc, text_eq,
  Bool-cases, inl, inr, contains,
}
use moe_assets_updater_next.Snapshot.{AssetBundleInfo}
use moe_assets_updater_next.Snapshot.Disk.{Disk}
use moe_assets_updater_next.Poller.{
  Result, ok, err, BundleArtefacts, CommitBundleCompletion, Commit,
}
use moe_assets_updater_next.Poller.Artefacts.{paths_of}
use moe_assets_updater_next.Poller.Uploader.{
  Luck, Uploader, Settings, commit_metadata, flush_metadata_only_commit, receive, finish_run,
  and_then, receive_all, new_uploader, run_uploader,
}
use moe_assets_updater_next.Poller.Uploader.Paths.{uploaded_paths, committed, uploaded_paths-extras}
use moe_assets_updater_next.Poller.Uploader.Delivered.{
  Progress, Failed, Progress-Failed, Flushed, paths_of-append, Once-cons, flush_batch-Flushed,
}

module _ {Bytes : Type 0} (pack : AssetBundleInfo → Option Bytes)
    (unpack : Bytes → Option AssetBundleInfo) (settings : Settings) (new_info : AssetBundleInfo)
    (world : ℕ → Luck Bytes) (bytes_of : BundleArtefacts → ℕ) where
  -- The batch has not reached the threshold.
  abbrev Under : Uploader Bytes → Type 0
  Under u = 1 ≤ settings.commit_batch_bundles → length u.batch < settings.commit_batch_bundles

  abbrev Received : List BundleArtefacts → Uploader Bytes × Result (Unit {0}) → Type 0
  Received arts (u, ok _) = Progress settings arts u × Under u
  Received arts (u, err e) = Failed settings arts u

  numbered :
      {arts : List BundleArtefacts} {u : Uploader Bytes}
      → (n : ℕ) → Progress settings arts u
      → Progress settings arts (record u { batch_index = n })
  numbered n h = record {
    delivered = h.delivered;
    first = h.first;
    once = h.once;
    bounded = h.bounded;
    processed = h.processed;
  }

  Flushed-Received :
      (arts : List BundleArtefacts) (r : Uploader Bytes × Result (Unit {0}))
      → Flushed settings arts r
      → Received arts r
  Flushed-Received arts (u, ok _) h = (h.0, λ on. omega (arith, ap length h.1))
  Flushed-Received arts (u, err e) h = h

  taken :
      (arts : List BundleArtefacts) (art : BundleArtefacts) (u : Uploader Bytes)
      → Progress settings arts u
      → Progress settings
          (arts ++ art ∷ [])
          (record u { batch = u.batch ++ art ∷ []; batch_bytes = u.batch_bytes + bytes_of art })
  taken arts art u h = record {
    delivered =
        ap (λ ps. committed u.commits ++ ps) (paths_of-append u.batch (art ∷ []))
        ∙ sym (append_assoc (committed u.commits) (paths_of u.batch) (art.bundle_path ∷ []))
        ∙ ap (λ ps. ps ++ art.bundle_path ∷ []) h.delivered
        ∙ sym (paths_of-append arts (art ∷ []));
    first = h.first;
    once = h.once;
    bounded = h.bounded;
    processed = h.processed;
  }

  receive-Received :
      (arts : List BundleArtefacts) (art : BundleArtefacts) (u : Uploader Bytes)
      → Progress settings arts u
      → Under u
      → Received (arts ++ art ∷ []) (receive pack unpack settings new_info world bytes_of art u)
  unfolding receive
  receive-Received arts art u h under =
      let more = length-append u.batch (art ∷ []) in
      let bundles =
        ltb 0 settings.commit_batch_bundles
        && leb settings.commit_batch_bundles (length (u.batch ++ art ∷ [])) in
      let bytes =
        ltb 0 settings.commit_batch_bytes
        && leb settings.commit_batch_bytes (u.batch_bytes + bytes_of art) in
      elim (Bool-cases (bundles || bytes)) [
        | inr below ↦ rw below (taken arts art u h, λ on. ground arith)
        | inl full ↦ rw full (
            Flushed-Received (arts ++ art ∷ []) _ (
              flush_batch-Flushed pack unpack settings new_info (arts ++ art ∷ [])
                (world (u.batch_index + 1)) _ (numbered (u.batch_index + 1) (taken arts art u h))
                (λ on. omega (arith, more, under on))))
      ]

  later :
      (arts more : List BundleArtefacts) {u : Uploader Bytes}
      → Failed settings arts u
      → Failed settings (arts ++ more) u
  later arts more {u} h = record {
    rest = h.rest ++ paths_of more;
    delivered =
        sym (append_assoc (committed u.commits) h.rest (paths_of more))
        ∙ ap (λ ps. ps ++ paths_of more) h.delivered
        ∙ sym (paths_of-append arts more);
    once = h.once;
    bounded = h.bounded;
  }

  -- The rest of the run after a step that took `seen`.
  and_then-Received :
      (seen arts : List BundleArtefacts)
      (next : Uploader Bytes → Uploader Bytes × Result (Unit {0}))
      (r : Uploader Bytes × Result (Unit {0}))
      → ((v : Uploader Bytes)
          → Progress settings seen v
          → Under v
          → Received (seen ++ arts) (next v))
      → Received seen r
      → Received (seen ++ arts) (and_then pack unpack settings new_info world bytes_of r next)
  and_then-Received seen arts next (v, ok _) k g = k v g.0 g.1
  and_then-Received seen arts next (v, err e) k g = later seen arts g

  receive_all-Received :
      (seen arts : List BundleArtefacts) (u : Uploader Bytes)
      → Progress settings seen u
      → Under u
      → Received (seen ++ arts) (receive_all pack unpack settings new_info world bytes_of arts u)
  unfolding receive_all
  receive_all-Received seen [] u h under = rw (append-nil seen) (h, under)
  receive_all-Received seen (art ∷ arts) u h under = rw (append_assoc seen (art ∷ []) arts) at (
      and_then-Received (seen ++ art ∷ []) arts _
        (receive pack unpack settings new_info world bytes_of art u)
        (λ v. receive_all-Received (seen ++ art ∷ []) arts v) (receive-Received seen art u h under))

  reported :
      {arts : List BundleArtefacts} {u : Uploader Bytes}
      → (open_after : Bool) → Progress settings arts u
      → Progress settings arts
          (record u { first_commit_pending = false; session_open = open_after })
  reported open_after h = record {
    delivered = h.delivered;
    first = λ e. absurd cc;
    once = h.once;
    bounded = h.bounded;
    processed = h.processed;
  }

  closed :
      {arts : List BundleArtefacts} {u : Uploader Bytes}
      → Progress settings arts u
      → Progress settings arts (record u { session_open = false })
  closed h = record {
    delivered = h.delivered;
    first = h.first;
    once = h.once;
    bounded = h.bounded;
    processed = h.processed;
  }

  -- The commit that reports the skipped bundles alone.
  abbrev metadata_commit : ℕ × ℕ → List CommitBundleCompletion → Commit
  metadata_commit counters completed = record {
    bundle_count = 0;
    stats = record {
      skipped_by_layer1 = counters.0;
      skipped_by_check = counters.1;
      uploaded_shared = 0;
      uploaded_override = 0;
    };
    completed_bundles = completed;
  }

  commit_metadata-Flushed :
      (arts : List BundleArtefacts) (luck : Luck Bytes)
      (extras : (ℕ × ℕ) × List CommitBundleCompletion) (u : Uploader Bytes)
      → Progress settings arts u
      → u.first_commit_pending ≡ false
      → u.commits ≡ []
      → u.batch ≡ []
      → uploaded_paths extras.1 ≡ []
      → Flushed settings arts (commit_metadata pack unpack settings new_info luck extras u)
  unfolding commit_metadata
  commit_metadata-Flushed arts luck (counters, []) u h first none_yet empty nothing =
      (closed h, empty)
  commit_metadata-Flushed arts luck (counters, c ∷ completed) u h first none_yet empty nothing =
      let same = ap (λ ps. committed u.commits ++ ps) nothing ∙ append-nil (committed u.commits) in
      elim (Bool-cases (not u.session_open && not luck.connects)) [
        | inl refused ↦ rw refused (Progress-Failed settings h)
        | inr connected ↦ elim (Bool-cases (not luck.commits)) [
          | inl failed ↦ rw (connected, failed) (Progress-Failed settings (closed h))
          | inr done ↦
              rw (connected, done)
                (
                  record {
                    delivered = ap (λ ps. ps ++ paths_of u.batch) same ∙ h.delivered;
                    first = λ pending. absurd cc;
                    once =
                        Once-cons (metadata_commit counters (c ∷ completed)) u.commits
                          (inl none_yet) h.once;
                    bounded = (λ on. omega (arith, ap length nothing), h.bounded);
                    processed = λ x. h.processed x ∙ sym (ap (λ ps. contains ps x) same);
                  },
                  empty,
                )
        ]
      ]

  finish_run-Flushed :
      (arts : List BundleArtefacts) (u : Uploader Bytes)
      → Progress settings arts u
      → Under u
      → Flushed settings arts (finish_run pack unpack settings new_info world bytes_of u)
  unfolding finish_run flush_metadata_only_commit
  finish_run-Flushed arts u h under =
      let luck = world (u.batch_index + 1) in
      elim (Bool-cases (not (length u.batch == 0))) [
        | inl some_left ↦ rw some_left (
            flush_batch-Flushed pack unpack settings new_info arts luck _
              (numbered (u.batch_index + 1) h) (λ on. omega (arith, under on)))
        | inr empty ↦ elim (Bool-cases u.first_commit_pending) [
          | inl pending ↦
              rw (empty, pending)
                (commit_metadata-Flushed arts luck _ (record u { first_commit_pending = false })
                  (reported u.session_open h) refl (h.first pending) (nothing u.batch empty)
                  (uploaded_paths-extras true luck.skipped))
          | inr taken ↦ rw (empty, taken) (reported false h, nothing u.batch empty)
        ]
      ]
    where
      nothing : (batch : List BundleArtefacts) → not (length batch == 0) ≡ false → batch ≡ []
      nothing [] e = refl
      nothing (b ∷ batch) e = absurd (ground arith)

  start :
      (disk : Disk Bytes)
      → Progress settings [] (new_uploader pack unpack settings new_info world bytes_of disk)
  start disk = record {
    delivered = refl;
    first = λ _. refl;
    once = tt;
    bounded = tt;
    processed = λ x. refl;
  }

  -- A run that ends well has committed every bundle that it received, each once and in the order of
  -- arrival, with nothing left in the batch, and returns exactly these names; if it fails, the
  -- acknowledged commits report the first of them. Either way only the first commit carries the counters
  -- and the completions of the skipped bundles, and a commit has no more bundles than the threshold.
  pub run_uploader-Flushed :
      (arts : List BundleArtefacts) (disk : Disk Bytes)
      → Flushed settings arts (run_uploader pack unpack settings new_info world bytes_of arts disk)
  unfolding run_uploader
  run_uploader-Flushed arts disk =
      ended (receive_all pack unpack settings new_info world bytes_of arts _)
        (receive_all-Received [] arts _ (start disk) (λ on. omega (arith, on)))
    where
      ended :
          (r : Uploader Bytes × Result (Unit {0}))
          → Received arts r
          → Flushed settings arts (
              and_then pack unpack settings new_info world bytes_of r
                (finish_run pack unpack settings new_info world bytes_of))
      ended (v, ok _) g = finish_run-Flushed arts v g.0 g.1
      ended (v, err e) g = g
