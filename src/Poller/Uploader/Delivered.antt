-- ===== src/Poller/Uploader/Delivered.antt =====
-- What the commits of the uploader report, over every sequence of artefacts and every luck.
use moe_assets_updater_next.Prelude.{
  suc, ◌≤◌, ◌≡◌, refl, ap, ◌∙◌, Bool, true, false, not, ◌&&◌, ◌||◌, Option, List, [], ◌∷◌, ◌++◌,
  arith, ◌==◌, length, append-nil, Text, text_eq, Bool-cases, inl, inr, All, contains, extend,
  contains-extend, contains-append, ◌⊎◌,
}
use moe_assets_updater_next.Snapshot.{AssetBundleInfo}
use moe_assets_updater_next.Poller.{Result, ok, err, BundleArtefacts, Commit}
use moe_assets_updater_next.Poller.Artefacts.{UploadOutcome, paths_of}
use moe_assets_updater_next.Poller.Uploader.{
  cleanup_fails, Luck, Uploader, Settings, take_first_commit_extras, commit_batch, after_upload,
  flush_batch,
}
use moe_assets_updater_next.Poller.Uploader.Paths.{
  uploaded_paths, committed, uploaded_paths-append, uploaded_paths-extras, NoneSkipped, Reported,
  upload_bundle_artefacts-Reported,
}

-- A commit that counts and reports no skipped bundle.
abbrev pub NoExtras : Commit → Type 0
NoExtras c =
    (c.stats.skipped_by_layer1 ≡ 0)
    × (c.stats.skipped_by_check ≡ 0)
    × NoneSkipped c.completed_bundles

-- Only the first commit, the last in the list, may.
abbrev pub Once : List Commit → Type 0
Once [] = Unit {0}
Once (c ∷ []) = Unit {0}
Once (c ∷ d ∷ cs) = NoExtras c × Once (d ∷ cs)

-- No commit reports more uploaded bundles than the threshold, where there is one.
abbrev pub Bounded : Settings → List Commit → Type 0
Bounded settings cs =
    All
      (λ c.
        1 ≤ settings.commit_batch_bundles
        → length (uploaded_paths c.completed_bundles) ≤ settings.commit_batch_bundles)
      cs

module _ {Bytes : Type 0} (settings : Settings) where
  -- After `arts`: they are committed or in the batch, each once and in order.
  pub record Progress (arts : List BundleArtefacts) (u : Uploader Bytes) : Type 0 where
    pub delivered : committed u.commits ++ paths_of u.batch ≡ paths_of arts
    pub first : u.first_commit_pending ≡ true → u.commits ≡ []
    pub once : Once u.commits
    pub bounded : Bounded settings u.commits
    pub processed : (x : Text) → contains u.processed_all x ≡ contains (committed u.commits) x

  -- After an error: the commits report the first of the bundles.
  pub record Failed (arts : List BundleArtefacts) (u : Uploader Bytes) : Type 0 where
    pub rest : List Text
    pub delivered : committed u.commits ++ rest ≡ paths_of arts
    pub once : Once u.commits
    pub bounded : Bounded settings u.commits

  pub Progress-Failed :
      {arts : List BundleArtefacts} {u : Uploader Bytes} → Progress arts u → Failed arts u
  Progress-Failed {u = u} h = record {
    rest = paths_of u.batch;
    delivered = h.delivered;
    once = h.once;
    bounded = h.bounded;
  }

  abbrev pub SmallBatch : Uploader Bytes → Type 0
  SmallBatch u = 1 ≤ settings.commit_batch_bundles → length u.batch ≤ settings.commit_batch_bundles

  -- A flush leaves an empty batch or an error.
  abbrev pub Flushed : List BundleArtefacts → Uploader Bytes × Result (Unit {0}) → Type 0
  Flushed arts (u, ok tt) = Progress arts u × (u.batch ≡ [])
  Flushed arts (u, err e) = Failed arts u

length-paths_of : (arts : List BundleArtefacts) → length (paths_of arts) ≡ length arts
length-paths_of [] = refl
length-paths_of (a ∷ arts) = ap suc (length-paths_of arts)

pub paths_of-append :
    (arts more : List BundleArtefacts) → paths_of (arts ++ more) ≡ paths_of arts ++ paths_of more
paths_of-append [] more = refl
paths_of-append (a ∷ arts) more = ap (λ ps. a.bundle_path ∷ ps) (paths_of-append arts more)

pub Once-cons : (c : Commit) (cs : List Commit) → (cs ≡ []) ⊎ NoExtras c → Once cs → Once (c ∷ cs)
Once-cons c [] h o = tt
Once-cons c (d ∷ cs) (inl e) o = absurd cc
Once-cons c (d ∷ cs) (inr n) o = (n, o)

module _ {Bytes : Type 0} (pack : AssetBundleInfo → Option Bytes)
    (unpack : Bytes → Option AssetBundleInfo) (settings : Settings)
    (new_info : AssetBundleInfo) where
  -- The commit that a batch makes.
  abbrev batch_commit : Luck Bytes → UploadOutcome → Uploader Bytes → Commit
  batch_commit luck outcome u =
      let extras = take_first_commit_extras u.first_commit_pending luck.skipped in
      record {
        bundle_count = length outcome.succeeded_bundles;
        stats = record {
          skipped_by_layer1 = extras.0.0;
          skipped_by_check = extras.0.1;
          uploaded_shared = outcome.stats.uploaded_shared;
          uploaded_override = outcome.stats.uploaded_override;
        };
        completed_bundles = extras.1 ++ outcome.completed_bundles;
      }

  batch_commit-paths :
      (luck : Luck Bytes) (outcome : UploadOutcome) (u : Uploader Bytes)
      → Reported u.batch outcome
      → uploaded_paths (batch_commit luck outcome u).completed_bundles ≡ paths_of u.batch
  batch_commit-paths luck outcome u h =
      uploaded_paths-append (take_first_commit_extras u.first_commit_pending luck.skipped).1
        outcome.completed_bundles
      ∙ ap (λ ps. ps ++ uploaded_paths outcome.completed_bundles)
          (uploaded_paths-extras u.first_commit_pending luck.skipped)
      ∙ h.completed

  later_commit :
      (first : Bool) (luck : Luck Bytes) (outcome : UploadOutcome) (u : Uploader Bytes)
      → u.first_commit_pending ≡ first
      → (first ≡ true → u.commits ≡ [])
      → NoneSkipped outcome.completed_bundles
      → (u.commits ≡ []) ⊎ NoExtras (batch_commit luck outcome u)
  unfolding take_first_commit_extras
  later_commit true luck outcome u e h n = inl (h refl)
  later_commit false luck outcome u e h n = inr (rw e (refl, refl, n))

  processed_commit :
      (luck : Luck Bytes) (outcome : UploadOutcome) (u : Uploader Bytes)
      → Reported u.batch outcome
      → (x : Text) → contains u.processed_all x ≡ contains (committed u.commits) x
      → contains (extend u.processed_all outcome.succeeded_bundles) x
        ≡ contains (committed (batch_commit luck outcome u ∷ u.commits)) x
  unfolding contains
  processed_commit luck outcome u r x h =
      let paths = uploaded_paths (batch_commit luck outcome u).completed_bundles in
      let left : contains outcome.succeeded_bundles x ≡ (false || contains (paths_of u.batch) x) =
        ap (λ s. contains s x) r.succeeded ∙ contains-extend x [] (paths_of u.batch) in
      let right : contains paths x ≡ contains (paths_of u.batch) x =
        ap (λ s. contains s x) (batch_commit-paths luck outcome u r) in
      ground (
        arith,
        left,
        right,
        h,
        contains-extend x u.processed_all outcome.succeeded_bundles,
        contains-append x (committed u.commits) paths,
      )

  commit_batch-Flushed :
      (arts : List BundleArtefacts) (luck : Luck Bytes) (outcome : UploadOutcome)
      (u : Uploader Bytes)
      → Progress settings arts u
      → SmallBatch settings u
      → Reported u.batch outcome
      → Flushed settings arts (commit_batch pack unpack settings new_info luck outcome u)
  unfolding commit_batch
  commit_batch-Flushed arts luck outcome u h small r = elim (Bool-cases luck.commits) [
    | inr refused ↦ rw refused (record {
      rest = paths_of u.batch;
      delivered = h.delivered;
      once = h.once;
      bounded = h.bounded;
    })
    | inl taken ↦
        let paths = batch_commit-paths luck outcome u r in
        let whole : committed (batch_commit luck outcome u ∷ u.commits) ≡ paths_of arts =
          ap (λ ps. committed u.commits ++ ps) paths ∙ h.delivered in
        let once =
          Once-cons (batch_commit luck outcome u) u.commits
            (later_commit u.first_commit_pending luck outcome u refl h.first r.none_skipped)
            h.once in
        let bounded : Bounded settings (batch_commit luck outcome u ∷ u.commits) =
          (λ on. omega (arith, ap length paths, length-paths_of u.batch, small on), h.bounded) in
        elim (Bool-cases
          (settings.remove_local && cleanup_fails luck u.batch outcome.succeeded_bundles)) [
            | inl stuck ↦
                rw (taken, stuck)
                  (record {
                    rest = [];
                    delivered =
                        append-nil (committed (batch_commit luck outcome u ∷ u.commits)) ∙ whole;
                    once = once;
                    bounded = bounded;
                  })
            | inr clean ↦
                rw (taken, clean)
                  (
                    record {
                      delivered =
                          append-nil (committed (batch_commit luck outcome u ∷ u.commits)) ∙ whole;
                      first = λ e. absurd cc;
                      once = once;
                      bounded = bounded;
                      processed = λ x. processed_commit luck outcome u r x (h.processed x);
                    },
                    refl,
                  )
          ]
  ]

  after_upload-Flushed :
      (arts : List BundleArtefacts) (luck : Luck Bytes) (result : Result UploadOutcome)
      (u : Uploader Bytes)
      → Progress settings arts u
      → SmallBatch settings u
      → ((outcome : UploadOutcome) → result ≡ ok outcome → Reported u.batch outcome)
      → Flushed settings arts (after_upload pack unpack settings new_info luck result u)
  after_upload-Flushed arts luck (err e) u h small r = Progress-Failed settings h
  after_upload-Flushed arts luck (ok outcome) u h small r =
      commit_batch-Flushed arts luck outcome u h small (r outcome refl)

  pub flush_batch-Flushed :
      (arts : List BundleArtefacts) (luck : Luck Bytes) (u : Uploader Bytes)
      → Progress settings arts u
      → SmallBatch settings u
      → Flushed settings arts (flush_batch pack unpack settings new_info luck u)
  unfolding flush_batch
  flush_batch-Flushed arts luck u h small = elim (Bool-cases (length u.batch == 0)) [
    | inl empty ↦ rw empty (h, nothing u.batch (ground arith))
    | inr some_left ↦ elim (Bool-cases (not u.session_open && not luck.connects)) [
      | inl refused ↦ rw (some_left, refused) (Progress-Failed settings h)
      | inr connected ↦
          rw (some_left, connected)
            (after_upload-Flushed arts luck _ (record u { session_open = true })
              (record {
                delivered = h.delivered;
                first = h.first;
                once = h.once;
                bounded = h.bounded;
                processed = h.processed;
              })
              small
              (upload_bundle_artefacts-Reported luck.is_file luck.upload luck.schedule
                luck.max_in_flight u.batch))
    ]
  ]
    where
      nothing : (batch : List BundleArtefacts) → length batch ≡ 0 → batch ≡ []
      nothing [] e = refl
      nothing (b ∷ batch) e = absurd (omega arith)
