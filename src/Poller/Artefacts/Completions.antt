-- ===== src/Poller/Artefacts/Completions.antt =====
-- What a batch reports as completed.
use moe_assets_updater_next.Prelude.{
  ℕ, ◌≡◌, refl, ◌∙◌, Bool, false, some, List, [], ◌∷◌, ◌++◌, map, arith, ◌==◌, if◌then◌else◌, All,
  Text, text_eq, text_beq_iff, Map, lookup, insert, remove, lookup-insert, lookup-remove, contains,
}
use moe_assets_updater_next.Poller.{BundleArtefacts, CommitBundleCompletion, zero_file, uploaded}
use moe_assets_updater_next.Poller.Artefacts.{
  Collected, paths_of, existing_files, jobs_of, collect, report, nothing_collected,
}

-- No bundle stands twice in a list.
abbrev pub Distinct : List BundleArtefacts → Type 0
Distinct [] = Unit {0}
Distinct (b ∷ bundles) = (contains (paths_of bundles) b.bundle_path ≡ false) × Distinct bundles

-- A bundle is reported under its own hash, and as without files if none of its files is there.
abbrev pub completion_of : (Text → Bool) → BundleArtefacts → CommitBundleCompletion
completion_of is_file b = record {
  path = b.bundle_path;
  fingerprint = b.bundle_hash;
  source = if existing_files is_file b.files == 0 then zero_file else uploaded;
}

module _ (is_file : Text → Bool) where
  lookup-collect :
      (k : Text) (bundles : List BundleArtefacts) (c : Collected)
      → contains (paths_of bundles) k ≡ false
      → (lookup k (collect is_file bundles c).fingerprints ≡ lookup k c.fingerprints)
        × (lookup k (collect is_file bundles c).file_counts ≡ lookup k c.file_counts)
  unfolding collect contains
  lookup-collect k [] c h = (refl, refl)
  lookup-collect k (b ∷ bundles) c h =
      let (p, q) =
        lookup-collect k bundles
          (record {
            file_counts = insert b.bundle_path (existing_files is_file b.files) c.file_counts;
            fingerprints = insert b.bundle_path b.bundle_hash c.fingerprints;
            jobs = c.jobs ++ jobs_of is_file b b.files;
          })
          (ground arith) in
      (
        p ∙ ground (arith, lookup-insert b.bundle_path k b.bundle_hash c.fingerprints),
        q
            ∙ ground (
              arith,
              lookup-insert b.bundle_path k (existing_files is_file b.files) c.file_counts,
            ),
      )

  -- The maps hold what a bundle needs.
  abbrev Known : Map Text ℕ → Map Text Text → BundleArtefacts → Type 0
  Known counts fingerprints b =
      (lookup b.bundle_path fingerprints ≡ some b.bundle_hash)
      × (lookup b.bundle_path counts ≡ some (existing_files is_file b.files))

  collect-Known :
      (bundles : List BundleArtefacts) (c : Collected)
      → Distinct bundles
      → All
          (Known (collect is_file bundles c).file_counts (collect is_file bundles c).fingerprints)
          bundles
  unfolding collect
  collect-Known [] c h = tt
  collect-Known (b ∷ bundles) c h =
      let next : Collected = record {
        file_counts = insert b.bundle_path (existing_files is_file b.files) c.file_counts;
        fingerprints = insert b.bundle_path b.bundle_hash c.fingerprints;
        jobs = c.jobs ++ jobs_of is_file b b.files;
      } in
      let (p, q) = lookup-collect b.bundle_path bundles next h.0 in
      (
        (
          p
              ∙ ground (
                arith,
                lookup-insert b.bundle_path b.bundle_path b.bundle_hash c.fingerprints,
                text_beq_iff b.bundle_path b.bundle_path,
              ),
          q
              ∙ ground (
                arith,
                lookup-insert b.bundle_path b.bundle_path (existing_files is_file b.files)
                    c.file_counts,
                text_beq_iff b.bundle_path b.bundle_path,
              ),
        ),
        collect-Known bundles next h.1,
      )

  Known-remove :
      (k : Text) (counts : Map Text ℕ) (fingerprints : Map Text Text)
      (bundles : List BundleArtefacts)
      → contains (paths_of bundles) k ≡ false
      → All (Known counts fingerprints) bundles
      → All (Known counts (remove k fingerprints)) bundles
  unfolding contains
  Known-remove k counts fingerprints [] h p = tt
  Known-remove k counts fingerprints (b ∷ bundles) h p = (
    (
      ground (
        arith,
        lookup-remove k b.bundle_path fingerprints,
        text_beq_iff k b.bundle_path,
        text_beq_iff b.bundle_path k,
        p.0,
      ),
      p.0.1,
    ),
    Known-remove k counts fingerprints bundles (ground arith) p.1,
  )

  report-Known :
      (counts : Map Text ℕ) (bundles : List BundleArtefacts) (fingerprints : Map Text Text)
      → Distinct bundles
      → All (Known counts fingerprints) bundles
      → report counts bundles fingerprints ≡ map (completion_of is_file) bundles
  unfolding report
  report-Known counts [] fingerprints h p = refl
  report-Known counts (b ∷ bundles) fingerprints h p =
      rw
        (
          p.0.0,
          p.0.1,
          report-Known counts bundles (remove b.bundle_path fingerprints) h.1
              (Known-remove b.bundle_path counts fingerprints bundles h.0 p.1),
        )
        refl

  -- In a batch without repetitions, each bundle is reported once, in order, under its own hash.
  pub report-collect :
      (bundles : List BundleArtefacts)
      → Distinct bundles
      → (let c = collect is_file bundles nothing_collected in
          report c.file_counts bundles c.fingerprints)
        ≡ map (completion_of is_file) bundles
  report-collect bundles h =
      report-Known (collect is_file bundles nothing_collected).file_counts bundles
        (collect is_file bundles nothing_collected).fingerprints h
        (collect-Known bundles nothing_collected h)
