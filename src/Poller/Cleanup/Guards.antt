-- ===== src/Poller/Cleanup/Guards.antt =====
-- Which directories a cleanup removes.
use moe_assets_updater_next.Prelude.{
  ◌≤◌, ◌≡◌, ◌≢◌, refl, sym, ap, ◌∙◌, ◌↔◌, Bool, true, false, not, ◌||◌, Option, none, some, List,
  [], ◌∷◌, ◌++◌, arith, length, length-append, ◌<◌, ◌==◌, if◌then◌else◌, All, Bool-cases, inl, inr,
  Text, text_eq, text_beq_iff,
}
use moe_assets_updater_next.Poller.{Result, ok, err, config}
use moe_assets_updater_next.Poller.Cleanup.{
  CanonicalPath, Canonical, found, missing, failed, FileSystem, path_beq, path_starts_with,
  ascii_lowercase, contains_text, dir_name, check_name, check_cwd, check_dir, check_canonical,
  resolve_region_cleanup_dir, RegionCleanup, remove_resolved, remove_save_dir,
  remove_region_work_dir_after_success, RemoveDir, gone, absent, not_empty, refused, Pruned,
  after_remove, after_canonical, climb, prune_empty_parent_dirs,
}

otherwise : {A : Type 0} (b : Bool) (x y : A) → b ≡ false → (if b then x else y) ≡ y
otherwise true x y h = absurd cc
otherwise false x y h = refl

path_beq_iff : (p q : CanonicalPath) → p ≡ q ↔ path_beq p q ≡ true
path_beq_iff [] [] = (λ e. refl, λ e. refl)
path_beq_iff [] (b ∷ q) = (λ e. absurd cc, λ e. absurd cc)
path_beq_iff (a ∷ p) [] = (λ e. absurd cc, λ e. absurd cc)
path_beq_iff (a ∷ p) (b ∷ q) = (
  λ e. ground (arith, text_beq_iff a b, path_beq_iff p q, e),
  λ e. ground (arith, text_beq_iff a b, path_beq_iff p q),
)

-- `base` is the path or stands above it.
abbrev pub Above : CanonicalPath → CanonicalPath → Type 0
Above base path = (front : List Text) × (front ++ base ≡ path)

path_starts_with-append :
    (front base : CanonicalPath) → path_starts_with (front ++ base) base ≡ true
unfolding path_starts_with
path_starts_with-append [] [] = refl
path_starts_with-append [] (b ∷ base) = rw ((path_beq_iff (b ∷ base) (b ∷ base)).0 refl) refl
path_starts_with-append (a ∷ front) base = ground (arith, path_starts_with-append front base)

path_starts_with-Above :
    (path base : CanonicalPath) → path_starts_with path base ≡ true → Above base path
unfolding path_starts_with
path_starts_with-Above [] base h = ([], sym ((path_beq_iff [] base).1 h))
path_starts_with-Above (a ∷ path) base h = elim (Bool-cases (path_beq (a ∷ path) base)) [
  | inl same ↦ ([], sym ((path_beq_iff (a ∷ path) base).1 same))
  | inr other ↦
      let (front, e) = path_starts_with-Above path base (ground arith) in
      (a ∷ front, ap (λ p. a ∷ p) e)
]

-- `path_starts_with` says exactly whether the base is the path or stands above it.
pub starts_with_iff :
    (path base : CanonicalPath) → Above base path ↔ path_starts_with path base ≡ true
starts_with_iff path base =
    (λ (front, e). rw (← e) (path_starts_with-append front base), path_starts_with-Above path base)

module _ (to_str : Text → Option Text) (fs : FileSystem) where
  -- What the checks make sure of: the path is that of a directory other than the root, the working
  -- directory is neither this directory nor inside of it, and its name has the region in it, in whatever
  -- case of the ASCII letters.
  pub record Guarded (region_name : Text) (configured_path : Text) (dir : CanonicalPath)
      : Type 0 where
    pub resolved : fs.canonical configured_path ≡ found dir
    pub is_dir : fs.is_dir dir ≡ some true
    pub not_root : 1 ≤ length dir
    pub cwd : CanonicalPath
    pub cwd_known : fs.cwd ≡ some cwd
    pub outside : (front : List Text) → front ++ dir ≢ cwd
    pub name : Text
    pub name_known : dir_name to_str fs dir ≡ some name
    pub named : contains_text (ascii_lowercase name) (ascii_lowercase region_name) ≡ true

  check_name-named :
      (region_name : Text) (dir : CanonicalPath) (o : Option Text) {d : CanonicalPath}
      → check_name to_str fs region_name dir o ≡ ok (some d)
      → (dir ≡ d)
        × (name : Text) × (o ≡ some name)
        × (contains_text (ascii_lowercase name) (ascii_lowercase region_name) ≡ true)
  unfolding check_name
  check_name-named region_name dir none h = absurd cc
  check_name-named region_name dir (some name) h =
      elim (Bool-cases (contains_text (ascii_lowercase name) (ascii_lowercase region_name))) [
        | inl named ↦ let e : ok (some dir) ≡ ok (some _) = rw named at h in (cc, name, refl, named)
        | inr other ↦ let e : err config ≡ ok (some _) = rw other at h in absurd cc
      ]

  check_cwd-outside :
      (region_name : Text) (dir : CanonicalPath) (o : Option CanonicalPath) {d : CanonicalPath}
      → check_cwd to_str fs region_name dir o ≡ ok (some d)
      → (cwd : CanonicalPath) × (o ≡ some cwd)
        × (path_starts_with cwd dir ≡ false)
        × (check_name to_str fs region_name dir (dir_name to_str fs dir) ≡ ok (some d))
  unfolding check_cwd
  check_cwd-outside region_name dir none h = absurd cc
  check_cwd-outside region_name dir (some cwd) {d} h =
      elim (Bool-cases (path_beq dir cwd || path_starts_with cwd dir)) [
        | inl inside ↦ let e : err config ≡ ok (some d) = rw inside at h in absurd cc
        | inr outside ↦ (cwd, refl, ground arith, rw outside at h)
      ]

  check_dir-is_dir :
      (region_name : Text) (dir : CanonicalPath) (o : Option Bool) {d : CanonicalPath}
      → check_dir to_str fs region_name dir o ≡ ok (some d)
      → (o ≡ some true)
        × (1 ≤ length dir)
        × (check_cwd to_str fs region_name dir fs.cwd ≡ ok (some d))
  unfolding check_dir
  check_dir-is_dir region_name dir none h = absurd cc
  check_dir-is_dir region_name dir (some false) {d} h = absurd cc
  check_dir-is_dir region_name dir (some true) {d} h = elim (Bool-cases (length dir == 0)) [
    | inl root ↦ let e : err config ≡ ok (some d) = rw root at h in absurd cc
    | inr below ↦ (refl, ground arith, rw below at h)
  ]

  check_canonical-found :
      (region_name : Text) (c : Canonical) (d : CanonicalPath)
      → check_canonical to_str fs region_name c ≡ ok (some d)
      → (dir : CanonicalPath) × (c ≡ found dir)
        × (check_dir to_str fs region_name dir (fs.is_dir dir) ≡ ok (some d))
  unfolding check_canonical
  check_canonical-found region_name missing d h = absurd cc
  check_canonical-found region_name failed d h = absurd cc
  check_canonical-found region_name (found dir) d h = (dir, refl, h)

  resolve_region_cleanup_dir-Guarded :
      (region_name configured_path : Text) (d : CanonicalPath)
      → resolve_region_cleanup_dir to_str fs region_name configured_path ≡ ok (some d)
      → Guarded region_name configured_path d
  unfolding resolve_region_cleanup_dir
  resolve_region_cleanup_dir-Guarded region_name configured_path d h =
      elim (Bool-cases (length configured_path == 0)) [
        | inl blank ↦ let e : err config ≡ ok (some d) = rw blank at h in absurd cc
        | inr given ↦
            let (dir, resolved, h1) =
              check_canonical-found region_name (fs.canonical configured_path) d (rw given at h) in
            let (is_dir, not_root, h2) = check_dir-is_dir region_name dir (fs.is_dir dir) h1 in
            let (cwd, known, outside, h3) = check_cwd-outside region_name dir fs.cwd h2 in
            let (same, name, name_known, named) =
              check_name-named region_name dir (dir_name to_str fs dir) h3 in
            rw⁻¹ same (record {
              resolved = resolved;
              is_dir = is_dir;
              not_root = not_root;
              cwd = cwd;
              cwd_known = known;
              outside = λ front e.
                  absurd (ground (arith, (starts_with_iff cwd dir).0 (front, e), outside));
              name = name;
              name_known = name_known;
              named = named;
            })
      ]

  remove_resolved-found :
      (r : Result (Option CanonicalPath)) (d : CanonicalPath)
      → (remove_resolved to_str fs r).0 ≡ some d
      → r ≡ ok (some d)
  unfolding remove_resolved
  remove_resolved-found (err e) d h = absurd cc
  remove_resolved-found (ok none) d h = absurd cc
  remove_resolved-found (ok (some dir)) d h = ap (λ o. ok o) h

  remove_save_dir-Guarded :
      (trim : Text → Text) (region_name : Text) (o : Option Text) (d : CanonicalPath)
      → (remove_save_dir to_str fs trim region_name o).0 ≡ some d
      → (configured : Text) × (o ≡ some configured) × Guarded region_name (trim configured) d
  unfolding remove_save_dir
  remove_save_dir-Guarded trim region_name none d h = absurd cc
  remove_save_dir-Guarded trim region_name (some dir) d h =
      elim (Bool-cases (length (trim dir) == 0)) [
        | inl blank ↦ let e : none ≡ some d = rw blank at h in absurd cc
        | inr given ↦ (
          dir,
          refl,
          resolve_region_cleanup_dir-Guarded region_name (trim dir) d (
              remove_resolved-found (resolve_region_cleanup_dir to_str fs region_name (trim dir)) d
                (sym (
                    ap (λ (r : Option CanonicalPath × Result (Unit {0})). r.0)
                      (otherwise (length (trim dir) == 0) (none, ok tt) _ given))
                  ∙ h)),
        )
      ]

  -- A work directory that a poll removes after a success is the configured one of a region with
  -- `remove_local_after_upload`, under an enabled gateway; it is a directory other than the root, it does
  -- not contain the working directory, and its name has the name of the region in it.
  pub remove_region_work_dir-Guarded :
      (trim : Text → Text) (hip_enabled : Bool) (region_name : Text) (region : Option RegionCleanup)
      (dir : CanonicalPath)
      → (remove_region_work_dir_after_success to_str fs trim hip_enabled region_name region).0
        ≡ some dir
      → (hip_enabled ≡ true)
        × (r : RegionCleanup) × (region ≡ some r)
        × (r.remove_local_after_upload ≡ true)
        × (configured : Text) × (r.asset_save_dir ≡ some configured)
        × Guarded region_name (trim configured) dir
  unfolding remove_region_work_dir_after_success
  remove_region_work_dir-Guarded trim hip_enabled region_name none dir h = absurd cc
  remove_region_work_dir-Guarded trim false region_name (some r) dir h = absurd cc
  remove_region_work_dir-Guarded trim true region_name (some r) dir h =
      elim (Bool-cases r.remove_local_after_upload) [
        | inr keep ↦ let e : none ≡ some dir = rw keep at h in absurd cc
        | inl on ↦
            let (configured, e, g) =
              remove_save_dir-Guarded trim region_name r.asset_save_dir dir (rw on at h) in
            (refl, r, refl, on, configured, e, g)
      ]

-- One of the directories above the file, strictly below the root of the export.
abbrev pub Between : CanonicalPath → CanonicalPath → CanonicalPath → Type 0
Between stop_root dir removed =
    Above removed dir × Above stop_root removed × (length stop_root < length removed)

Between-up :
    (stop_root : CanonicalPath) (name : Text) (parent : CanonicalPath)
    (removed : List CanonicalPath)
    → All (Between stop_root parent) removed
    → All (Between stop_root (name ∷ parent)) removed
Between-up stop_root name parent [] h = tt
Between-up stop_root name parent (r ∷ removed) h =
    let ((front, e), above, below) = h.0 in
    (
      ((name ∷ front, ap (λ p. name ∷ p) e), above, below),
      Between-up stop_root name parent removed h.1,
    )

-- A path below another one that is not the same is longer.
below_longer :
    (stop_root path : CanonicalPath)
    → Above stop_root path
    → path_beq path stop_root ≡ false
    → length stop_root < length path
below_longer stop_root path ([], e) h =
    absurd (let same = (path_beq_iff path stop_root).0 (sym e) in cc)
below_longer stop_root path (a ∷ front, e) h =
    omega (arith, length-append front stop_root, ap length e)

module _ (canonical : CanonicalPath → Canonical) (remove_dir : CanonicalPath → RemoveDir) where
  after_remove-Between :
      (stop_root dir : CanonicalPath) (r : RemoveDir) (rest : Pruned)
      → Between stop_root dir dir
      → All (Between stop_root dir) rest.removed
      → All (Between stop_root dir) (after_remove canonical remove_dir dir r rest).removed
  after_remove-Between stop_root dir gone rest h p = (h, p)
  after_remove-Between stop_root dir absent rest h p = p
  after_remove-Between stop_root dir not_empty rest h p = tt
  after_remove-Between stop_root dir refused rest h p = tt

  after_canonical-Between :
      (stop_root dir : CanonicalPath) (c : Canonical) (rest : Pruned)
      → All (Between stop_root dir) rest.removed
      → All (Between stop_root dir) (after_canonical canonical remove_dir c rest).removed
  after_canonical-Between stop_root dir (found p) rest h = h
  after_canonical-Between stop_root dir missing rest h = tt
  after_canonical-Between stop_root dir failed rest h = tt

  climb-Between :
      (stop_root dir : CanonicalPath)
      → All (Between stop_root dir) (climb canonical remove_dir stop_root dir).removed
  unfolding climb
  climb-Between stop_root [] = tt
  climb-Between stop_root (name ∷ parent) =
      elim (Bool-cases
        (path_beq (name ∷ parent) stop_root || not (path_starts_with (name ∷ parent) stop_root))) [
          | inl stop ↦ rw stop tt
          | inr go ↦
              let above = (starts_with_iff (name ∷ parent) stop_root).1 (ground arith) in
              rw go (
                after_remove-Between stop_root (name ∷ parent) (remove_dir (name ∷ parent)) _
                  (([], refl), above, below_longer stop_root (name ∷ parent) above (ground arith))
                  (after_canonical-Between stop_root (name ∷ parent) (canonical parent) _
                    (Between-up stop_root name parent _ (climb-Between stop_root parent))))
        ]

  -- After the removal of a file in the directory `dir`, the walk removes only directories that are `dir`
  -- or stand above it, strictly below the root of the export.
  pub prune_empty_parent_dirs-Between :
      (stop_root dir : CanonicalPath)
      → All
          (Between stop_root dir)
          (prune_empty_parent_dirs canonical remove_dir
            (found stop_root)
            (some (found dir))).removed
  unfolding prune_empty_parent_dirs
  prune_empty_parent_dirs-Between stop_root dir = climb-Between stop_root dir
