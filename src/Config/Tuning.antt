-- ===== src/Config/Tuning.antt =====
-- Tuning only lowers limits, keeps a task of each kind possible, and is done once for all.
use moe_assets_updater_next.Prelude.{
  ℕ, ◌≤◌, ◌≡◌, refl, Bool, true, false, arith, ◌==◌, if◌then◌else◌, min, max, Bool-cases, inl, inr,
}
use moe_assets_updater_next.Config.{
  Concurrency, tuned, effective_for_cpus_with_budget, effective_budget_for_cpus,
  effective_process_concurrency,
}

-- One limit, lowered from a configured one but not below 1.
abbrev pub Lowered : ℕ → ℕ → Type 0
Lowered configured limit = (1 ≤ limit) × (limit ≤ max configured 1)

pub record Within (c t : Concurrency) : Type 0 where
  pub download : Lowered c.download t.download
  pub upload : Lowered c.upload t.upload
  pub post_process : t.post_process ≤ c.post_process
  pub acb : Lowered c.acb t.acb
  pub usm : Lowered c.usm t.usm
  pub hca : Lowered c.hca t.hca
  pub media_encode : Lowered c.media_encode t.media_encode
  pub audio_encode : Lowered c.audio_encode t.audio_encode
  pub video_encode : Lowered c.video_encode t.video_encode
  pub images : Lowered c.images t.images

lowered : (configured cap : ℕ) → Lowered configured (max (min configured cap) 1)
lowered configured cap = (omega arith, omega arith)

-- With tuning on, whatever the processors and the budget, every limit is at least 1 and at most the
-- configured one, a configured 0 counting as 1; the limit of post-processing is at most the configured
-- one, where 0 stays 0.
pub effective-Within :
    (c : Concurrency) (cpus cpu_budget : ℕ)
    → c.auto_tune ≡ true
    → Within c (effective_for_cpus_with_budget c cpus cpu_budget)
unfolding effective_for_cpus_with_budget tuned
effective-Within c cpus cpu_budget h = rw h (record {
  download = lowered _ _;
  upload = lowered _ _;
  post_process = ground arith;
  acb = lowered _ _;
  usm = lowered _ _;
  hca = (omega arith, omega arith);
  media_encode = lowered _ _;
  audio_encode = lowered _ _;
  video_encode = lowered _ _;
  images = lowered _ _;
})

again : (x cap : ℕ) → max (min (max (min x cap) 1) cap) 1 ≡ max (min x cap) 1
again x cap = omega arith

again_hca : (x a b : ℕ) → max (min (min (max (min (min x a) b) 1) a) b) 1 ≡ max (min (min x a) b) 1
again_hca x a b = omega arith

again_post :
    (x cap : ℕ)
    → (if (if x == 0 then 0 else max (min x cap) 1) == 0
        then 0
        else max (min (if x == 0 then 0 else max (min x cap) 1) cap) 1)
      ≡ (if x == 0 then 0 else max (min x cap) 1)
again_post x cap = ground arith

-- Tuning limits that were tuned for the same processors and budget changes nothing.
pub effective-effective :
    (c : Concurrency) (cpus cpu_budget : ℕ)
    → effective_for_cpus_with_budget
        (effective_for_cpus_with_budget c cpus cpu_budget)
        cpus
        cpu_budget
      ≡ effective_for_cpus_with_budget c cpus cpu_budget
unfolding effective_for_cpus_with_budget tuned
effective-effective c cpus cpu_budget = elim (Bool-cases c.auto_tune) [
  | inr off ↦ rw off refl
  | inl on ↦ rw on (simp (again, again_hca, again_post))
]

-- Whatever is configured, one worker process at least may run: the configured number of them, or, where
-- none is configured, at most the processors if CPU throttling is on, and the budget if it is off.
pub effective_process_concurrency-positive :
    (configured reserved cpus : ℕ) (budget_auto throttled : Bool) (scaled : ℕ → ℕ)
    → let n =
        effective_process_concurrency configured throttled
          (effective_budget_for_cpus budget_auto reserved scaled)
          cpus in
      (1 ≤ n)
      × (1 ≤ configured → n ≡ configured)
      × (configured ≡ 0 → throttled ≡ true → n ≤ max cpus 1)
      × (configured ≡ 0
          → throttled ≡ false
          → n ≡ effective_budget_for_cpus budget_auto reserved scaled (max cpus 1))
unfolding effective_process_concurrency effective_budget_for_cpus
effective_process_concurrency-positive configured reserved cpus budget_auto throttled scaled =
    (ground arith, ground arith, ground arith, ground arith)
