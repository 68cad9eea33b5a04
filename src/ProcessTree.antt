-- ===== src/ProcessTree.antt =====
-- `sum_process_tree_cpu_ticks` of src/core/export_pipeline/implementation/limits.rs. The loop over the
-- stack runs on fuel; one step more than there are rows is enough.
pub mod Walk
pub mod Counted
mod Examples
use moe_assets_updater_next.Prelude.{
  ℕ, zero, suc, ◌+◌, ◌-◌, ◌^◌, min, Bool, true, false, Option, none, some, List, [], ◌∷◌, ◌==◌,
  if◌then◌else◌, length,
}

pub record Row : Type 0 where
  pub pid : ℕ
  pub ppid : ℕ
  pub ticks : ℕ

abbrev pub u64_max : ℕ
u64_max = 2 ^ 64 - 1

abbrev pub contains : List ℕ → ℕ → Bool
contains [] x = false
contains (y ∷ ys) x = if y == x then true else contains ys x

-- The loop over the rows: what `total` and the stack are after it.
unfoldable pub scan : ℕ → List Row → ℕ → List ℕ → ℕ × List ℕ
scan pid [] total stack = (total, stack)
scan pid (r ∷ rows) total stack =
    scan pid rows (if r.pid == pid then min (total + r.ticks) u64_max else total)
      (if r.ppid == pid then r.pid ∷ stack else stack)

pub record State : Type 0 where
  pub stack : List ℕ
  pub seen : List ℕ
  pub total : ℕ

-- One turn of the loop, after `pid` was popped off the stack.
unfoldable pub visit : List Row → ℕ → State → State
unfolding scan
visit rows pid s = if contains s.seen pid then s else record {
  stack = (scan pid rows s.total s.stack).1;
  seen = pid ∷ s.seen;
  total = (scan pid rows s.total s.stack).0;
}

unfoldable pub walk : ℕ → List Row → List ℕ → List ℕ → ℕ → Option (ℕ × List ℕ)
unfolding visit
walk fuel rows [] seen total = some (total, seen)
walk zero rows (pid ∷ stack) seen total = none
walk (suc fuel) rows (pid ∷ stack) seen total =
    let s = visit rows pid (record { stack = stack; seen = seen; total = total }) in
    walk fuel rows s.stack s.seen s.total

-- The total, with the processes that were counted.
unfoldable pub sum_process_tree_cpu_ticks : ℕ → List Row → Option (ℕ × List ℕ)
unfolding walk
sum_process_tree_cpu_ticks root_pid rows = walk (length rows + 1) rows (root_pid ∷ []) [] 0
