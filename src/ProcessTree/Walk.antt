-- ===== src/ProcessTree/Walk.antt =====
-- The walk ends, and counts the process tree: the least set of processes with the root and, for each of
-- its members, the children.
use moe_assets_updater_next.Prelude.{
  ℕ, ◌+◌, ◌≤◌, ◌≡◌, min, Bool, true, false, List, [], ◌∷◌, arith, ◌==◌, if◌then◌else◌, length, All,
  Bool-cases, inl, inr, ◌⊎◌,
}
use moe_assets_updater_next.ProcessTree.{Row, u64_max, contains, scan}

-- The ticks of the rows whose process is in a list, or is one process.
abbrev pub ticks_of : List ℕ → List Row → ℕ
ticks_of seen [] = 0
ticks_of seen (r ∷ rows) = (if contains seen r.pid then r.ticks else 0) + ticks_of seen rows

abbrev pub ticks_at : ℕ → List Row → ℕ
ticks_at pid [] = 0
ticks_at pid (r ∷ rows) = (if r.pid == pid then r.ticks else 0) + ticks_at pid rows

-- The rows whose parent was not visited, and the children of a process.
abbrev pub pending : List ℕ → List Row → ℕ
pending seen [] = 0
pending seen (r ∷ rows) = (if contains seen r.ppid then 0 else 1) + pending seen rows

abbrev pub children : ℕ → List Row → ℕ
children pid [] = 0
children pid (r ∷ rows) = (if r.ppid == pid then 1 else 0) + children pid rows

-- A set of processes with the children of its members.
abbrev pub Closed : (ℕ → Bool) → List Row → Type 0
Closed s rows = All (λ r. s r.ppid ≡ true → s r.pid ≡ true) rows

pub scan-total :
    (pid : ℕ) (rows : List Row) (total : ℕ) (stack : List ℕ)
    → total ≤ u64_max
    → (scan pid rows total stack).0 ≡ min (total + ticks_at pid rows) u64_max
unfolding scan
scan-total pid [] total stack h = omega arith
scan-total pid (r ∷ rows) total stack h = ground (
  arith,
  scan-total pid rows (if r.pid == pid then min (total + r.ticks) u64_max else total)
      (if r.ppid == pid then r.pid ∷ stack else stack) (ground arith),
)

pub scan-length :
    (pid : ℕ) (rows : List Row) (total : ℕ) (stack : List ℕ)
    → length (scan pid rows total stack).1 ≡ length stack + children pid rows
unfolding scan
scan-length pid [] total stack = omega arith
scan-length pid (r ∷ rows) total stack = ground (
  arith,
  scan-length pid rows (if r.pid == pid then min (total + r.ticks) u64_max else total)
      (if r.ppid == pid then r.pid ∷ stack else stack),
)

pub scan-keeps :
    (pid : ℕ) (rows : List Row) (total : ℕ) (stack : List ℕ) (x : ℕ)
    → contains stack x ≡ true
    → contains (scan pid rows total stack).1 x ≡ true
unfolding scan
scan-keeps pid [] total stack x h = h
scan-keeps pid (r ∷ rows) total stack x h =
    scan-keeps pid rows _ (if r.ppid == pid then r.pid ∷ stack else stack) x (ground arith)

pub scan-children :
    (pid : ℕ) (rows : List Row) (total : ℕ) (stack : List ℕ)
    → All (λ r. r.ppid ≡ pid → contains (scan pid rows total stack).1 r.pid ≡ true) rows
unfolding scan
scan-children pid [] total stack = tt
scan-children pid (r ∷ rows) total stack = (
  λ e. scan-keeps pid rows _ (if r.ppid == pid then r.pid ∷ stack else stack) r.pid (ground arith),
  scan-children pid rows _ (if r.ppid == pid then r.pid ∷ stack else stack),
)

pub scan-All :
    (s : ℕ → Bool) (pid : ℕ) (rows : List Row) (total : ℕ) (stack : List ℕ)
    → s pid ≡ true
    → Closed s rows
    → All (λ x. s x ≡ true) stack
    → All (λ x. s x ≡ true) (scan pid rows total stack).1
unfolding scan
scan-All s pid [] total stack p c h = h
scan-All s pid (r ∷ rows) total stack p c h =
    scan-All s pid rows _ (if r.ppid == pid then r.pid ∷ stack else stack) p c.1
      (pushed (Bool-cases (r.ppid == pid)))
  where
    pushed :
        ((r.ppid == pid) ≡ true) ⊎ ((r.ppid == pid) ≡ false)
        → All (λ x. s x ≡ true) (if r.ppid == pid then r.pid ∷ stack else stack)
    pushed (inl same) = let e : r.ppid ≡ pid = ground arith in rw same (c.0 (rw e p), h)
    pushed (inr other) = rw other h

pub pending-visited :
    (pid : ℕ) (seen : List ℕ) (rows : List Row)
    → contains seen pid ≡ false
    → pending (pid ∷ seen) rows + children pid rows ≡ pending seen rows
pending-visited pid seen [] h = omega arith
pending-visited pid seen (r ∷ rows) h = ground (arith, pending-visited pid seen rows h)

pub ticks-visited :
    (pid : ℕ) (seen : List ℕ) (rows : List Row)
    → contains seen pid ≡ false
    → ticks_of (pid ∷ seen) rows ≡ ticks_of seen rows + ticks_at pid rows
ticks-visited pid seen [] h = omega arith
ticks-visited pid seen (r ∷ rows) h = ground (arith, ticks-visited pid seen rows h)
