-- ===== src/ProcessTree/Counted.antt =====
-- The walk ends, and counts the process tree.
use moe_assets_updater_next.Prelude.{
  ℕ, zero, suc, ◌+◌, ◌≤◌, ◌≡◌, refl, min, Bool, true, ◌||◌, some, List, [], ◌∷◌, arith, length, All,
  Bool-cases, inl, inr,
}
use moe_assets_updater_next.ProcessTree.{
  Row, u64_max, contains, State, visit, walk, sum_process_tree_cpu_ticks,
}
use moe_assets_updater_next.ProcessTree.Walk.{
  ticks_of, pending, Closed, scan-total, scan-length, scan-keeps, scan-children, scan-All,
  pending-visited, ticks-visited,
}

both :
    {P Q R : Row → Type 0} (rows : List Row)
    → ((r : Row) → P r → Q r → R r)
    → All P rows
    → All Q rows
    → All R rows
both [] f p q = tt
both (r ∷ rows) f p q = (f r p.0 q.0, both rows f p.1 q.1)

-- In the middle of the walk.
record Walking (root : ℕ) (rows : List Row) (s : State) : Type 0 where
  counted : s.total ≡ min (ticks_of s.seen rows) u64_max
  rooted : (contains s.seen root || contains s.stack root) ≡ true
  closing :
      All
        (λ r.
          contains s.seen r.ppid ≡ true → (contains s.seen r.pid || contains s.stack r.pid) ≡ true)
        rows
  least :
      (set : ℕ → Bool)
      → set root ≡ true
      → Closed set rows
      → All (λ x. set x ≡ true) s.stack × All (λ x. set x ≡ true) s.seen

abbrev popped : ℕ → State → State
popped pid s = record s { stack = pid ∷ s.stack }

visit-Walking :
    (root : ℕ) (rows : List Row) (pid : ℕ) (s : State)
    → Walking root rows (popped pid s)
    → Walking root rows (visit rows pid s)
unfolding visit
visit-Walking root rows pid s h = elim (Bool-cases (contains s.seen pid)) [
  | inl again ↦ rw again (record {
    counted = h.counted;
    rooted = ground (arith, h.rooted);
    closing = both rows (λ r p q e. ground (arith, p e)) h.closing h.closing;
    least = λ set r c. ((h.least set r c).0.1, (h.least set r c).1);
  })
  | inr first ↦ rw first (record {
    counted = omega (
      arith,
      h.counted,
      scan-total pid rows s.total s.stack (omega (arith, h.counted)),
      ticks-visited pid s.seen rows first,
    );
    rooted = ground (arith, h.rooted, scan-keeps pid rows s.total s.stack root);
    closing =
        both rows (λ r p q e. ground (arith, p, q, scan-keeps pid rows s.total s.stack r.pid))
          h.closing (scan-children pid rows s.total s.stack);
    least = λ set r c.
        let (p, q) = h.least set r c in (scan-All set pid rows s.total s.stack p.0 c p.1, (p.0, q));
  })
]

visit-shorter :
    (rows : List Row) (pid : ℕ) (s : State)
    → length (visit rows pid s).stack + pending (visit rows pid s).seen rows
      ≤ length s.stack + pending s.seen rows
unfolding visit
visit-shorter rows pid s = elim (Bool-cases (contains s.seen pid)) [
  | inl again ↦ rw again (omega arith)
  | inr first ↦
      rw first
        (omega (arith, scan-length pid rows s.total s.stack, pending-visited pid s.seen rows first))
]

walk-Walking :
    (root fuel : ℕ) (rows : List Row) (stack seen : List ℕ) (total : ℕ)
    → length stack + pending seen rows ≤ fuel
    → Walking root rows (record { stack = stack; seen = seen; total = total })
    → (total' : ℕ) × (seen' : List ℕ) × (walk fuel rows stack seen total ≡ some (total', seen'))
      × Walking root rows (record { stack = []; seen = seen'; total = total' })
unfolding walk
walk-Walking root fuel rows [] seen total enough h = (total, seen, refl, h)
walk-Walking root zero rows (pid ∷ stack) seen total enough h = absurd (omega arith)
walk-Walking root (suc fuel) rows (pid ∷ stack) seen total enough h =
    let s : State = record { stack = stack; seen = seen; total = total } in
    walk-Walking root fuel rows (visit rows pid s).stack (visit rows pid s).seen
      (visit rows pid s).total (omega (arith, visit-shorter rows pid s))
      (visit-Walking root rows pid s h)

-- The processes counted are the process tree of the root, and the total is the sum of their ticks.
pub record Counted (root : ℕ) (rows : List Row) (total : ℕ) (seen : List ℕ) : Type 0 where
  pub total_is : total ≡ min (ticks_of seen rows) u64_max
  pub has_root : contains seen root ≡ true
  pub closed : Closed (contains seen) rows
  pub least : (set : ℕ → Bool) → set root ≡ true → Closed set rows → All (λ x. set x ≡ true) seen

pending-nothing : (rows : List Row) → pending [] rows ≡ length rows
pending-nothing [] = refl
pending-nothing (r ∷ rows) = omega (arith, pending-nothing rows)

no_ticks : (rows : List Row) → ticks_of [] rows ≡ 0
no_ticks [] = refl
no_ticks (r ∷ rows) = omega (arith, no_ticks rows)

start-Walking :
    (root : ℕ) (rows : List Row)
    → Walking root rows (record { stack = root ∷ []; seen = []; total = 0 })
start-Walking root rows = record {
  counted = omega (arith, no_ticks rows);
  rooted = ground arith;
  closing = nothing rows;
  least = λ set r c. ((r, tt), tt);
}
  where
    nothing :
        (rest : List Row)
        → All
            (λ r.
              contains [] r.ppid ≡ true → (contains [] r.pid || contains (root ∷ []) r.pid) ≡ true)
            rest
    nothing [] = tt
    nothing (r ∷ rest) = (λ e. absurd cc, nothing rest)

-- For all rows, whatever cycles or repetitions they have, the walk ends with a total: the ticks of the
-- rows, saturating at 2 ^ 64 - 1, whose process belongs to the tree of the root, which is the least set
-- that has the root and with a process the processes whose parent it is.
pub sum_process_tree_cpu_ticks-Counted :
    (root : ℕ) (rows : List Row)
    → (total : ℕ) × (seen : List ℕ) × (sum_process_tree_cpu_ticks root rows ≡ some (total, seen))
      × Counted root rows total seen
unfolding sum_process_tree_cpu_ticks
sum_process_tree_cpu_ticks-Counted root rows =
    let (total, seen, e, h) =
      walk-Walking root (length rows + 1) rows (root ∷ []) [] 0
        (omega (arith, pending-nothing rows)) (start-Walking root rows) in
    (
      total,
      seen,
      e,
      record {
        total_is = h.counted;
        has_root = ground (arith, h.rooted);
        closed = both rows (λ r p q e. ground (arith, p e)) h.closing h.closing;
        least = λ set r c. (h.least set r c).1;
      },
    )
