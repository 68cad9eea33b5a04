-- ===== src/ProcessTree/Examples.antt =====
-- A tree of three processes with a cycle, among others.
use moe_assets_updater_next.Prelude.{ℕ, ◌≡◌, refl, some, List, [], ◌∷◌}
use moe_assets_updater_next.ProcessTree.{Row, scan, visit, walk, sum_process_tree_cpu_ticks}
use moe_assets_updater_next.ProcessTree.Counted.{Counted, sum_process_tree_cpu_ticks-Counted}

abbrev row : ℕ → ℕ → ℕ → Row
row pid ppid ticks = record { pid = pid; ppid = ppid; ticks = ticks }

abbrev rows : List Row
rows = row 10 12 5 ∷ row 11 10 7 ∷ row 12 11 1 ∷ row 20 1 100 ∷ []

tree_of_10 : sum_process_tree_cpu_ticks 10 rows ≡ some (13, 12 ∷ 11 ∷ 10 ∷ [])
unfolding sum_process_tree_cpu_ticks walk visit scan
tree_of_10 = refl

sum_process_tree_cpu_ticks-Counted_example :
    (total : ℕ) × (seen : List ℕ) × (sum_process_tree_cpu_ticks 10 rows ≡ some (total, seen))
    × Counted 10 rows total seen
sum_process_tree_cpu_ticks-Counted_example = sum_process_tree_cpu_ticks-Counted 10 rows
