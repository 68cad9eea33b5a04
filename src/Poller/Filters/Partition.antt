-- ===== src/Poller/Filters/Partition.antt =====
-- A task is kept, or dropped for a reason.
use moe_assets_updater_next.Prelude.{
  ℕ, zero, suc, ◌+◌, ◌≤◌, ◌≡◌, refl, sym, ap, ◌∙◌, ◌⊎◌, inl, inr, true, false, Option, none, some,
  List, [], ◌∷◌, ◌++◌, arith, max, length, take, drop, length-drop, length-append, append_assoc,
  append-nil, take-append-drop, All, All-append, Text, ◌=?◌, text_eq, text_beq_iff, Map, lookup,
  insert, lookup-insert, Bool-cases, Option-cases,
}
use moe_assets_updater_next.Hip.Codec.{CheckAction, CheckBatchItem, CheckAckItem}
use moe_assets_updater_next.Hip.Codec
use moe_assets_updater_next.Execution.{DownloadTask}
use moe_assets_updater_next.Poller.Filters.{
  Filtered, collect_decisions, decide, decide_chunk, check_items, after_check, check_chunks,
  hip_filter, combined_filter,
}

-- The tasks in their order, each either kept or dropped.
pub data Split : List DownloadTask → List DownloadTask → List DownloadTask → Type 0 where
  nothing : Split [] [] []
  kept :
      (task : DownloadTask) (tasks keep dropped : List DownloadTask)
      → Split tasks keep dropped
      → Split (task ∷ tasks) (task ∷ keep) dropped
  left_out :
      (task : DownloadTask) (tasks keep dropped : List DownloadTask)
      → Split tasks keep dropped
      → Split (task ∷ tasks) keep (task ∷ dropped)

Split-append :
    {ts us ks ls ds es : List DownloadTask}
    → Split ts ks ds
    → Split us ls es
    → Split (ts ++ us) (ks ++ ls) (ds ++ es)
Split-append nothing q = q
Split-append {us = us} {ls = ls} {es = es} (kept task tasks keep dropped p) q =
    kept task (tasks ++ us) (keep ++ ls) (dropped ++ es) (Split-append p q)
Split-append {us = us} {ls = ls} {es = es} (left_out task tasks keep dropped p) q =
    left_out task (tasks ++ us) (keep ++ ls) (dropped ++ es) (Split-append p q)

-- The tasks that are dropped, put into the map.
abbrev pub insert_tasks : List DownloadTask → Map Text Text → Map Text Text
insert_tasks [] m = m
insert_tasks (task ∷ tasks) m = insert_tasks tasks (insert task.bundle_path task.bundle_hash m)

insert_tasks-append :
    (ts us : List DownloadTask) (m : Map Text Text)
    → insert_tasks (ts ++ us) m ≡ insert_tasks us (insert_tasks ts m)
insert_tasks-append [] us m = refl
insert_tasks-append (t ∷ ts) us m = insert_tasks-append ts us (insert t.bundle_path t.bundle_hash m)

-- The reply says SKIP for the path.
abbrev pub SaysSkip : Text → List CheckAckItem → Type 0
SaysSkip path [] = false ≡ true
SaysSkip path (item ∷ results) =
    ((item.path ≡ path) × (item.action ≡ Codec.skip)) ⊎ SaysSkip path results

lookup-collect_decisions :
    (path : Text) (results : List CheckAckItem) (m : Map Text CheckAction)
    → lookup path (collect_decisions results m) ≡ some Codec.skip
    → SaysSkip path results ⊎ (lookup path m ≡ some Codec.skip)
unfolding collect_decisions
lookup-collect_decisions path [] m h = inr h
lookup-collect_decisions path (item ∷ results) m h =
    elim (lookup-collect_decisions path results (insert item.path item.action m) h) [
      | inl later ↦ inl (inr later)
      | inr now ↦ elim (Bool-cases (item.path =? path)) [
        | inl same ↦
            let e : some item.action ≡ some Codec.skip =
              rw (lookup-insert item.path path item.action m, same) at now in
            inl (inl ((text_beq_iff item.path path).0 same, cc))
        | inr other ↦ inr (rw (lookup-insert item.path path item.action m, other) at now)
      ]
    ]

module _ (region_name : Text)
    (check_batch : ℕ → List CheckBatchItem → Option (List CheckAckItem)) where
  -- The gateway was asked about the task and said SKIP.
  pub record Skipped (task : DownloadTask) : Type 0 where
    pub number : ℕ
    pub items : List CheckBatchItem
    pub results : List CheckAckItem
    pub replied : check_batch number items ≡ some results
    pub says : SaysSkip task.bundle_path results

  -- What the filter made of the tasks.
  pub record Checked (tasks : List DownloadTask) (before after : Filtered) : Type 0 where
    pub keep : List DownloadTask
    pub dropped : List DownloadTask
    pub split : Split tasks keep dropped
    pub kept_all : after.keep ≡ before.keep ++ keep
    pub counted : after.skipped_counter ≡ before.skipped_counter + length dropped
    pub remembered : after.skipped_bundles ≡ insert_tasks dropped before.skipped_bundles
    pub said : All Skipped dropped

  Checked-append :
      {ts us : List DownloadTask} {f g h : Filtered}
      → Checked ts f g
      → Checked us g h
      → Checked (ts ++ us) f h
  Checked-append {f = f} p q = record {
    keep = p.keep ++ q.keep;
    dropped = p.dropped ++ q.dropped;
    split = Split-append p.split q.split;
    kept_all = q.kept_all ∙ ap (λ ks. ks ++ q.keep) p.kept_all ∙ append_assoc f.keep p.keep q.keep;
    counted = omega (arith, p.counted, q.counted, length-append p.dropped q.dropped);
    remembered =
        q.remembered
        ∙ ap (insert_tasks q.dropped) p.remembered
        ∙ sym (insert_tasks-append p.dropped q.dropped f.skipped_bundles);
    said = All-append Skipped p.dropped q.dropped p.said q.said;
  }

  kept-Checked :
      (task : DownloadTask) (f : Filtered)
      → Checked (task ∷ []) f (record f { keep = f.keep ++ task ∷ [] })
  kept-Checked task f = record {
    keep = task ∷ [];
    dropped = [];
    split = kept task [] [] [] nothing;
    kept_all = refl;
    counted = omega arith;
    remembered = refl;
    said = tt;
  }

  decide-Checked :
      (o : Option CheckAction) (task : DownloadTask) (f : Filtered)
      → (o ≡ some Codec.skip → Skipped task)
      → Checked (task ∷ []) f (decide o task f)
  unfolding decide
  decide-Checked none task f h = kept-Checked task f
  decide-Checked (some Codec.upload) task f h = kept-Checked task f
  decide-Checked (some Codec.skip) task f h = record {
    keep = [];
    dropped = task ∷ [];
    split = left_out task [] [] [] nothing;
    kept_all = sym (append-nil f.keep);
    counted = omega arith;
    remembered = refl;
    said = (h refl, tt);
  }

  none-Checked : (f : Filtered) → Checked [] f f
  none-Checked f = record {
    keep = [];
    dropped = [];
    split = nothing;
    kept_all = sym (append-nil f.keep);
    counted = omega arith;
    remembered = refl;
    said = tt;
  }

  decide_chunk-Checked :
      (n : ℕ) (items : List CheckBatchItem) (results : List CheckAckItem)
      (chunk : List DownloadTask) (f : Filtered)
      → check_batch n items ≡ some results
      → Checked chunk f (decide_chunk (collect_decisions results []) chunk f)
  unfolding decide_chunk lookup
  decide_chunk-Checked n items results [] f h = none-Checked f
  decide_chunk-Checked n items results (task ∷ chunk) f h =
      Checked-append
        (decide-Checked (lookup task.bundle_path (collect_decisions results [])) task f (λ e.
          record {
            number = n;
            items = items;
            results = results;
            replied = h;
            says = elim (lookup-collect_decisions task.bundle_path results [] e) [
              | inl says ↦ says
              | inr absent ↦ absurd cc
            ];
          }))
        (decide_chunk-Checked n items results chunk _ h)

  -- The loop from the next chunk on.
  abbrev from_next : ℕ → ℕ → ℕ → List DownloadTask → Filtered → Option Filtered
  from_next size fuel n tasks g =
      check_chunks region_name check_batch size fuel (n + 1) (drop size tasks) g

  check_chunks-Checked :
      (size fuel n : ℕ) (tasks : List DownloadTask) (f g : Filtered)
      → check_chunks region_name check_batch size fuel n tasks f ≡ some g
      → Checked tasks f g
  unfolding check_chunks
  check_chunks-Checked size fuel n [] f g h = let same : f ≡ g = cc in rw same (none-Checked g)
  check_chunks-Checked size zero n (task ∷ tasks) f g h = absurd cc
  check_chunks-Checked size (suc fuel) n (task ∷ tasks) f g h =
      let chunk = take size (task ∷ tasks) in
      let items = check_items region_name check_batch chunk in
      let go : Option (List CheckAckItem) → Option Filtered =
        λ o. after_check region_name check_batch o chunk f (from_next size fuel n (task ∷ tasks)) in
      elim (Option-cases (check_batch n items)) [
        | inl failed ↦ let e : none ≡ some g = sym (ap go failed) ∙ h in absurd cc
        | inr (results, replied) ↦ rw (take-append-drop size (task ∷ tasks)) at (
            Checked-append (decide_chunk-Checked n items results chunk f replied) (
              check_chunks-Checked size fuel (n + 1) (drop size (task ∷ tasks)) _ g
                (sym (ap go replied) ∙ h)))
      ]

  -- Every batch is answered.
  abbrev pub Answers : Type 0
  Answers =
      (n : ℕ) (items : List CheckBatchItem)
      → (results : List CheckAckItem) × (check_batch n items ≡ some results)

  check_chunks-ok :
      (size fuel n : ℕ) (tasks : List DownloadTask) (f : Filtered)
      → 1 ≤ size
      → length tasks ≤ fuel
      → Answers
      → (g : Filtered) × (check_chunks region_name check_batch size fuel n tasks f ≡ some g)
  unfolding check_chunks
  check_chunks-ok size fuel n [] f one enough answers = (f, refl)
  check_chunks-ok size zero n (task ∷ tasks) f one enough answers = absurd (omega (arith, enough))
  check_chunks-ok size (suc fuel) n (task ∷ tasks) f one enough answers =
      let chunk = take size (task ∷ tasks) in
      let (results, replied) = answers n (check_items region_name check_batch chunk) in
      let (g, run) =
        check_chunks-ok size fuel (n + 1) (drop size (task ∷ tasks))
          (decide_chunk (collect_decisions results []) chunk f) one
          (omega (arith, length-drop size (task ∷ tasks))) answers in
      (
        g,
        ap
              (λ o.
                after_check region_name check_batch o chunk f
                  (from_next size fuel n (task ∷ tasks)))
              replied
            ∙ run,
      )

  -- Under a gateway, what the filter returns splits the planned tasks, in their order, into those it keeps
  -- and those it drops; it drops a task only if the gateway, asked in a batch, said SKIP for its path, and it
  -- counts and remembers exactly the dropped ones.
  pub combined_filter-Checked :
      (layer1_allow : List Text) (check_batch_size : ℕ) (tasks : List DownloadTask) (f g : Filtered)
      → combined_filter region_name check_batch true layer1_allow check_batch_size tasks f ≡ some g
      → Checked tasks (record f { keep = []; layer1_skipped = 0 }) g
  unfolding combined_filter hip_filter
  combined_filter-Checked layer1_allow check_batch_size tasks f g h =
      check_chunks-Checked (max check_batch_size 1) (length tasks) 0 tasks _ g h

  -- Under a gateway that answers every batch, the filter returns, whatever the batch size.
  pub combined_filter_ok :
      (layer1_allow : List Text) (check_batch_size : ℕ) (tasks : List DownloadTask) (f : Filtered)
      → Answers
      → (g : Filtered) × (combined_filter region_name check_batch true layer1_allow check_batch_size
            tasks f
          ≡ some g)
  unfolding combined_filter hip_filter
  combined_filter_ok layer1_allow check_batch_size tasks f answers =
      check_chunks-ok (max check_batch_size 1) (length tasks) 0 tasks _ (omega arith) (omega arith)
        answers
