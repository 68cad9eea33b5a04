-- ===== src/Hip/Session/Waiting.antt =====
-- The tables of waiting requests: no request that still waits is ever lost from its table.
use moe_assets_updater_next.Prelude.{
  ℕ, ◌<◌, ◌≡◌, ◌≢◌, some, [], ◌∷◌, arith, ◌==◌, Map, IsMap, lookup, nat_eq, lookup-insert,
  lookup-remove, insert-IsMap, remove-IsMap, Option-cases, Bool-cases, inl, inr,
}
use moe_assets_updater_next.Hip.Session.{
  Cell, pending, dropped, Waiters, write, register, deliver, drop_all, fail_all,
}

module _ {A : Type 0} where
  -- The table has one ticket for each id and one id for each ticket; its tickets are exactly those that
  -- still wait.
  pub record IsWaiters (w : Waiters A) : Type 0 where
    pub unique : IsMap w.table
    pub waits : (id t : ℕ) → lookup id w.table ≡ some t → (t < w.next) × (w.cells t ≡ pending)
    pub distinct :
        (id id' t : ℕ) → lookup id w.table ≡ some t → lookup id' w.table ≡ some t → id ≡ id'
    pub kept : (t : ℕ) → t < w.next → w.cells t ≡ pending → (id : ℕ) × (lookup id w.table ≡ some t)

  pub register-IsWaiters : (id : ℕ) (w : Waiters A) → IsWaiters w → IsWaiters (register id w)
  unfolding register
  register-IsWaiters id w h = elim (Option-cases (lookup id w.table)) [
    | inl free ↦ record {
      unique = insert-IsMap id w.next w.table h.unique;
      waits = λ j t e. ground (arith, lookup-insert id j w.next w.table, h.waits j t);
      distinct = λ j k t e f. ground (
        arith,
        lookup-insert id j w.next w.table,
        lookup-insert id k w.next w.table,
        h.waits j t,
        h.waits k t,
        h.distinct j k t,
      );
      kept = λ t l p. elim (Bool-cases (t == w.next)) [
        | inl new ↦ (id, ground (arith, lookup-insert id id w.next w.table))
        | inr other ↦
            let (j, e) = h.kept t (ground arith) (ground arith) in
            (j, ground (arith, lookup-insert id j w.next w.table))
      ];
    }
    | inr (old, taken) ↦ record {
      unique = insert-IsMap id w.next w.table h.unique;
      waits = λ j t e.
          ground (arith, lookup-insert id j w.next w.table, h.waits j t, h.distinct id j old taken);
      distinct = λ j k t e f. ground (
        arith,
        lookup-insert id j w.next w.table,
        lookup-insert id k w.next w.table,
        h.waits j t,
        h.waits k t,
        h.distinct j k t,
      );
      kept = λ t l p. elim (Bool-cases (t == w.next)) [
        | inl new ↦ (id, ground (arith, lookup-insert id id w.next w.table))
        | inr other ↦
            let (j, e) = h.kept t (ground arith) (ground arith) in
            (j, ground (arith, lookup-insert id j w.next w.table))
      ];
    }
  ]

  pub deliver-IsWaiters :
      (id : ℕ) (reply : A) (w : Waiters A) → IsWaiters w → IsWaiters (deliver id reply w)
  unfolding deliver
  deliver-IsWaiters id reply w h = elim (Option-cases (lookup id w.table)) [
    | inl nobody ↦ rw nobody h
    | inr (t, e) ↦ rw e (record {
      unique = remove-IsMap id w.table h.unique;
      waits = λ j u f. ground (arith, lookup-remove id j w.table, h.waits j u, h.distinct id j t e);
      distinct = λ j k u f g.
          ground (arith, lookup-remove id j w.table, lookup-remove id k w.table, h.distinct j k u);
      kept = λ u l p.
          let (j, f) = h.kept u (ground arith) (ground arith) in
          (j, ground (arith, lookup-remove id j w.table));
    })
  ]

  drop_all-inv :
      (table : Map ℕ ℕ) (cells : ℕ → Cell A) (t : ℕ)
      → drop_all table cells t ≡ pending
      → (cells t ≡ pending) × ((id : ℕ) → lookup id table ≢ some t)
  unfolding drop_all lookup
  drop_all-inv [] cells t h = (h, λ id e. cc)
  drop_all-inv ((i, u) ∷ table) cells t h =
      let (p, q) = drop_all-inv table (write u dropped cells) t h in
      (ground arith, λ id e. ground (arith, q id, p))

  pub fail_all-IsWaiters : (w : Waiters A) → IsWaiters w → IsWaiters (fail_all w)
  unfolding fail_all lookup
  fail_all-IsWaiters w h = record {
    unique = tt;
    waits = λ id t e. absurd cc;
    distinct = λ id id' t e f. absurd cc;
    kept = λ t l p.
        let (q, r) = drop_all-inv w.table w.cells t p in
        let (id, e) = h.kept t l q in absurd (r id e);
  }

  -- After `fail_all` no channel waits any more.
  pub fail_all-settled :
      (w : Waiters A) → IsWaiters w → (t : ℕ) → t < w.next → (fail_all w).cells t ≢ pending
  unfolding fail_all
  fail_all-settled w h t l p =
      let (q, r) = drop_all-inv w.table w.cells t p in let (id, e) = h.kept t l q in r id e
