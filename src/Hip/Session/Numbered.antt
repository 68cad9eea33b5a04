-- ===== src/Hip/Session/Numbered.antt =====
-- Replies go to the request whose id they carry.
use moe_assets_updater_next.Prelude.{
  ℕ, ◌+◌, ◌%◌, ◌<◌, ◌≡◌, some, List, [], ◌∷◌, arith, lookup, nat_eq, lookup-insert, lookup-remove,
  Option-cases, inl, inr,
}
use moe_assets_updater_next.Hip.Session.{
  Cell, dropped, replied, Waiters, write, register, deliver, drop_all, fail_all,
}

-- Requests take the ids from 1 on in order, below a modulus; a reply carries the id of its request.
pub record Numbered {A : Type 0} (modulus : ℕ) (id_of : A → ℕ) (w : Waiters A) : Type 0 where
  pub asked : (id t : ℕ) → lookup id w.table ≡ some t → id ≡ (1 + t) % modulus
  pub answered : (t : ℕ) (a : A) → t < w.next → w.cells t ≡ replied a → id_of a ≡ (1 + t) % modulus

module _ {A : Type 0} (modulus : ℕ) (id_of : A → ℕ) where
  pub register-Numbered :
      (id : ℕ) (w : Waiters A)
      → id ≡ (1 + w.next) % modulus
      → Numbered modulus id_of w
      → Numbered modulus id_of (register id w)
  unfolding register
  register-Numbered id w e h = record {
    asked = λ j t f. ground (arith, lookup-insert id j w.next w.table, h.asked j t);
    answered = λ t a l f. elim (Option-cases (lookup id w.table)) [
      | inl free ↦ ground (arith, h.answered t a)
      | inr (old, taken) ↦ ground (arith, h.answered t a)
    ];
  }

  pub deliver-Numbered :
      (a : A) (w : Waiters A)
      → Numbered modulus id_of w
      → Numbered modulus id_of (deliver (id_of a) a w)
  unfolding deliver
  deliver-Numbered a w h = elim (Option-cases (lookup (id_of a) w.table)) [
    | inl nobody ↦ rw nobody h
    | inr (t, e) ↦ rw e (record {
      asked = λ j u f. ground (arith, lookup-remove (id_of a) j w.table, h.asked j u);
      answered = λ u b l f. ground (arith, h.answered u b, h.asked (id_of a) t);
    })
  ]

  drop_all-replied :
      (table : List (ℕ × ℕ)) (cells : ℕ → Cell A) (t : ℕ) (a : A)
      → drop_all table cells t ≡ replied a
      → cells t ≡ replied a
  unfolding drop_all
  drop_all-replied [] cells t a h = h
  drop_all-replied ((i, u) ∷ table) cells t a h =
      ground (arith, drop_all-replied table (write u dropped cells) t a)

  pub fail_all-Numbered :
      (w : Waiters A) → Numbered modulus id_of w → Numbered modulus id_of (fail_all w)
  unfolding fail_all lookup
  fail_all-Numbered w h = record {
    asked = λ j t f. absurd cc;
    answered = λ t a l f. h.answered t a l (drop_all-replied w.table w.cells t a f);
  }

pub deliver_next :
    {A : Type 0} (m id : ℕ) (a : A) (w : Waiters A) {n : ℕ}
    → n ≡ (1 + w.next) % m
    → n ≡ (1 + (deliver id a w).next) % m
unfolding deliver
deliver_next m id a w h = elim (Option-cases (lookup id w.table)) [
  | inl free ↦ rw free h
  | inr (t, e) ↦ rw e h
]
