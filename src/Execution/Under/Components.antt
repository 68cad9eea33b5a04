-- ===== src/Execution/Under/Components.antt =====
-- The components of the path of a bundle: they make up the path, and hold no slash.
use mathlib.Core.Path.{subst}
use moe_assets_updater_next.Prelude.{
  ℕ, ◌≡◌, ◌≢◌, refl, sym, ap, ◌∙◌, true, false, Option, none, some, List, [], ◌∷◌, ◌++◌, arith,
  ◌==◌, ==_iff, Text, text_eq, option_eq, codes, All, Bool-cases, Option-cases, inl, inr,
}
use moe_assets_updater_next.Execution.{
  cons_head, split_slash, is_refused, any_refused, after_dot, rsplit_dot, name_parts,
}

-- The components with slashes between.
abbrev pub join_slash : List Text → Text
join_slash [] = []
join_slash (w ∷ []) = w
join_slash (w ∷ v ∷ ws) = w ++ (47 ∷ join_slash (v ∷ ws))

-- No slash is in the text.
abbrev pub NoSlash : Text → Type 0
NoSlash s = All (λ c. c ≢ 47) s

abbrev pub NonEmpty : List Text → Type 0
NonEmpty [] = false ≡ true
NonEmpty (w ∷ ws) = Unit {0}

cons_head-NonEmpty : (c : ℕ) (ws : List Text) → NonEmpty (cons_head c ws)
cons_head-NonEmpty c [] = tt
cons_head-NonEmpty c (w ∷ ws) = tt

pub split_slash-NonEmpty : (s : Text) → NonEmpty (split_slash s)
unfolding split_slash
split_slash-NonEmpty [] = tt
split_slash-NonEmpty (c ∷ s) = elim (Bool-cases (c == 47)) [
  | inl slash ↦ rw slash tt
  | inr other ↦ rw other (cons_head-NonEmpty c (split_slash s))
]

join-cons_head : (c : ℕ) (ws : List Text) → join_slash (cons_head c ws) ≡ c ∷ join_slash ws
join-cons_head c [] = refl
join-cons_head c (w ∷ []) = refl
join-cons_head c (w ∷ v ∷ ws) = refl

join-empty : (ws : List Text) → NonEmpty ws → join_slash ([] ∷ ws) ≡ 47 ∷ join_slash ws
join-empty [] h = absurd cc
join-empty (w ∷ ws) h = refl

pub join-split_slash : (s : Text) → join_slash (split_slash s) ≡ s
unfolding split_slash
join-split_slash [] = refl
join-split_slash (c ∷ s) = elim (Bool-cases (c == 47)) [
  | inl slash ↦
      let e : c ≡ 47 = (==_iff c 47).0 slash in
      rw slash (
        join-empty (split_slash s) (split_slash-NonEmpty s)
        ∙ ap (λ t. 47 ∷ t) (join-split_slash s)
        ∙ ap (λ d. d ∷ s) (sym e))
  | inr other ↦ rw other (join-cons_head c (split_slash s) ∙ ap (λ t. c ∷ t) (join-split_slash s))
]

cons_head-NoSlash :
    (c : ℕ) (ws : List Text) → c ≢ 47 → All NoSlash ws → All NoSlash (cons_head c ws)
cons_head-NoSlash c [] n h = ((n, tt), tt)
cons_head-NoSlash c (w ∷ ws) n h = ((n, h.0), h.1)

pub split_slash-NoSlash : (s : Text) → All NoSlash (split_slash s)
unfolding split_slash
split_slash-NoSlash [] = (tt, tt)
split_slash-NoSlash (c ∷ s) = elim (Bool-cases (c == 47)) [
  | inl slash ↦ rw slash (tt, split_slash-NoSlash s)
  | inr other ↦ rw other (
      cons_head-NoSlash c (split_slash s) (λ e. absurd (ground (arith, (==_iff c 47).1 e)))
        (split_slash-NoSlash s))
]

-- A component that stays where it is put.
pub record Plain (component : Text) : Type 0 where
  pub no_slash : NoSlash component
  pub named : is_refused component ≡ false

pub any_refused-Plain : (cs : List Text) → any_refused cs ≡ false → All NoSlash cs → All Plain cs
unfolding any_refused
any_refused-Plain [] h n = tt
any_refused-Plain (c ∷ cs) h n =
    (record { no_slash = n.0; named = ground arith }, any_refused-Plain cs (ground arith) n.1)

-- The last dot of a name with `.bundle` at its end is the one before `bundle`.
pub rsplit_dot-append :
    (stem : Text) → rsplit_dot (stem ++ codes ".bundle") ≡ some (stem, codes "bundle")
unfolding rsplit_dot
rsplit_dot-append [] = refl
rsplit_dot-append (c ∷ stem) = ap (after_dot c (stem ++ codes ".bundle")) (rsplit_dot-append stem)

rsplit_dot-inverse :
    (s : Text) (o : Option (Text × Text)) (before after : Text)
    → rsplit_dot s ≡ o
    → o ≡ some (before, after)
    → before ++ (46 ∷ after) ≡ s
unfolding rsplit_dot
rsplit_dot-inverse [] o before after e h = absurd cc
rsplit_dot-inverse (c ∷ s) o before after e h = elim (Option-cases (rsplit_dot s)) [
  | inl absent ↦ elim (Bool-cases (c == 46)) [
    | inl dot ↦
        let here : some ([], s) ≡ some (before, after) =
          sym (ap (after_dot c s) absent ∙ rw dot refl) ∙ e ∙ h in
        let at_dot : c ≡ 46 = (==_iff c 46).0 dot in
        let front : [] ≡ before = cc in
        let back : s ≡ after = cc in rw (← front, ← back, at_dot) refl
    | inr other ↦
        let shut : none ≡ some (before, after) =
          sym (ap (after_dot c s) absent ∙ rw other refl) ∙ e ∙ h in
        absurd cc
  ]
  | inr ((b, a), found) ↦
      let later : some (c ∷ b, a) ≡ some (before, after) = sym (ap (after_dot c s) found) ∙ e ∙ h in
      let front : c ∷ b ≡ before = cc in
      let back : a ≡ after = cc in
      rw (← front, ← back) (ap (λ t. c ∷ t) (rsplit_dot-inverse s (some (b, a)) b a found refl))
]

NoSlash-front : (before rest : Text) → NoSlash (before ++ rest) → NoSlash before
NoSlash-front [] rest h = tt
NoSlash-front (c ∷ before) rest h = (h.0, NoSlash-front before rest h.1)

-- A stem to which `.bundle` can be put.
abbrev pub Stem : Text → Type 0
Stem [] = false ≡ true
Stem (c ∷ s) = NoSlash (c ∷ s)

Plain-Stem : (name : Text) → Plain name → Stem name
Plain-Stem [] h = absurd (let e = h.named in cc)
Plain-Stem (c ∷ s) h = h.no_slash

pub name_parts-Stem :
    (name : Text) (o : Option (Text × Text))
    → rsplit_dot name ≡ o
    → Plain name
    → Stem (name_parts name o).0
name_parts-Stem name none e h = Plain-Stem name h
name_parts-Stem name (some ([], after)) e h = Plain-Stem name h
name_parts-Stem name (some (c ∷ before, after)) e h =
    NoSlash-front (c ∷ before) (46 ∷ after)
      (subst NoSlash (sym (rsplit_dot-inverse name _ (c ∷ before) after e refl)) h.no_slash)
