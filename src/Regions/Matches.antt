-- ===== src/Regions/Matches.antt =====
-- When a name is matched by a list of patterns: some pattern of the list is a regular expression that
-- matches it.
use moe_assets_updater_next.Prelude.{
  ℕ, zero, suc, ◌≡◌, refl, inl, inr, true, some, List, [], ◌∷◌, Text, Bool-cases, Option-cases,
  get_elem?,
}
use moe_assets_updater_next.Regions.{Regexes, compile_patterns, matches_any}

module _ (rx : Regexes) where
  -- A pattern of the list compiles, and matches the name.
  abbrev pub Matches : List Text → Text → Type 0
  Matches ps name =
      (i : ℕ) × (p : Text) × (r : rx.Regex) × (get_elem? ps i ≡ some p)
      × (rx.compile p ≡ some r)
      × (rx.is_match r name ≡ true)

  -- What holds of the first pattern or of the others.
  Matches-later :
      (p : Text) (ps : List Text) (name : Text) → Matches ps name → Matches (p ∷ ps) name
  Matches-later p ps name (i, q, r, e, c, m) = (suc i, q, r, e, c, m)

  pub matches_any-Matches :
      (ps : List Text) (name : Text)
      → matches_any rx (compile_patterns rx ps) name ≡ true
      → Matches ps name
  unfolding matches_any compile_patterns
  matches_any-Matches [] name h = absurd cc
  matches_any-Matches (p ∷ ps) name h = elim (Option-cases (rx.compile p)) [
    | inl bad ↦ Matches-later p ps name (matches_any-Matches ps name (rw bad at h))
    | inr (r, good) ↦
        let h' = rw good at h in
        elim (Bool-cases (rx.is_match r name)) [
          | inl hit ↦ (0, p, r, refl, good, hit)
          | inr miss ↦ Matches-later p ps name (matches_any-Matches ps name (rw miss at h'))
        ]
  ]

  pub Matches-matches_any :
      (ps : List Text) (name : Text)
      → Matches ps name
      → matches_any rx (compile_patterns rx ps) name ≡ true
  unfolding matches_any compile_patterns
  Matches-matches_any [] name (i, p, r, e, c, m) = absurd cc
  Matches-matches_any (q ∷ ps) name (zero, p, r, e, c, m) =
      let c' : rx.compile q ≡ some r = rw (ap' e) c in rw (c', m) refl
    where
      ap' : some q ≡ some p → q ≡ p
      ap' e = cc
  Matches-matches_any (q ∷ ps) name (suc i, p, r, e, c, m) =
      let ih = Matches-matches_any ps name (i, p, r, e, c, m) in
      elim (Option-cases (rx.compile q)) [
        | inl bad ↦ rw bad ih
        | inr (s, good) ↦ elim (Bool-cases (rx.is_match s name)) [
          | inl hit ↦ rw (good, hit) refl
          | inr miss ↦ rw (good, miss) ih
        ]
      ]
