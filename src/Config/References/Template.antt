-- ===== src/Config/References/Template.antt =====
-- A text with references is expanded piece by piece.
use moe_assets_updater_next.Prelude.{
  ℕ, zero, suc, ◌≤◌, ◌≡◌, ◌≢◌, refl, ap, ◌∙◌, inl, inr, Option, none, some, List, [], ◌∷◌, ◌++◌,
  ◌==◌, ==_iff, arith, length, length-append, Text, codes, All, Bool-cases, Option-cases,
}
use moe_assets_updater_next.Config.References.{
  after_prefix, marker, split_at_first, with_value, expand_loop, expand_env_references_in_string,
  or_unchanged,
}

-- A piece of a text: what precedes a reference, and the name in it.
abbrev pub Piece : Type 0
Piece = Text × Text

-- What precedes has no dollar sign, and the name no closing brace.
abbrev pub Plain : Piece → Type 0
Plain piece = All (λ c. c ≢ 36) piece.0 × All (λ c. c ≢ 125) piece.1

abbrev pub print : List Piece → Text → Text
print [] tail = tail
print ((before, name) ∷ pieces) tail =
    before ++ (marker ++ (name ++ (codes "}" ++ print pieces tail)))

-- What the pieces stand for; a missing variable leaves nothing.
abbrev pub meaning : (Text → Option Text) → List Piece → Text → Option Text
meaning env_var [] tail = some tail
meaning env_var ((before, name) ∷ pieces) tail =
    with_value (env_var name) before (meaning env_var pieces tail)

marker_first : (s : Text) → split_at_first marker (marker ++ s) ≡ some ([], s)
unfolding split_at_first after_prefix
marker_first s = refl

marker_found :
    (before s : Text)
    → All (λ c. c ≢ 36) before
    → split_at_first marker (before ++ (marker ++ s)) ≡ some (before, s)
unfolding split_at_first after_prefix
marker_found [] s h = refl
marker_found (c ∷ before) s h = elim (Bool-cases (c == 36)) [
  | inl same ↦ absurd (h.0 ((==_iff c 36).0 same))
  | inr differs ↦ rw (differs, marker_found before s h.1) refl
]

no_marker : (s : Text) → All (λ c. c ≢ 36) s → split_at_first marker s ≡ none
unfolding split_at_first after_prefix
no_marker [] h = refl
no_marker (c ∷ s) h = elim (Bool-cases (c == 36)) [
  | inl same ↦ absurd (h.0 ((==_iff c 36).0 same))
  | inr differs ↦ rw (differs, no_marker s h.1) refl
]

brace_found :
    (name s : Text)
    → All (λ c. c ≢ 125) name
    → split_at_first (codes "}") (name ++ (codes "}" ++ s)) ≡ some (name, s)
unfolding split_at_first after_prefix
brace_found [] s h = refl
brace_found (c ∷ name) s h = elim (Bool-cases (c == 125)) [
  | inl same ↦ absurd (h.0 ((==_iff c 125).0 same))
  | inr differs ↦ rw (differs, brace_found name s h.1) refl
]

expand_loop-print :
    (env_var : Text → Option Text) (n : ℕ) (pieces : List Piece) (tail : Text)
    → All Plain pieces
    → All (λ c. c ≢ 36) tail
    → length pieces ≤ n
    → expand_loop env_var n (print pieces tail) ≡ meaning env_var pieces tail
unfolding expand_loop
expand_loop-print env_var zero [] tail h t l = refl
expand_loop-print env_var (suc n) [] tail h t l = rw (no_marker tail t) refl
expand_loop-print env_var zero (p ∷ pieces) tail h t l = absurd (omega arith)
expand_loop-print env_var (suc n) ((before, name) ∷ pieces) tail h t l =
    let rest = print pieces tail in
    let (plain, named) = h.0 in
    rw (marker_found before (name ++ (codes "}" ++ rest)) plain) (
      rw (brace_found name rest named)
        (rw (expand_loop-print env_var n pieces tail h.1 t (omega arith)) refl))

length-print : (pieces : List Piece) (tail : Text) → length pieces ≤ length (print pieces tail)
length-print [] tail = omega arith
length-print ((before, name) ∷ pieces) tail =
    let rest = print pieces tail in
    omega (
      arith,
      length-append before (marker ++ (name ++ (codes "}" ++ rest))),
      length-append name (codes "}" ++ rest),
      length-print pieces tail,
    )

-- The result for a text of pieces: unchanged if there are none, an error if a variable is missing.
abbrev pub result_of : List Piece → Option Text → Option (Option Text)
result_of [] expanded = some none
result_of (piece ∷ pieces) none = none
result_of (piece ∷ pieces) (some expanded) = some (some expanded)

-- A text made of references and of text without a dollar sign is expanded to the values of the variables
-- with the text between them as it is; without references it is left unchanged, and a variable that is
-- missing is an error. (No name has a closing brace.)
pub expand_env_references_in_string-print :
    (env_var : Text → Option Text) (pieces : List Piece) (tail : Text)
    → All Plain pieces
    → All (λ c. c ≢ 36) tail
    → expand_env_references_in_string env_var (print pieces tail)
      ≡ result_of pieces (meaning env_var pieces tail)
unfolding expand_env_references_in_string
expand_env_references_in_string-print env_var [] tail h t = rw (no_marker tail t) refl
expand_env_references_in_string-print env_var ((before, name) ∷ pieces) tail h t =
    let rest = print pieces tail in
    let whole = before ++ (marker ++ (name ++ (codes "}" ++ rest))) in
    let run =
      expand_loop-print env_var (length whole) ((before, name) ∷ pieces) tail h t
        (length-print ((before, name) ∷ pieces) tail) in
    rw (marker_found before (name ++ (codes "}" ++ rest)) h.0.0) (
      ap (λ o. or_unchanged (some (before, name ++ (codes "}" ++ rest))) o) run
      ∙ settle (before, name) pieces (before, name ++ (codes "}" ++ rest))
          (meaning env_var ((before, name) ∷ pieces) tail))
  where
    settle :
        (p : Piece) (pieces : List Piece) (at : Text × Text) (o : Option Text)
        → or_unchanged (some at) o ≡ result_of (p ∷ pieces) o
    settle p pieces at none = refl
    settle p pieces at (some x) = refl

length-after_prefix :
    (c : ℕ) (prefix s rest : Text)
    → after_prefix (c ∷ prefix) s ≡ some rest
    → suc (length rest) ≤ length s
unfolding after_prefix
length-after_prefix c prefix [] rest h = absurd cc
length-after_prefix c [] (d ∷ s) rest h = elim (Bool-cases (d == c)) [
  | inl same ↦
      let e : some s ≡ some rest = rw same at h in
      let e' : s ≡ rest = cc in omega (arith, ap length e')
  | inr differs ↦ let bad : none ≡ some rest = rw differs at h in absurd cc
]
length-after_prefix c (k ∷ prefix) (d ∷ s) rest h = elim (Bool-cases (d == c)) [
  | inl same ↦ omega (arith, length-after_prefix k prefix s rest (rw same at h))
  | inr differs ↦ let bad : none ≡ some rest = rw differs at h in absurd cc
]

-- The text after a marker is shorter, so that there are no more rounds than characters.
length-split_at_first :
    (c : ℕ) (needle s before after : Text)
    → split_at_first (c ∷ needle) s ≡ some (before, after)
    → suc (length after) ≤ length s
unfolding split_at_first
length-split_at_first c needle [] before after h = absurd cc
length-split_at_first c needle (d ∷ s) before after h =
    elim (Option-cases (after_prefix (c ∷ needle) (d ∷ s))) [
      | inr (rest, e) ↦
          let same : some ([], rest) ≡ some (before, after) = rw e at h in
          let same' : rest ≡ after = cc in
          rw (← same') (length-after_prefix c needle (d ∷ s) rest e)
      | inl e ↦ elim (Option-cases (split_at_first (c ∷ needle) s)) [
        | inl none' ↦ let bad : none ≡ some (before, after) = rw (e, none') at h in absurd cc
        | inr (found, e') ↦
            let same : some (d ∷ found.0, found.1) ≡ some (before, after) = rw (e, e') at h in
            let same' : found.1 ≡ after = cc in
            let shorter = length-split_at_first c needle s found.0 found.1 e' in
            omega (arith, shorter, ap length same')
      ]
    ]

-- From as many rounds on as there are characters, more rounds change nothing.
pub expand_loop-enough :
    (env_var : Text → Option Text) (n m : ℕ) (raw : Text)
    → length raw ≤ n
    → length raw ≤ m
    → expand_loop env_var n raw ≡ expand_loop env_var m raw
unfolding expand_loop split_at_first
expand_loop-enough env_var zero zero raw h k = refl
expand_loop-enough env_var zero (suc m) [] h k = refl
expand_loop-enough env_var zero (suc m) (c ∷ raw) h k = absurd (omega arith)
expand_loop-enough env_var (suc n) zero [] h k = refl
expand_loop-enough env_var (suc n) zero (c ∷ raw) h k = absurd (omega arith)
expand_loop-enough env_var (suc n) (suc m) raw h k =
    elim (Option-cases (split_at_first marker raw)) [
      | inl none' ↦ rw none' refl
      | inr ((before, after), e) ↦ elim (Option-cases (split_at_first (codes "}") after)) [
        | inl open' ↦ rw e (rw open' refl)
        | inr ((name, rest), e') ↦
            let shorter = length-split_at_first 36 (codes "{env:") raw before after e in
            let shorter' = length-split_at_first 125 [] after name rest e' in
            rw e (
              rw e' (
                ap (λ (o : Option Text). with_value (env_var name) before o)
                  (expand_loop-enough env_var n m rest (omega arith) (omega arith))))
      ]
    ]
