-- ===== src/Payload/Claims/Distinct.antt =====
-- A path is handed out at most once.
use moe_assets_updater_next.Prelude.{
  ℕ, zero, suc, ◌+◌, ◌^◌, ◌≤◌, ◌<◌, ◌≡◌, ◌≢◌, refl, sym, ap, ◌∙◌, inl, inr, Bool, true, false, not,
  ◌&&◌, ◌||◌, Option, none, some, List, [], ◌∷◌, ◌++◌, arith, leb, length, length-append,
  if◌then◌else◌, ◌=?◌, Text, codes, keys, lookup, insert, contains, contains-append, Bool-cases,
}
use moe_assets_updater_next.Prelude.Int.{pos, to_string, to_string-injective}
use moe_assets_updater_next.Payload.Claims.{
  ExportPath, path_eq, path_beq_iff, NativePayloadSignature, signature_beq,
  NativeSemanticExportClaim, claimed, duplicate, Claims, stem_or_asset, semantic_duplicate_path,
  same_signature, same_payload, is_claimed, Claiming, claim_loop, claim_with_signature,
}

append-cancel : (xs ys zs : Text) → xs ++ ys ≡ xs ++ zs → ys ≡ zs
append-cancel [] ys zs h = h
append-cancel (x ∷ xs) ys zs h = append-cancel xs ys zs cc

-- A stem does not go on with a suffix of its own.
longer : (o : Option Text) (t : Text) → 1 ≤ length t → o ≢ some (stem_or_asset o ++ t)
longer none t h e = absurd cc
longer (some []) t h e = absurd cc
longer (some (c ∷ s)) t h e =
    let same : c ∷ s ≡ (c ∷ s) ++ t = cc in
    absurd (omega (arith, ap length same, length-append (c ∷ s) t, h))

suffixed :
    (path : ExportPath) (n : ℕ)
    → 2 ≤ n
    → (semantic_duplicate_path path n).stem
      ≡ some (stem_or_asset path.stem ++ (codes "__dup" ++ to_string (pos n)))
unfolding semantic_duplicate_path
suffixed path n h = ground arith

original : (path : ExportPath) (n : ℕ) → n ≤ 1 → semantic_duplicate_path path n ≡ path
unfolding semantic_duplicate_path
original path n h = ground arith

-- The first name is not one of the others.
original_differs :
    (path : ExportPath) (n : ℕ) → 2 ≤ n → path.stem ≢ (semantic_duplicate_path path n).stem
original_differs path n h e =
    longer path.stem (codes "__dup" ++ to_string (pos n)) (omega arith) (e ∙ suffixed path n h)

semantic_duplicate_path-injective :
    (path : ExportPath) (m n : ℕ)
    → 1 ≤ m
    → m < n
    → n < 2 ^ 63
    → semantic_duplicate_path path m ≢ semantic_duplicate_path path n
semantic_duplicate_path-injective path m n one less bound e = elim (Bool-cases (leb m 1)) [
  | inl first ↦ absurd (
      original_differs path n (omega (arith, less, one))
        (ap (λ (p : ExportPath). p.stem) (sym (original path m (ground arith)) ∙ e)))
  | inr more ↦
      let stems : some (stem_or_asset path.stem ++ (codes "__dup" ++ to_string (pos m)))
          ≡ some (stem_or_asset path.stem ++ (codes "__dup" ++ to_string (pos n))) =
        sym (suffixed path m (ground arith))
        ∙ ap (λ (p : ExportPath). p.stem) e
        ∙ suffixed path n (omega (arith, less, one)) in
      let same : stem_or_asset path.stem ++ (codes "__dup" ++ to_string (pos m))
          ≡ stem_or_asset path.stem ++ (codes "__dup" ++ to_string (pos n)) =
        cc in
      let digits =
        append-cancel (codes "__dup") (to_string (pos m)) (to_string (pos n))
          (append-cancel (stem_or_asset path.stem) _ _ same) in
      let numbers = to_string-injective (pos m) (pos n) (omega (arith, less, bound)) bound digits in
      absurd (omega (arith, less, pos_ℕ m n numbers))
]
  where
    pos_ℕ : (m n : ℕ) → pos m ≡ pos n → m ≡ n
    pos_ℕ m n h = cc

-- The list without the first occurrence of a path.
abbrev without : ExportPath → List ExportPath → List ExportPath
without a [] = []
without a (b ∷ bs) = let rest = without a bs in if b =? a then bs else b ∷ rest

length-without :
    (a : ExportPath) (bs : List ExportPath)
    → contains bs a ≡ true
    → length bs ≡ suc (length (without a bs))
unfolding contains
length-without a [] h = absurd cc
length-without a (b ∷ bs) h = elim (Bool-cases (b =? a)) [
  | inl same ↦ rw same refl
  | inr other ↦ rw other (ap suc (length-without a bs (rw other at h)))
]

differ : (a c : ExportPath) → a ≢ c → (a =? c) ≡ false
differ a c h = elim (Bool-cases (a =? c)) [
  | inl same ↦ absurd (h ((path_beq_iff a c).0 same))
  | inr other ↦ other
]

contains-without :
    (a c : ExportPath) (bs : List ExportPath)
    → a ≢ c
    → contains bs c ≡ true
    → contains (without a bs) c ≡ true
unfolding contains
contains-without a c [] h e = e
contains-without a c (b ∷ bs) h e = elim (Bool-cases (b =? a)) [
  | inl same ↦
      let apart = differ b c (λ q. h (sym ((path_beq_iff b a).0 same) ∙ q)) in
      rw same (rw apart at e)
  | inr other ↦ rw other (elim (Bool-cases (b =? c)) [
    | inl found ↦ rw found refl
    | inr later ↦ rw later (contains-without a c bs h (rw later at e))
  ])
]

module _ (files : List ExportPath) where
  -- A path is taken if a file has it or it is claimed.
  abbrev is_taken : Claims → ExportPath → Bool
  is_taken claims p = contains files p || is_claimed (lookup p claims)

  -- What a claim came to: a path of the family of the wanted one that no file and no claim had, and which
  -- is now claimed, or one whose claim has the same signature, with nothing changed.
  abbrev pub Handed : ExportPath → Option NativePayloadSignature → Claims → Claiming → Type 0
  Handed path signature claims (after, none) = false ≡ true
  Handed path signature claims (after, some (claimed p)) =
      (contains files p ≡ false)
      × (lookup p claims ≡ none)
      × (after ≡ insert p (record { signature = signature }) claims)
      × (n : ℕ) × (p ≡ semantic_duplicate_path path n)
  Handed path signature claims (after, some (duplicate p)) =
      (after ≡ claims)
      × (left : NativePayloadSignature) × (signature ≡ some left)
      × (right : NativePayloadSignature) × (lookup p claims
          ≡ some (record { signature = some right }))
      × (signature_beq left right ≡ true)
      × (n : ℕ) × (p ≡ semantic_duplicate_path path n)

  same_payload_lem :
      (signature : Option NativePayloadSignature) (o : Option NativeSemanticExportClaim)
      → same_payload signature o ≡ true
      → (left : NativePayloadSignature) × (signature ≡ some left)
        × (right : NativePayloadSignature) × (o ≡ some (record { signature = some right }))
        × (signature_beq left right ≡ true)
  same_payload_lem none o h = absurd cc
  same_payload_lem (some left) none h = absurd cc
  same_payload_lem (some left) (some claim) h =
      let (right, e, eq) = signature_of claim.signature h in
      (left, refl, right, ap (λ g. some (record { signature = g })) e, eq)
    where
      signature_of :
          (o : Option NativePayloadSignature)
          → same_signature left o ≡ true
          → (right : NativePayloadSignature) × (o ≡ some right) × (signature_beq left right ≡ true)
      signature_of none h = absurd cc
      signature_of (some right) h = (right, refl, h)

  unclaimed : (o : Option NativeSemanticExportClaim) → is_claimed o ≡ false → o ≡ none
  unclaimed none h = refl
  unclaimed (some c) h = absurd cc

  -- The blocked candidates from `k` on are among `left`, and the fuel is more than these.
  claim_loop-Handed :
      (fuel k : ℕ) (path : ExportPath) (signature : Option NativePayloadSignature) (claims : Claims)
      (left : List ExportPath)
      → 1 ≤ k
      → k + fuel < 2 ^ 63
      → length left < fuel
      → ((n : ℕ)
          → k ≤ n
          → is_taken claims (semantic_duplicate_path path n) ≡ true
          → n < 2 ^ 63
          → contains left (semantic_duplicate_path path n) ≡ true)
      → Handed path signature claims (claim_loop files fuel k path signature claims)
  unfolding claim_loop
  claim_loop-Handed zero k path signature claims left one bound enough h =
      absurd (omega (arith, enough))
  claim_loop-Handed (suc fuel) k path signature claims left one bound enough h =
      let p = semantic_duplicate_path path k in
      elim (Bool-cases (same_payload signature (lookup p claims))) [
        | inl same ↦
            let (l, is, r, claim, eq) = same_payload_lem signature (lookup p claims) same in
            rw same (refl, l, is, r, claim, eq, k, refl)
        | inr new ↦
            elim (Bool-cases (not (contains files p) && not (is_claimed (lookup p claims)))) [
              | inl free ↦
                  rw (new, free)
                    (ground arith, unclaimed (lookup p claims) (ground arith), refl, k, refl)
              | inr taken ↦
                  let found = h k (omega arith) (ground arith) (omega (arith, bound)) in
                  rw (new, taken)
                    (claim_loop-Handed fuel (k + 1) path signature claims (without p left)
                      (omega arith) (omega (arith, bound))
                      (omega (arith, enough, length-without p left found))
                      (λ n le blocked small.
                        contains-without p (semantic_duplicate_path path n) left
                          (semantic_duplicate_path-injective path k n one (omega (arith, le)) small)
                          (h n (omega (arith, le)) blocked small)))
            ]
      ]

  contains-keys :
      (p : ExportPath) (claims : Claims)
      → is_claimed (lookup p claims) ≡ true
      → contains (keys claims) p ≡ true
  unfolding lookup contains
  contains-keys p [] h = absurd cc
  contains-keys p ((q, c) ∷ claims) h = elim (Bool-cases (q =? p)) [
    | inl same ↦ rw same refl
    | inr other ↦ rw other (contains-keys p claims (rw other at h))
  ]

  length-keys : (claims : Claims) → length (keys claims) ≡ length claims
  length-keys [] = refl
  length-keys (c ∷ claims) = ap suc (length-keys claims)

  -- A claim is always answered. The path it hands out as new is a name of the wanted family that no file
  -- has and that no earlier claim was given, and it is claimed from now on; a path handed out as a
  -- duplicate was claimed for an object of the same signature, and no claim changes. (Files and claims
  -- together number less than 2 ^ 63 - 2.)
  pub claim_with_signature-Handed :
      (path : ExportPath) (signature : Option NativePayloadSignature) (claims : Claims)
      → length claims + length files + 2 < 2 ^ 63
      → Handed path signature claims (claim_with_signature files path signature claims)
  unfolding claim_with_signature
  claim_with_signature-Handed path signature claims bound =
      claim_loop-Handed (length claims + length files + 1) 1 path signature claims
        (files ++ keys claims) (omega arith) (omega (arith, bound))
        (omega (arith, length-append files (keys claims), length-keys claims))
        (λ n le blocked small.
          contains-append (semantic_duplicate_path path n) files (keys claims)
          ∙ ground (arith, blocked, contains-keys (semantic_duplicate_path path n) claims))
