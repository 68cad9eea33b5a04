-- ===== src/Payload/Claims.antt =====
-- The paths that exported objects claim, of src/core/export_pipeline/implementation/payload.rs: what
-- `claim`, `claim_payload` and `claim_with_signature` hand out. A path is its directory, stem and
-- extension, and the files that exist are a list.
pub mod Distinct
mod Examples
use Prim.Native.Nat.{bit_xor}
use moe_assets_updater_next.Prelude.{
  ℕ, zero, suc, ◌+◌, ◌*◌, ◌/◌, ◌%◌, ◌^◌, ◌≡◌, ◌↔◌, Bool, true, false, not, ◌&&◌, ◌||◌, Option, none,
  some, List, [], ◌∷◌, ◌++◌, arith, leb, length, ◌==◌, ==_iff, if◌then◌else◌, Eq, ◌=?◌, Text,
  text_eq, text_beq_iff, option_eq, option_beq_iff, =?_refl, refl, codes, Map, lookup, insert,
  contains,
}
use moe_assets_updater_next.Prelude.Int.{pos, to_string}

-- What `parent`, `file_stem` and `extension` say of a path.
pub record ExportPath : Type 0 where
  pub parent : Text
  pub stem : Option Text
  pub extension : Option Text

abbrev pub path_beq : ExportPath → ExportPath → Bool
path_beq p q = (p.parent =? q.parent) && (p.stem =? q.stem) && (p.extension =? q.extension)

same_path :
    (p q : ExportPath) → p.parent ≡ q.parent → p.stem ≡ q.stem → p.extension ≡ q.extension → p ≡ q
same_path p q a b c = cc

pub path_beq_iff : (p q : ExportPath) → (path_beq p q ≡ true) ↔ (p ≡ q)
path_beq_iff p q = (
  λ h.
      same_path p q ((text_beq_iff p.parent q.parent).0 (ground arith))
        ((option_beq_iff p.stem q.stem).0 (ground arith))
        ((option_beq_iff p.extension q.extension).0 (ground arith)),
  λ e. rw (e, =?_refl q.parent, =?_refl q.stem, =?_refl q.extension) refl,
)

instance abbrev pub path_eq : Eq ExportPath
path_eq = record { beq = path_beq; beq_iff = path_beq_iff }

pub record NativePayloadSignature : Type 0 where
  pub asset_type : Option Text
  pub name : Option Text
  pub container : Option Text
  pub payload_kind : Option Text
  pub suggested_extension : Option Text
  pub payload_len : ℕ
  pub payload_fingerprint : ℕ × ℕ

unfoldable pub signature_beq : NativePayloadSignature → NativePayloadSignature → Bool
signature_beq s t =
    (s.asset_type =? t.asset_type)
    && (s.name =? t.name)
    && (s.container =? t.container)
    && (s.payload_kind =? t.payload_kind)
    && (s.suggested_extension =? t.suggested_extension)
    && s.payload_len == t.payload_len
    && s.payload_fingerprint.0 == t.payload_fingerprint.0
    && s.payload_fingerprint.1 == t.payload_fingerprint.1

pub record NativeSemanticExportClaim : Type 0 where
  pub signature : Option NativePayloadSignature

pub data NativeSemanticPathClaim : Type 0 where
  claimed : ExportPath → NativeSemanticPathClaim
  duplicate : ExportPath → NativeSemanticPathClaim

abbrev pub Claims : Type 0
Claims = Map ExportPath NativeSemanticExportClaim

-- The name of a duplicate when the path has no stem, and an extension that is not blank.
abbrev pub stem_or_asset : Option Text → Text
stem_or_asset none = codes "asset"
stem_or_asset (some []) = codes "asset"
stem_or_asset (some (c ∷ s)) = c ∷ s

abbrev pub extension_or_none : Option Text → Option Text
extension_or_none none = none
extension_or_none (some []) = none
extension_or_none (some (c ∷ s)) = some (c ∷ s)

unfoldable pub semantic_duplicate_path : ExportPath → ℕ → ExportPath
unfolding to_string
semantic_duplicate_path path ordinal = if leb ordinal 1 then path else record {
  parent = path.parent;
  stem = some (stem_or_asset path.stem ++ (codes "__dup" ++ to_string (pos ordinal)));
  extension = extension_or_none path.extension;
}

-- `signature.zip(existing.signature).is_some_and(|(left, right)| left == right)`, where the candidate has
-- a claim.
abbrev pub same_signature : NativePayloadSignature → Option NativePayloadSignature → Bool
same_signature left none = false
same_signature left (some right) = signature_beq left right

abbrev pub same_payload : Option NativePayloadSignature → Option NativeSemanticExportClaim → Bool
same_payload none claim = false
same_payload (some left) none = false
same_payload (some left) (some claim) = same_signature left claim.signature

abbrev pub is_claimed : Option NativeSemanticExportClaim → Bool
is_claimed none = false
is_claimed (some claim) = true

-- The state of the claims with the result; `none` if the fuel runs out.
abbrev pub Claiming : Type 0
Claiming = Claims × Option NativeSemanticPathClaim

module _ (files : List ExportPath) where
  -- The loop on fuel.
  unfoldable pub claim_loop : ℕ → ℕ → ExportPath → Option NativePayloadSignature → Claims → Claiming
  unfolding semantic_duplicate_path lookup insert contains signature_beq
  claim_loop zero ordinal path signature claims = (claims, none)
  claim_loop (suc fuel) ordinal path signature claims =
      let candidate = semantic_duplicate_path path ordinal in
      let rest = claim_loop fuel (ordinal + 1) path signature claims in
      if same_payload signature (lookup candidate claims)
      then (claims, some (duplicate candidate))
      else if not (contains files candidate) && not (is_claimed (lookup candidate claims))
      then (insert candidate (record { signature = signature }) claims, some (claimed candidate))
      else rest

  -- One candidate more than there are paths that may be taken.
  unfoldable pub claim_with_signature :
      ExportPath → Option NativePayloadSignature → Claims → Claiming
  unfolding claim_loop
  claim_with_signature path signature claims =
      claim_loop (length claims + length files + 1) 1 path signature claims

-- `native_payload_fingerprint`: the multiplications wrap, and the rotation is by 5 of 64 bits.
unfoldable pub fingerprint_loop : ℕ → List ℕ → ℕ × ℕ → ℕ × ℕ
fingerprint_loop index [] (left, right) = (left, right)
fingerprint_loop index (byte ∷ payload) (left, right) =
    let mixed = bit_xor right (bit_xor (byte * 2 ^ (index % 8 * 8)) index) in
    fingerprint_loop (index + 1) payload (
      bit_xor left byte * 1099511628211 % 2 ^ 64,
      (mixed * 2 ^ 5 % 2 ^ 64 + mixed / 2 ^ 59) * 1099511628211 % 2 ^ 64,
    )

unfoldable pub native_payload_fingerprint : List ℕ → ℕ × ℕ
unfolding fingerprint_loop
native_payload_fingerprint payload =
    fingerprint_loop 0 payload (14695981039346656037, 9521211207457086692)
