-- ===== src/Payload/Claims/Examples.antt =====
-- Two claims of one path.
use moe_assets_updater_next.Prelude.{
  ◌≡◌, refl, none, some, [], ◌∷◌, arith, codes, text_beq, lookup, insert, contains,
}
use moe_assets_updater_next.Prelude.Int.{to_string}
use moe_assets_updater_next.Payload.Claims.{
  ExportPath, NativePayloadSignature, signature_beq, claimed, duplicate, Claims,
  semantic_duplicate_path, claim_loop, claim_with_signature, fingerprint_loop,
  native_payload_fingerprint,
}
use moe_assets_updater_next.Payload.Claims.Distinct.{Handed, claim_with_signature-Handed}

abbrev icon : ExportPath
icon = record { parent = codes "out"; stem = some (codes "icon"); extension = some (codes "png") }

abbrev signature : NativePayloadSignature
signature = record {
  asset_type = none;
  name = none;
  container = none;
  payload_kind = none;
  suggested_extension = none;
  payload_len = 3;
  payload_fingerprint = (1, 2);
}

abbrev claims : Claims
claims = (icon, record { signature = some signature }) ∷ []

takes_next :
    (claim_with_signature [] icon none claims).1
    ≡ some (claimed (record icon { stem = some (codes "icon__dup2") }))
unfolding claim_with_signature claim_loop semantic_duplicate_path to_string lookup insert contains
    text_beq
takes_next = refl

finds_same : (claim_with_signature [] icon (some signature) claims).1 ≡ some (duplicate icon)
unfolding claim_with_signature claim_loop semantic_duplicate_path lookup insert contains text_beq
    signature_beq
finds_same = refl

of_nothing : native_payload_fingerprint [] ≡ (14695981039346656037, 9521211207457086692)
unfolding native_payload_fingerprint fingerprint_loop
of_nothing = refl

claim_with_signature-Handed_example :
    Handed
      (icon ∷ [])
      icon
      (some signature)
      claims
      (claim_with_signature (icon ∷ []) icon (some signature) claims)
claim_with_signature-Handed_example =
    claim_with_signature-Handed (icon ∷ []) icon (some signature) claims (omega arith)
