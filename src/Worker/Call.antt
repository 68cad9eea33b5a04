-- ===== src/Worker/Call.antt =====
-- What a call that returns an output has checked.
use moe_assets_updater_next.Prelude.{
  ℕ, ◌+◌, ◌≡◌, refl, sym, ap, ◌∙◌, ◌⊎◌, inl, inr, Option, none, some, [], arith, ltb, ◌==◌, length,
  Text, Bool-cases, Option-cases, min,
}
use moe_assets_updater_next.Worker.{
  u64_max, Stats, Worker, CallError, Response, Output, ok, err, Wire, Called, protocol_error,
  complete, check_file, check_frame, read_payload, with_error, read_response, call,
}

module _ {R : Type 0} (wire : Wire R) (id : ℕ) (w : Worker) (s : Stats) where
  -- The payload is where the response says it is, and as long.
  abbrev pub Delivered : Response R → Output R → Type 0
  Delivered r out =
      ((file : Text) × (r.payload_file ≡ some file)
        × (wire.file_len file ≡ some r.payload_len)
        × (out.payload ≡ []))
      ⊎ ((r.payload_file ≡ none) × (length out.payload ≡ r.payload_len))

  -- The response was the answer to this request, without an error.
  pub record Answered (c : Called R) (out : Output R) : Type 0 where
    pub response : Response R
    pub received : wire.frame ≡ some (some response)
    pub same_id : response.id ≡ id
    pub no_error : response.error ≡ none
    pub typed : response.response ≡ some out.response
    pub delivered : Delivered response out
    pub counted : c.worker.completed_calls ≡ min (w.completed_calls + 1) u64_max

  read_payload-Delivered :
      (r : Response R) (t : R) (file : Option Text) {out : Output R}
      → r.payload_file ≡ file
      → (read_payload wire r t file w s).result ≡ ok out
      → Delivered r out
        × (out.response ≡ t)
        × ((read_payload wire r t file w s).worker.completed_calls
            ≡ min (w.completed_calls + 1) u64_max)
  unfolding read_payload check_file check_frame complete
  read_payload-Delivered r t (some file) e h = elim (Option-cases (wire.file_len file)) [
    | inl missing ↦ absurd (ground arith)
    | inr (found, f) ↦ elim (Bool-cases (found == r.payload_len)) [
      | inr differs ↦ absurd (ground arith)
      | inl same ↦ (inl (file, e, ground arith, ground arith), ground arith, ground arith)
    ]
  ]
  read_payload-Delivered r t none e h = elim (Bool-cases (ltb 0 r.payload_len)) [
    | inl more ↦ elim (Option-cases wire.payload_frame) [
      | inl missing ↦ absurd (ground arith)
      | inr (payload, f) ↦ elim (Bool-cases (length payload == r.payload_len)) [
        | inr differs ↦ absurd (ground arith)
        | inl same ↦ (inr (e, ground arith), ground arith, ground arith)
      ]
    ]
    | inr empty ↦ (inr (e, ground arith), ground arith, ground arith)
  ]

  with_error-Answered :
      (r : Response R) {out : Output R}
      → wire.frame ≡ some (some r)
      → r.id ≡ id
      → (with_error wire r r.error w s).result ≡ ok out
      → Answered (with_error wire r r.error w s) out
  with_error-Answered r e same h = elim (Option-cases r.error) [
    | inr (message, f) ↦ absurd (ground arith)
    | inl clean ↦ elim (Option-cases r.response) [
      | inl missing ↦ absurd (ground arith)
      | inr (t, g) ↦
          let shape : with_error wire r r.error w s ≡ read_payload wire r t r.payload_file w s =
            rw (clean, g) refl in
          let (delivered, same_type, counted) =
            read_payload-Delivered r t r.payload_file refl (sym (ap (λ c. c.result) shape) ∙ h) in
          record {
            response = r;
            received = e;
            same_id = same;
            no_error = clean;
            typed = g ∙ ap some (sym same_type);
            delivered = delivered;
            counted = ap (λ c. c.worker.completed_calls) shape ∙ counted;
          }
    ]
  ]

  -- A call that returns an output has received the response with the id of its request, free of an
  -- error, and the payload at its announced length; the worker counts one call more.
  pub call-Answered :
      {out : Output R} → (call wire id w s).result ≡ ok out → Answered (call wire id w s) out
  unfolding call read_response protocol_error
  call-Answered h = elim (Bool-cases wire.written) [
    | inr refused ↦ absurd (ground arith)
    | inl taken ↦ elim (Option-cases wire.frame) [
      | inl closed ↦ absurd (ground arith)
      | inr (parsed, f) ↦ elim (Option-cases parsed) [
        | inl garbled ↦ absurd (ground arith)
        | inr (r, g) ↦ elim (Bool-cases (r.id == id)) [
          | inr other ↦ absurd (ground arith)
          | inl same ↦
              let shape : call wire id w s ≡ with_error wire r r.error w s =
                rw (taken, f, g, same) refl in
              rw shape (
                with_error-Answered r (f ∙ ap some g) (ground arith)
                  (sym (ap (λ c. c.result) shape) ∙ h))
        ]
      ]
    ]
  ]

  -- A call that returns an error leaves the worker as it was.
  pub call-unchanged :
      {e : CallError} → (call wire id w s).result ≡ err e → (call wire id w s).worker ≡ w
  unfolding call read_response protocol_error read_payload check_file check_frame complete
  call-unchanged h = ground arith
