-- ===== src/Hip/Error.antt =====
-- src/core/hip/errors.rs. A formatted message is the constructor that names its text, with the
-- values that the text shows.
use moe_assets_updater_next.Prelude.{ℕ, Bool, Text, ◌≡◌, refl, ◌⊎◌, inl, inr}

-- The texts of `HipError::Protocol`.
pub data Violation : Type 0 where
  unknown_frame_type : ℕ → Violation
  zero_length : Violation
  size_mismatch : ℕ → ℕ → Violation
  commit_in_flight : Violation
  unexpected_frame : ℕ → Violation

-- The texts of `HipError::SessionClosed`.
pub data Closed : Type 0 where
  writer_terminated session_is_closed upload_semaphore_closed : Closed
  check_reply_dropped upload_reply_dropped commit_reply_dropped : Closed

-- The texts of `HipError::Handshake`.
pub data Rejection : Type 0 where
  rejected_hello : Text → Text → Rejection
  unexpected_type : ℕ → Rejection

-- `io` stands for the errors of the stream that the client reads and writes.
pub data HipError : Type 0 where
  io : HipError
  frame_too_large : ℕ → ℕ → HipError
  protocol : Violation → HipError
  encode decode : HipError
  handshake : Rejection → HipError
  server : Text → Text → Bool → HipError
  session_closed : Closed → HipError
  timeout : ℕ → HipError
  sha256_mismatch : Text → HipError
  tls config : HipError

pub data Result {ℓ} (A : Type ℓ) : Type ℓ where
  ok : A → Result A
  err : HipError → Result A

-- The operator `?`.
infixl 5 ◌>>=◌
abbrev pub ◌>>=◌ {ℓ κ} :
    {Value : Type ℓ} {Next : Type κ} → Result Value → (Value → Result Next) → Result Next
err e >>= next = err e
ok value >>= next = next value

pub Result-cases {ℓ} :
    {A : Type ℓ} (r : Result A) → ((a : A) × (r ≡ ok a)) ⊎ ((e : HipError) × (r ≡ err e))
Result-cases (ok a) = inl (a, refl)
Result-cases (err e) = inr (e, refl)
