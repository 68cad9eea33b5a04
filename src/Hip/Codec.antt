-- ===== src/Hip/Codec.antt =====
-- The messages of src/core/hip/codec.rs. How msgpack spells them is a parameter where it is used.
use moe_assets_updater_next.Prelude.{ℕ, Bool, Option, List, Text}

pub data CheckAction : Type 0 where
  skip upload : CheckAction

pub data Placement : Type 0 where
  shared override : Placement

pub record CheckBatchItem : Type 0 where
  pub path : Text
  pub fingerprint : Text
  pub size : ℕ
  pub provider : Text

pub record CheckBatch : Type 0 where
  pub batch_id : ℕ
  pub items : List CheckBatchItem

pub record CheckAckItem : Type 0 where
  pub path : Text
  pub action : CheckAction
  pub placement : Option Placement

pub record CheckResult : Type 0 where
  pub batch_id : ℕ
  pub results : List CheckAckItem

pub record UploadBegin : Type 0 where
  pub stream_id : ℕ
  pub bundle_path : Text
  pub path : Text
  pub fingerprint : Text
  pub size : ℕ
  pub content_type : Option Text

pub record UploadEnd : Type 0 where
  pub stream_id : ℕ
  pub total_bytes : ℕ
  pub sha256 : Text

pub record UploadAck : Type 0 where
  pub stream_id : ℕ
  pub status : Text
  pub placement : Option Placement
  pub server_sha256 : Option Text
  pub storage_key : Option Text
  pub message : Option Text

pub record CommitAck : Type 0 where
  pub version_id : ℕ
  pub override_index_rebuilt : Bool

pub record HipErrorPayload : Type 0 where
  pub code : Text
  pub message : Text
  pub fatal : Bool
