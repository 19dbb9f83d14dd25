-- ===== src/Platform/Codec.antt =====
-- The messages of proto/storage.proto, and the code that protoc generates for them. A `bytes` or
-- `string` field that is not set is empty, and an unset number is 0.
use chain_db.Base.{ℕ, ◌≡◌, ◌<◌, ◌^◌, Option, none, some, ◌≢◌}
use chain_db.Base.Bytes.{Bytes}

pub record HeaderMessage : Type 0 where
  pub version : ℕ
  pub index : ℕ
  pub payload : Bytes
  pub private_key : Bytes
  pub public_key : Bytes

pub record BlockMessage : Type 0 where
  pub hash : Bytes
  pub prev_hash : Bytes
  pub nonce : Bytes
  pub payload : Bytes
  pub signature : Bytes

-- `SerializeToString` and `ParseFromString`; `none` stands for `false`.
pub record Codec : Type 0 where
  pub serialize_header : HeaderMessage → Option Bytes
  pub parse_header : Bytes → Option HeaderMessage
  pub serialize_block : BlockMessage → Option Bytes
  pub parse_block : Bytes → Option BlockMessage

-- What was serialised parses back, if the `uint64` fields are in range, and those that are parsed
-- always are.
pub record IsCodec (C : Codec) : Type 0 where
  pub header_round :
      (m : HeaderMessage) (b : Bytes)
      → m.version < 2 ^ 64
      → m.index < 2 ^ 64
      → C.serialize_header m ≡ some b
      → C.parse_header b ≡ some m
  pub header_range :
      (b : Bytes) (m : HeaderMessage)
      → C.parse_header b ≡ some m
      → (m.version < 2 ^ 64) × (m.index < 2 ^ 64)
  pub block_round :
      (m : BlockMessage) (b : Bytes) → C.serialize_block m ≡ some b → C.parse_block b ≡ some m

-- No message fails to be serialised.
pub record IsTotalCodec (C : Codec) : Type 0 where
  pub header_ok : (m : HeaderMessage) → C.serialize_header m ≢ none
  pub block_ok : (m : BlockMessage) → C.serialize_block m ≢ none
