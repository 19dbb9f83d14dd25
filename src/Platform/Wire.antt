-- ===== src/Platform/Wire.antt =====
-- The messages of proto/ipc.proto, and the code that protoc generates for them. A field that holds a
-- message is `none` when it is not set, and several may be set at once.
use chain_db.Base.{ℕ, ◌^◌, ◌<◌, ◌≡◌, Option, none, some, List}
use chain_db.Base.Bytes.{Bytes}
use chain_db.Platform.Codec.{HeaderMessage, BlockMessage}

-- `CreateChainRequest` and `AddBlockRequest`
pub record DataRequest : Type 0 where
  pub chain_id : ℕ
  pub payload : Bytes

-- The requests that name a chain and no more.
pub record ChainRequest : Type 0 where
  pub chain_id : ℕ

pub record GetBlockRequest : Type 0 where
  pub chain_id : ℕ
  pub block_id : ℕ

pub record AuthData : Type 0 where
  pub password_hash : Bytes

pub record Request : Type 0 where
  pub auth_data : Option AuthData
  pub ping_request : Option (Unit {0})
  pub create_chain_request : Option DataRequest
  pub remove_chain_request : Option ChainRequest
  pub add_block_request : Option DataRequest
  pub get_block_request : Option GetBlockRequest
  pub get_blocks_request : Option ChainRequest
  pub verify_chain_request : Option ChainRequest
  pub get_chain_header_request : Option ChainRequest
  pub get_chain_keys_request : Option ChainRequest
  pub get_chain_info_request : Option ChainRequest

pub record StatusResponse : Type 0 where
  pub status : ℕ
  pub message : Bytes

pub record KeysResponse : Type 0 where
  pub private_key : Bytes
  pub public_key : Bytes

pub record InfoResponse : Type 0 where
  pub chain_id : ℕ
  pub version : ℕ
  pub index : ℕ

-- The fields that the program sets; a response with one block or one header is that message.
pub record Response : Type 0 where
  pub status : StatusResponse
  pub add_block_response : Option BlockMessage
  pub get_block_response : Option BlockMessage
  pub get_blocks_response : Option (List BlockMessage)
  pub get_chain_header_response : Option HeaderMessage
  pub get_chain_keys_response : Option KeysResponse
  pub get_chain_info_response : Option InfoResponse

-- `ParseFromString` and `SerializeToString` of a request and a response; `none` stands for `false`.
pub record Wire : Type 0 where
  pub parse_request : Bytes → Option Request
  pub serialize_request : Request → Option Bytes
  pub parse_response : Bytes → Option Response
  pub serialize_response : Response → Option Bytes

abbrev pub Within : {A : Type 0} → (A → ℕ) → Option A → Type 0
Within number none = Unit
Within number (some a) = number a < 2 ^ 64

-- The numbers of chains and blocks are of type uint64.
abbrev pub Fits : Request → Type 0
Fits req =
    Within (λ r. r.chain_id) req.create_chain_request
    × Within (λ r. r.chain_id) req.remove_chain_request
    × Within (λ r. r.chain_id) req.add_block_request
    × Within (λ r. r.chain_id) req.get_block_request
    × Within (λ r. r.block_id) req.get_block_request
    × Within (λ r. r.chain_id) req.get_blocks_request
    × Within (λ r. r.chain_id) req.verify_chain_request
    × Within (λ r. r.chain_id) req.get_chain_header_request
    × Within (λ r. r.chain_id) req.get_chain_keys_request
    × Within (λ r. r.chain_id) req.get_chain_info_request

-- A request is parsed as it was serialised.
pub record IsWire (W : Wire) : Type 0 where
  pub request_round :
      (req : Request) (msg : Bytes)
      → Fits req
      → W.serialize_request req ≡ some msg
      → W.parse_request msg ≡ some req
