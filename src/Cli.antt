-- ===== src/Cli.antt =====
-- cli/src/Application.cpp: the command-line client.
pub mod Chosen
pub mod Conversation
pub mod Keys
pub mod Settings
pub mod Ints
pub mod Process
use chain_db.Base.{
  ℕ, ◌*◌, ◌%◌, ◌^◌, Bool, true, false, Option, none, some, List, [], ◌∷◌, if◌then◌else◌,
}
use chain_db.Base.Bytes.{Bytes, text}
use chain_db.Base.Int.{ℤ, pos, neg, to_size_t}
use chain_db.Base.Action.{Act}
use chain_db.Platform.Sha.{Sha}
use chain_db.Platform.Wire.{Wire, Request, DataRequest, ChainRequest, GetBlockRequest, AuthData}
use chain_db.Crypto.Sha256.{get_hash}
use chain_db.Network.Client.{Client}
use chain_db.System.Arguments.{
  bool_arg, int_arg, string_arg, HandlerMap, Parsed, accepted, rejected, thrown, parse_args,
}

pub record Application : Type 0 where
  pub server_addr : Bytes
  pub server_port : ℤ
  pub timeout : ℤ
  pub is_ping_request : Bool
  pub is_create_chain_request : Bool
  pub is_remove_chain_request : Bool
  pub is_add_block_request : Bool
  pub is_get_block_request : Bool
  pub is_get_blocks_request : Bool
  pub is_verify_chain_request : Bool
  pub is_get_chain_header_request : Bool
  pub is_get_chain_keys_request : Bool
  pub is_get_chain_info_request : Bool
  pub chain_id : ℤ
  pub block_id : ℤ
  pub password : Bytes
  pub payload : Bytes
  pub client : Option Client

-- The constructor. The pointer to the client is not used before `initialize` sets it.
abbrev pub new_application : Application
new_application = record {
  server_addr = text "127.0.0.1";
  server_port = pos 8888;
  timeout = pos 1;
  is_ping_request = false;
  is_create_chain_request = false;
  is_remove_chain_request = false;
  is_add_block_request = false;
  is_get_block_request = false;
  is_get_blocks_request = false;
  is_verify_chain_request = false;
  is_get_chain_header_request = false;
  is_get_chain_keys_request = false;
  is_get_chain_info_request = false;
  chain_id = pos 1;
  block_id = pos 1;
  password = [];
  payload = text "{}";
  client = none;
}

abbrev pub handlers : HandlerMap Application
handlers =
    (text "--addr", string_arg (λ v a. record a { server_addr = v }))
    ∷ (text "--port", int_arg (λ n a. record a { server_port = n }))
    ∷ (text "--timeout", int_arg (λ n a. record a { timeout = n }))
    ∷ (text "--ping", bool_arg (λ b a. record a { is_ping_request = b }))
    ∷ (text "--create-chain", bool_arg (λ b a. record a { is_create_chain_request = b }))
    ∷ (text "--remove-chain", bool_arg (λ b a. record a { is_remove_chain_request = b }))
    ∷ (text "--add-block", bool_arg (λ b a. record a { is_add_block_request = b }))
    ∷ (text "--get-block", bool_arg (λ b a. record a { is_get_block_request = b }))
    ∷ (text "--get-blocks", bool_arg (λ b a. record a { is_get_blocks_request = b }))
    ∷ (text "--verify-chain", bool_arg (λ b a. record a { is_verify_chain_request = b }))
    ∷ (text "--get-header", bool_arg (λ b a. record a { is_get_chain_header_request = b }))
    ∷ (text "--get-keys", bool_arg (λ b a. record a { is_get_chain_keys_request = b }))
    ∷ (text "--get-info", bool_arg (λ b a. record a { is_get_chain_info_request = b }))
    ∷ (text "--chain-id", int_arg (λ n a. record a { chain_id = n }))
    ∷ (text "--block-id", int_arg (λ n a. record a { block_id = n }))
    ∷ (text "--password", string_arg (λ v a. record a { password = v }))
    ∷ (text "--data", string_arg (λ v a. record a { payload = v }))
    ∷ []

abbrev pub timeout_ms : ℕ
timeout_ms = 1000

-- `new Client(...)`: the numbers are converted to `size_t` and multiplied as such.
abbrev pub make_client : Application → Client
make_client a = record {
  addr = a.server_addr;
  port = to_size_t a.server_port;
  timeout = (to_size_t a.timeout * timeout_ms) % 2 ^ 64;
}

abbrev pub with_client : Parsed × Application → Parsed × Application
with_client (accepted, a) = (accepted, record a { client = some (make_client a) })
with_client (rejected, a) = (rejected, a)
with_client (thrown, a) = (thrown, a)

unfoldable pub initialize : List Bytes → Application → Parsed × Application
initialize argv a = with_client (parse_args handlers argv a)

-- A message none of whose fields is set.
abbrev pub empty_request : Request
empty_request = record {
  auth_data = none;
  ping_request = none;
  create_chain_request = none;
  remove_chain_request = none;
  add_block_request = none;
  get_block_request = none;
  get_blocks_request = none;
  verify_chain_request = none;
  get_chain_header_request = none;
  get_chain_keys_request = none;
  get_chain_info_request = none;
}

-- The reply is a response.
abbrev pub understood : Wire → Option Bytes → Bool
understood W none = false
understood W (some msg) = elim (W.parse_response msg) [ none ↦ false | some resp ↦ true ]

-- `PASSWORD_SALT` of the client's Defs.h
abbrev pub password_salt : Bytes
password_salt = text "EMPTY_SALT/"

module _ (H : Sha) where
  -- The message that `mutable_auth_data` makes is there, whatever becomes of its field.
  unfoldable pub set_auth_data : Bytes → AuthData
  set_auth_data [] = record { password_hash = [] }
  set_auth_data (c ∷ rest) = elim (get_hash H (password_salt ∷ (c ∷ rest) ∷ [])) [
    | none ↦ record { password_hash = [] }
    | some hash ↦ record { password_hash = hash }
  ]

  -- A request with the authorization data.
  abbrev pub signed : Application → Request
  signed a = record empty_request { auth_data = some (set_auth_data a.password) }

  -- `send` is `Client::sendMessage`.
  module _ (W : Wire) {World : Type 0} (send : Bytes → Act World Bytes) where
    unfoldable pub process_request : Request → World → Bool × World
    process_request req w = elim (W.serialize_request req) [
      | none ↦ (false, w)
      | some msg ↦ (let (result, w') = send msg w in (understood W result, w'))
    ]

    abbrev pub ping : World → Bool × World
    ping = process_request (record empty_request { ping_request = some tt })

    module _ (a : Application) where
      abbrev pub create_chain : ℕ → Bytes → World → Bool × World
      create_chain id payload = process_request (record (signed a) {
        create_chain_request = some (record { chain_id = id; payload = payload });
      })

      abbrev pub remove_chain : ℕ → World → Bool × World
      remove_chain id =
          process_request
            (record (signed a) { remove_chain_request = some (record { chain_id = id }) })

      abbrev pub add_block : ℕ → Bytes → World → Bool × World
      add_block id payload = process_request (record (signed a) {
        add_block_request = some (record { chain_id = id; payload = payload });
      })

      abbrev pub get_block : ℕ → ℕ → World → Bool × World
      get_block id block = process_request (record (signed a) {
        get_block_request = some (record { chain_id = id; block_id = block });
      })

      abbrev pub get_blocks : ℕ → World → Bool × World
      get_blocks id =
          process_request
            (record (signed a) { get_blocks_request = some (record { chain_id = id }) })

      abbrev pub verify_chain : ℕ → World → Bool × World
      verify_chain id =
          process_request
            (record (signed a) { verify_chain_request = some (record { chain_id = id }) })

      abbrev pub get_chain_header : ℕ → World → Bool × World
      get_chain_header id =
          process_request
            (record (signed a) { get_chain_header_request = some (record { chain_id = id }) })

      abbrev pub get_chain_keys : ℕ → World → Bool × World
      get_chain_keys id =
          process_request
            (record (signed a) { get_chain_keys_request = some (record { chain_id = id }) })

      abbrev pub get_chain_info : ℕ → World → Bool × World
      get_chain_info id =
          process_request
            (record (signed a) { get_chain_info_request = some (record { chain_id = id }) })

      unfoldable pub run : World → Bool × World
      run w =
          let chain = to_size_t a.chain_id in
          if a.is_ping_request
          then ping w
          else if a.is_create_chain_request
          then create_chain chain a.payload w
          else if a.is_remove_chain_request
          then remove_chain chain w
          else if a.is_add_block_request
          then add_block chain a.payload w
          else if a.is_get_block_request
          then get_block chain (to_size_t a.block_id) w
          else if a.is_get_blocks_request
          then get_blocks chain w
          else if a.is_verify_chain_request
          then verify_chain chain w
          else if a.is_get_chain_header_request
          then get_chain_header chain w
          else if a.is_get_chain_keys_request
          then get_chain_keys chain w
          else if a.is_get_chain_info_request
          then get_chain_info chain w
          else (true, w)

    abbrev pub status_of : Bool × World → Option ℤ × World
    status_of (ok, w) = (some (if ok then pos 0 else neg 1), w)

    abbrev pub started : Parsed × Application → World → Option ℤ × World
    started (accepted, a) w = status_of (run a w)
    started (rejected, a) w = (some (neg 1), w)
    started (thrown, a) w = (none, w)

    -- The status that the process ends with, or `none` if an exception leaves `main`.
    unfoldable pub main : List Bytes → World → Option ℤ × World
    main argv w = started (initialize argv new_application) w
