-- ===== src/Handler.antt =====
-- src/Handler.cpp: one answer for each message that the server receives.
pub mod Auth
pub mod Requested
pub mod Calls
pub mod Asked
pub mod Reported
pub mod Answers
use chain_db.Base.{
  ℕ, Bool, true, false, Option, none, some, List, [], ◌∷◌, map, length, ltb, ◌==◌, if◌then◌else◌,
}
use chain_db.Base.Bytes.{Bytes, text, same_prefix}
use chain_db.Base.Action.{Act, Run, returned, null_pointer, endless, then_run}
use chain_db.Platform.{Platform}
use chain_db.Platform.Codec.{BlockMessage, HeaderMessage}
use chain_db.Platform.Wire.{
  Wire, Request, Response, StatusResponse, DataRequest, ChainRequest, GetBlockRequest, AuthData,
}
use chain_db.Crypto.Data.{hash_length}
use chain_db.Crypto.Sha256.{get_hash}
use chain_db.Storage.Block.{Container, to_message}
use chain_db.Storage.Chain.Header.{Header}
use chain_db.Storage.Manager

-- `Handler::Status`
pub data Status : Type 0 where
  success error data_error not_supported not_authorized : Status

abbrev pub code : Status → ℕ
code success = 0
code error = 1
code data_error = 2
code not_supported = 3
code not_authorized = 4

-- `MAX_DATA_LENGTH` and `PASSWORD_SALT` of Defs.h
abbrev pub max_data_length : ℕ
max_data_length = 8192

abbrev pub password_salt : Bytes
password_salt = text "EMPTY_SALT/"

-- A response with a status and nothing else.
abbrev pub status_response : Status → Bytes → Response
status_response status message = record {
  status = record { status = code status; message = message };
  add_block_response = none;
  get_block_response = none;
  get_blocks_response = none;
  get_chain_header_response = none;
  get_chain_keys_response = none;
  get_chain_info_response = none;
}

abbrev pub succeeded : Response
succeeded = status_response success []

-- `setBlockData`
abbrev pub set_block_data : Container → BlockMessage
set_block_data block = to_message block

-- The loop over the blocks: without one, the field is not set.
abbrev pub add_blocks : List Container → Option (List BlockMessage)
add_blocks [] = none
add_blocks (block ∷ blocks) = some (set_block_data block ∷ map set_block_data blocks)

abbrev pub header_message : Header → HeaderMessage
header_message header = record {
  version = header.version;
  index = header.index;
  payload = header.payload;
  private_key = header.private_key;
  public_key = header.public_key;
}

module _ (P : Platform) (W : Wire) where
  open P use {World, sha}

  -- What a handler returns is a serialised response, or null if there is none.
  abbrev pub Handling : Type 0
  Handling = World → Run (Option Bytes) × World

  abbrev pub make_response : Response → Option Bytes
  make_response resp = W.serialize_response resp

  abbrev pub make_status : Status → Bytes → Option Bytes
  make_status status message = W.serialize_response (status_response status message)

  abbrev pub reply : Option Bytes → Handling
  reply resp w = (returned resp, w)

  -- A call of the manager that may fail, with the message for that and the response otherwise.
  abbrev response_for : {A : Type 0} → Bytes → (A → Response) → Option A → Option Bytes
  response_for failed resp none = make_status error failed
  response_for failed resp (some a) = make_response (resp a)

  abbrev answer : {A : Type 0} → Act World A → Bytes → (A → Response) → Handling
  answer m failed resp w = let (r, w') = m w in (returned (response_for failed resp r), w')

  abbrev too_large : Handling
  too_large =
      reply (make_status data_error (text "Can't create chain (Data field size is too large)"))

  abbrev pub handle_ping_request : Handling
  handle_ping_request = reply (make_status success [])

  module _ (dir : Bytes) where
    unfoldable pub handle_create_chain_request : DataRequest → Handling
    handle_create_chain_request req =
        if ltb max_data_length (length req.payload)
        then too_large
        else answer (Manager.create_chain P dir req.chain_id req.payload)
            (text "Can't create chain") (λ _. succeeded)

    unfoldable pub handle_remove_chain_request : ChainRequest → Handling
    handle_remove_chain_request req =
        answer (Manager.remove_chain P dir req.chain_id) (text "Can't remove chain")
          (λ _. succeeded)

    unfoldable pub handle_add_block_request : DataRequest → Handling
    handle_add_block_request req =
        if ltb max_data_length (length req.payload)
        then too_large
        else answer (Manager.add_block P dir req.chain_id req.payload) (text "Can't add block")
            (λ block. record succeeded { add_block_response = some (set_block_data block) })

    unfoldable pub handle_get_block_request : GetBlockRequest → Handling
    handle_get_block_request req =
        answer (Manager.get_block P dir req.chain_id req.block_id) (text "Can't get block")
          (λ block. record succeeded { get_block_response = some (set_block_data block) })

    abbrev pub blocks_response : Bool × List Container → Run (Option Bytes)
    blocks_response (false, blocks) = returned (make_status error (text "Can't get blocks"))
    blocks_response (true, blocks) =
        returned (make_response (record succeeded { get_blocks_response = add_blocks blocks }))

    unfoldable pub handle_get_blocks_request : ChainRequest → Handling
    handle_get_blocks_request req w =
        let (r, w') = Manager.get_blocks P dir req.chain_id [] w in (then_run r blocks_response, w')

    abbrev pub verdict_response : Bool → Run (Option Bytes)
    verdict_response false = returned (make_status error (text "Chain is not valid"))
    verdict_response true = returned (make_status success [])

    unfoldable pub handle_verify_chain_request : ChainRequest → Handling
    handle_verify_chain_request req w =
        let (r, w') = Manager.verify_chain P dir req.chain_id w in (then_run r verdict_response, w')

    unfoldable pub handle_get_chain_header_request : ChainRequest → Handling
    handle_get_chain_header_request req =
        answer (Manager.get_chain_header P dir req.chain_id) (text "Can't get header")
          (λ header. record succeeded { get_chain_header_response = some (header_message header) })

    unfoldable pub handle_get_chain_keys_request : ChainRequest → Handling
    handle_get_chain_keys_request req =
        answer (Manager.get_chain_header P dir req.chain_id) (text "Can't get header") (λ header.
          record succeeded {
            get_chain_keys_response =
                some (record { private_key = header.private_key; public_key = header.public_key });
          })

    unfoldable pub handle_get_chain_info_request : ChainRequest → Handling
    handle_get_chain_info_request req =
        answer (Manager.get_chain_info P dir req.chain_id) (text "Can't get chain info") (λ info.
          record succeeded {
            get_chain_info_response =
                some (record { chain_id = req.chain_id; version = info.0; index = info.1 });
          })

    -- `if (req.has_…()) return handle…(req.…()); else …`
    abbrev pub or_else : {A : Type 0} → Option A → (A → Handling) → Handling → Handling
    or_else none handle rest = rest
    or_else (some req) handle rest = handle req

    unfoldable pub dispatch : Request → Handling
    dispatch req =
        or_else req.ping_request (λ _. handle_ping_request)
          (or_else req.create_chain_request handle_create_chain_request (
            or_else req.remove_chain_request handle_remove_chain_request (
              or_else req.add_block_request handle_add_block_request (
                or_else req.get_block_request handle_get_block_request (
                  or_else req.get_blocks_request handle_get_blocks_request (
                    or_else req.verify_chain_request handle_verify_chain_request (
                      or_else req.get_chain_header_request handle_get_chain_header_request (
                        or_else req.get_chain_keys_request handle_get_chain_keys_request (
                          or_else req.get_chain_info_request handle_get_chain_info_request (
                            reply
                              (make_status not_supported (text "Method isn't supported"))))))))))))

    -- `password` is `_password`.
    module _ (password : Bytes) where
      unfoldable pub check_auth : AuthData → Bool
      check_auth auth =
          if length auth.password_hash == hash_length
          then elim (get_hash sha (password_salt ∷ password ∷ [])) [
            | none ↦ false
            | some hash ↦ same_prefix hash auth.password_hash hash_length
          ]
          else false

      unfoldable pub authorised : Option AuthData → Handling → Handling
      authorised none handle = reply (make_status not_authorized (text "No authorization data"))
      authorised (some auth) handle =
          if check_auth auth
          then handle
          else reply (make_status not_authorized (text "Invalid password"))

      abbrev pub guarded : Bytes → Option AuthData → Handling → Handling
      guarded [] auth handle = handle
      guarded (c ∷ rest) auth handle = authorised auth handle

      unfoldable pub handle_message : Bytes → Handling
      handle_message msg = elim (W.parse_request msg) [
        | none ↦ reply (make_status data_error (text "Can't parse data"))
        | some req ↦ guarded password req.auth_data (dispatch req)
      ]
