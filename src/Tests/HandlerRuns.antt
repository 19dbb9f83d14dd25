-- ===== src/Tests/HandlerRuns.antt =====
-- The theorems on src/Handler.cpp, with simple messages: a kind, a chain, the length of the password
-- hash, and then that hash and the data.
use chain_db.Base.{List, ◌≤◌, ◌≡◌, refl, ◌⊎◌, Option, some, [], ◌∷◌, ◌++◌, arith, length, All}
use chain_db.Base.Bytes.{Bytes, text}
use chain_db.Base.Action.{returned}
use chain_db.Crypto.Secp256k1.{create_public_key}
use chain_db.Platform.Wire.{Request, DataRequest, AuthData}
use chain_db.Storage.Block.{Container}
use chain_db.Storage.Chain.Append.{counted}
use chain_db.Storage.Chain.Holds.{Holds}
use chain_db.Storage.Manager.Made.{KeyPair, IsNext}
use chain_db.Storage.Manager.Linked.{genesis, Linked, tip}
use chain_db.Storage.Manager.Runs.{Call, run}
use chain_db.Handler.{
  handle_message, dispatch, handle_verify_chain_request, handle_get_blocks_request,
  handle_add_block_request, make_status, make_response, succeeded, success, error,
}
use chain_db.Handler.Auth.{Refusal, secret, handle_message-authorised}
use chain_db.Handler.Requested.{Limited}
use chain_db.Handler.Calls.{Calls, handle_message-Calls}
use chain_db.Handler.Asked.{Asked, serve-Asked}
use chain_db.Network.Server.{serve}
use chain_db.Handler.Answers.{
  sent_block, sent_blocks, handle_add_block_request_succeeds, handle_verify_chain_request-Linked,
  handle_get_blocks_request-all, handle_add_block_request-Outcome,
}
use chain_db.Tests.Wires.{parse_plain_request, plain_wire}
use chain_db.Tests.Disk.{disk_engine-IsReliable}
use chain_db.Tests.Libraries.{plain_sha-IsTotalSha, first_bytes}
use chain_db.Tests.Machine.{
  machine-IsReliable, machine, machine-IsPlatform, test_dir, used_disk, path_1, used_header,
  used_block, session_leaves, used_chain,
}

abbrev password_hash : Bytes
password_hash = first_bytes (text "EMPTY_SALT/pw")

-- An add request for the chain 1, first without a password hash.
abbrev bare_message : Bytes
bare_message = 3 ∷ 1 ∷ 0 ∷ text "d"

abbrev signed_message : Bytes
signed_message = 3 ∷ 1 ∷ 32 ∷ password_hash ++ text "d"

handle_message-authorised_example :
    ((r : Option Bytes) × Refusal machine plain_wire machine-IsPlatform test_dir (text "pw") r
      × (handle_message machine plain_wire test_dir (text "pw") bare_message used_disk
          ≡ (returned r, used_disk)))
    ⊎ ((req : Request) × (a : AuthData) × (parse_plain_request bare_message ≡ some req)
        × (req.auth_data ≡ some a)
        × (a.password_hash ≡ secret machine plain_wire machine-IsPlatform test_dir (text "pw"))
        × (handle_message machine plain_wire test_dir (text "pw") bare_message used_disk
            ≡ dispatch machine plain_wire test_dir req used_disk))
handle_message-authorised_example =
    handle_message-authorised machine plain_wire machine-IsPlatform test_dir (text "pw")
      bare_message used_disk (λ e. cc)

handle_message-Calls_example :
    Calls machine plain_wire test_dir used_disk
      (handle_message machine plain_wire test_dir (text "pw") signed_message used_disk).1
handle_message-Calls_example =
    handle_message-Calls machine plain_wire test_dir (text "pw") signed_message used_disk

serve-Asked_example :
    (calls : List Call) × Asked machine plain_wire machine-IsPlatform test_dir
      (text "pw")
      (bare_message ∷ signed_message ∷ [])
      calls
    × (length calls ≤ 2)
    × All Limited calls
    × (serve
          (handle_message machine plain_wire test_dir (text "pw"))
          (bare_message ∷ signed_message ∷ [])
          used_disk
        ≡ run machine test_dir calls used_disk)
serve-Asked_example =
    serve-Asked machine plain_wire machine-IsPlatform test_dir (text "pw")
      (bare_message ∷ signed_message ∷ []) used_disk

handle_verify_chain_request-Linked_example :
    (Linked machine machine-IsPlatform used_header.public_key
        (genesis machine machine-IsPlatform used_header)
        (used_block ∷ [])
      × ((handle_verify_chain_request machine plain_wire test_dir
            (record { chain_id = 1 })
            used_disk).0
          ≡ returned (make_status machine plain_wire success [])))
    ⊎ ((¬ Linked machine machine-IsPlatform used_header.public_key
          (genesis machine machine-IsPlatform used_header)
          (used_block ∷ []))
        × ((handle_verify_chain_request machine plain_wire test_dir
              (record { chain_id = 1 })
              used_disk).0
            ≡ returned (make_status machine plain_wire error (text "Chain is not valid"))))
handle_verify_chain_request-Linked_example =
    handle_verify_chain_request-Linked machine plain_wire machine-IsPlatform test_dir used_disk
      used_header (used_block ∷ []) (omega arith) (record { chain_id = 1 }) used_chain
      disk_engine-IsReliable plain_sha-IsTotalSha session_leaves.5

handle_get_blocks_request-all_example :
    (handle_get_blocks_request machine plain_wire test_dir (record { chain_id = 1 }) used_disk).0
    ≡ returned (
        make_response machine plain_wire
          (record succeeded { get_blocks_response = sent_blocks (used_block ∷ []) }))
handle_get_blocks_request-all_example =
    handle_get_blocks_request-all machine plain_wire machine-IsPlatform test_dir used_disk
      used_header (used_block ∷ []) (omega arith) (record { chain_id = 1 }) used_chain
      disk_engine-IsReliable session_leaves.5

abbrev add_request : DataRequest
add_request = record { chain_id = 1; payload = text "d" }

shared_keys : KeyPair machine machine-IsPlatform used_header
unfolding create_public_key
shared_keys = refl

handle_add_block_request-Outcome_example :
    ((b : Container) × IsNext machine machine-IsPlatform used_header
        (tip machine machine-IsPlatform
          (genesis machine machine-IsPlatform used_header)
          (used_block ∷ []))
        (text "d")
        b
      × Holds machine machine-IsPlatform
          (handle_add_block_request machine plain_wire test_dir add_request used_disk).1
          path_1
          (counted used_header)
          (used_block ∷ b ∷ [])
      × ((handle_add_block_request machine plain_wire test_dir add_request used_disk).0
            ≡ returned (
                make_response machine plain_wire
                  (record succeeded { add_block_response = some (sent_block b) }))
          ⊎ (handle_add_block_request machine plain_wire test_dir add_request used_disk).0
            ≡ returned (make_status machine plain_wire error (text "Can't add block"))))
    ⊎ (Holds machine machine-IsPlatform
          (handle_add_block_request machine plain_wire test_dir add_request used_disk).1
          path_1
          used_header
          (used_block ∷ [])
        × ((handle_add_block_request machine plain_wire test_dir add_request used_disk).0
            ≡ returned (make_status machine plain_wire error (text "Can't add block"))))
handle_add_block_request-Outcome_example =
    handle_add_block_request-Outcome machine plain_wire machine-IsPlatform test_dir used_disk
      used_header (used_block ∷ []) (omega arith) add_request shared_keys (omega arith) used_chain

handle_add_block_request_succeeds_example :
    (b : Container) × IsNext machine machine-IsPlatform used_header
      (tip machine machine-IsPlatform
        (genesis machine machine-IsPlatform used_header)
        (used_block ∷ []))
      (text "d")
      b
    × Holds machine machine-IsPlatform
        (handle_add_block_request machine plain_wire test_dir add_request used_disk).1
        path_1
        (counted used_header)
        (used_block ∷ b ∷ [])
    × ((handle_add_block_request machine plain_wire test_dir add_request used_disk).0
        ≡ returned (
            make_response machine plain_wire
              (record succeeded { add_block_response = some (sent_block b) })))
handle_add_block_request_succeeds_example =
    handle_add_block_request_succeeds machine plain_wire machine-IsPlatform test_dir used_disk
      used_header (used_block ∷ []) (omega arith) add_request machine-IsReliable shared_keys
      (omega arith) used_chain session_leaves.5
