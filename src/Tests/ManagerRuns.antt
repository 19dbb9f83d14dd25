-- ===== src/Tests/ManagerRuns.antt =====
-- The theorems on src/Storage/Manager.cpp, on the disk of the session.
use chain_db.Base.{some, ◌≡◌, ◌↔◌, ◌⊎◌, refl, Bool, true, false, none, [], ◌∷◌, arith, map}
use chain_db.Base.Bytes.{text}
use chain_db.Base.Action.{returned}
use chain_db.Crypto.Secp256k1.{create_public_key}
use chain_db.Storage.Manager.{verify_chain, add_block, verify_blocks}
use chain_db.Storage.Manager.Made.{KeyPair, IsNext}
use chain_db.Storage.Manager.Adds.{Outcome, add_block-Outcome}
use chain_db.Storage.Manager.Succeeds.{add_block_succeeds}
use chain_db.Storage.Block.{Container}
use chain_db.Storage.Chain.Holds.{Holds}
use chain_db.Storage.Chain.Append.{counted}
use chain_db.Storage.Manager.Blindness.{with_prev_hash, verify_blocks-map}
use chain_db.Storage.Manager.Linked.{genesis, Linked, tip}
use chain_db.Storage.Manager.Paths.{make_storage_path_injective}
use chain_db.Storage.Manager.Runs.{run, adds, locked-run, content-step}
use chain_db.Storage.Manager.Tampering.{SameOrigin, SameBlocks, Collision}
use chain_db.Storage.Manager.Verifies.{verify_chain-Linked, verify_chain_decides, tamper_evidence}
use chain_db.Storage.Manager.Ledger.{empty_ledger, perform_all}
use chain_db.Storage.Manager.Ledger.Reads.{Readable, run-Readable}
use chain_db.Storage.Manager.Ledger.Failures.{State, absent, Evolves}
use chain_db.Storage.Manager.Ledger.States.{Stands}
use chain_db.Storage.Manager.Ledger.Endures.{run-Evolves}
use chain_db.Tests.Disk.{blank_disk, disk_engine-IsReliable}
use chain_db.Tests.Libraries.{plain_sha-IsTotalSha}
use chain_db.Tests.Machine.{
  machine, machine-IsPlatform, machine-IsReliable, machine-MakesKeys, test_dir, session, used_disk,
  path_1, used_header, used_block, session_leaves, used_chain,
}

run-Readable_example :
    Readable machine machine-IsPlatform test_dir (perform_all session empty_ledger 1) 1 used_disk
run-Readable_example =
    run-Readable machine machine-IsPlatform test_dir machine-IsReliable machine-MakesKeys session
      blank_disk 1 (λ q. refl) (λ q. refl) (omega arith)

run-Evolves_example :
    (t : State) × Evolves machine test_dir 1 session blank_disk absent t
    × Stands machine machine-IsPlatform 3 t used_disk path_1
run-Evolves_example =
    run-Evolves machine machine-IsPlatform test_dir session 0 1 absent blank_disk (omega arith)
      (tt, (tt, (tt, tt))) refl

locked-run_example : used_disk.held path_1 ≡ false
locked-run_example = locked-run machine machine-IsPlatform test_dir session blank_disk path_1

content-step_example :
    (run machine test_dir (adds 2 (text "x") ∷ []) used_disk).tables path_1
    ≡ used_disk.tables path_1
unfolding run
content-step_example =
    content-step machine machine-IsPlatform test_dir (adds 2 (text "x")) used_disk path_1
      (λ e. absurd (omega (arith, make_storage_path_injective test_dir 2 1 e)))

verify_chain-Linked_example :
    Linked machine machine-IsPlatform used_header.public_key
      (genesis machine machine-IsPlatform used_header)
      (used_block ∷ [])
verify_chain-Linked_example =
    verify_chain-Linked machine machine-IsPlatform test_dir 1 used_disk used_header
      (used_block ∷ []) used_chain (omega arith) session_leaves.4

verify_chain_decides_example :
    ((ok : Bool) × ((verify_chain machine test_dir 1 used_disk).0 ≡ returned ok))
    × (((verify_chain machine test_dir 1 used_disk).0 ≡ returned true)
        ↔ Linked machine machine-IsPlatform used_header.public_key
            (genesis machine machine-IsPlatform used_header)
            (used_block ∷ []))
verify_chain_decides_example =
    verify_chain_decides machine machine-IsPlatform test_dir 1 used_disk used_header
      (used_block ∷ []) used_chain (omega arith) disk_engine-IsReliable plain_sha-IsTotalSha
      session_leaves.5

tamper_evidence_example :
    (SameOrigin used_header used_header × SameBlocks (used_block ∷ []) (used_block ∷ []))
    ⊎ Collision machine machine-IsPlatform
tamper_evidence_example =
    tamper_evidence machine machine-IsPlatform test_dir 1 1 used_disk used_disk used_header
      used_header (used_block ∷ []) (used_block ∷ []) used_chain used_chain (omega arith)
      session_leaves.4 session_leaves.4 refl refl

used_keys : KeyPair machine machine-IsPlatform used_header
unfolding create_public_key
used_keys = refl

add_block-Outcome_example :
    Outcome machine machine-IsPlatform path_1 used_header
      (used_block ∷ [])
      (text "d")
      (add_block machine test_dir 1 (text "d") used_disk).0
      (add_block machine test_dir 1 (text "d") used_disk).1
add_block-Outcome_example =
    add_block-Outcome machine machine-IsPlatform test_dir (text "d") 1 used_disk used_header
      (used_block ∷ []) used_keys (omega arith) used_chain

verify_blocks-map_example :
    verify_blocks machine used_header none (used_block ∷ [])
    ≡ verify_blocks machine used_header none
        (map (with_prev_hash (λ b. text "no hash")) (used_block ∷ []))
verify_blocks-map_example =
    verify_blocks-map machine (λ b. text "no hash") used_header (used_block ∷ [])

add_block_succeeds_example :
    (b : Container) × ((add_block machine test_dir 1 (text "d") used_disk).0 ≡ some b)
    × IsNext machine machine-IsPlatform used_header
        (tip machine machine-IsPlatform
          (genesis machine machine-IsPlatform used_header)
          (used_block ∷ []))
        (text "d")
        b
    × Holds machine machine-IsPlatform
        (add_block machine test_dir 1 (text "d") used_disk).1
        path_1
        (counted used_header)
        (used_block ∷ b ∷ [])
add_block_succeeds_example =
    add_block_succeeds machine machine-IsPlatform machine-IsReliable test_dir (text "d") 1 used_disk
      used_header (used_block ∷ []) used_keys (omega arith) used_chain session_leaves.5
