-- ===== src/Storage/Manager.antt =====
-- src/Storage/Manager.cpp: the chains under one directory, by number.
pub mod Paths
pub mod Linked
pub mod Verified
pub mod Runs
pub mod Reports
pub mod Removals
pub mod Ledger
pub mod Frames
pub mod Soundness
pub mod History
pub mod Made
pub mod Adds
pub mod Blindness
pub mod Verifies
pub mod Succeeds
pub mod Tampering
use chain_db.Base.{
  ℕ, Bool, true, false, Option, none, some, List, [], ◌∷◌, ◌++◌, ◌==◌, if◌then◌else◌,
}
use chain_db.Base.Bytes.{Bytes, same_prefix}
use chain_db.Base.Action.{
  Act, done, lift, ◌>>=◌, ◌>>◌, Run, returned, null_pointer, endless, then_run,
}
use chain_db.Platform.{Platform}
use chain_db.Crypto.Data.{hash_length}
use chain_db.Crypto.Sha256.{get_hash, get_hash_n}
use chain_db.Crypto.Secp256k1.{
  generate_private_key, create_public_key, get_signature, verify_signature,
}
use chain_db.Storage.Block.{Container, generate_nonce}
use chain_db.Storage.Chain
use chain_db.Storage.Chain.Header.{Header}
use Paths.{make_storage_path}

-- A test that failed, or went wrong, ends the loop.
abbrev pub and_then : Run Bool → Run Bool → Run Bool
and_then (returned true) rest = rest
and_then (returned false) rest = returned false
and_then null_pointer rest = null_pointer
and_then endless rest = endless

abbrev pub compare_hash : Bytes → Option Bytes → Run Bool
compare_hash stored none = returned false
compare_hash stored (some hash) = returned (same_prefix stored hash hash_length)

module _ (P : Platform) where
  open P use {World, sha, curve, rng}

  -- `SHA256::getHashN` over the header, with its default of two rounds.
  abbrev pub header_hash : Header → Option Bytes
  header_hash header =
      get_hash_n sha (header.payload ∷ header.private_key ∷ header.public_key ∷ []) 2

  unfoldable pub verify_block : Header → Bytes → Container → Run Bool
  verify_block header prev_hash block =
      and_then
        (verify_signature curve (get_hash sha (prev_hash ∷ block.nonce ∷ block.payload ∷ []))
          header.public_key block.signature)
        (compare_hash block.hash
          (get_hash sha (prev_hash ∷ block.nonce ∷ block.payload ∷ block.signature ∷ [])))

  -- The hash that comes before a block: the header's for the first, the last block's for the others.
  abbrev pub hash_before : Header → Option Container → Option Bytes
  hash_before header none = header_hash header
  hash_before header (some last_block) = some last_block.hash

  -- The loop of `verifyChain`; the block before the current one is `blocks[index - 1]`.
  unfoldable pub verify_blocks : Header → Option Container → List Container → Run Bool
  verify_blocks header last_block [] = returned true
  verify_blocks header last_block (block ∷ blocks) =
      let rest = verify_blocks header (some block) blocks in
      elim (hash_before header last_block) [
        | none ↦ returned false
        | some prev_hash ↦ and_then (verify_block header prev_hash block) rest
      ]

  unfoldable pub verify_read : Header → Bool × List Container → Run Bool
  verify_read header (false, blocks) = returned false
  verify_read header (true, blocks) = verify_blocks header none blocks

  -- `dir` is `_storageDir`.
  module _ (dir : Bytes) where
    unfoldable pub create_chain : ℕ → Bytes → Act World Bytes
    create_chain chain_id payload = do
      private_key ← generate_private_key curve rng
      public_key ← lift (create_public_key curve private_key)
      Chain.create P (make_storage_path dir chain_id) payload private_key public_key
      done (make_storage_path dir chain_id)

    unfoldable pub previous_hash : Bytes → Header → Act World Bytes
    previous_hash path header =
        if header.index == 0
        then lift (header_hash header)
        else do last_block ← Chain.get_block P path header.index; done last_block.hash

    -- The block after `prev_hash`, hashed and signed.
    unfoldable pub make_block : Header → Bytes → Bytes → Bytes → Option Container
    make_block header prev_hash nonce payload =
        elim (get_hash sha (prev_hash ∷ nonce ∷ payload ∷ [])) [
          | none ↦ none
          | some body_hash ↦ elim (get_signature curve body_hash header.private_key) [
            | none ↦ none
            | some signature ↦ elim (get_hash sha (prev_hash ∷ nonce ∷ payload ∷ signature ∷ [])) [
              | none ↦ none
              | some hash ↦ some (record {
                hash = hash;
                prev_hash = prev_hash;
                nonce = nonce;
                payload = payload;
                signature = signature;
              })
            ]
          ]
        ]

    -- The end of `addBlock`, once the block's parts are there.
    unfoldable pub store_block : Bytes → Option Container → Act World Container
    store_block path block = do made ← lift block; Chain.add_block P path made; done made

    unfoldable pub add_block : ℕ → Bytes → Act World Container
    add_block chain_id payload = do
      header ← Chain.get_header P (make_storage_path dir chain_id)
      prev_hash ← previous_hash (make_storage_path dir chain_id) header
      nonce ← generate_nonce rng
      store_block (make_storage_path dir chain_id) (make_block header prev_hash nonce payload)

    unfoldable pub get_block : ℕ → ℕ → Act World Container
    get_block chain_id index = Chain.get_block P (make_storage_path dir chain_id) index

    unfoldable pub get_blocks : ℕ → List Container → World → Run (Bool × List Container) × World
    get_blocks chain_id blocks = Chain.get_blocks P (make_storage_path dir chain_id) blocks

    unfoldable pub remove_chain : ℕ → Act World (Unit {0})
    remove_chain chain_id = Chain.remove P (make_storage_path dir chain_id)

    unfoldable pub verify_after : ℕ → Option Header → World → Run Bool × World
    verify_after chain_id none w = (returned false, w)
    verify_after chain_id (some header) w =
        let (blocks, w') = Chain.get_blocks P (make_storage_path dir chain_id) [] w in
        (then_run blocks (verify_read header), w')

    unfoldable pub verify_chain : ℕ → World → Run Bool × World
    verify_chain chain_id w =
        let (header, w') = Chain.get_header P (make_storage_path dir chain_id) w in
        verify_after chain_id header w'

    unfoldable pub get_chain_header : ℕ → Act World Header
    get_chain_header chain_id = Chain.get_header P (make_storage_path dir chain_id)

    -- The version and the index.
    unfoldable pub get_chain_info : ℕ → Act World (ℕ × ℕ)
    get_chain_info chain_id = do
      header ← Chain.get_header P (make_storage_path dir chain_id)
      done (header.version, header.index)
