-- ===== src/Handler/Answers.antt =====
-- Handler.cpp: the answers to requests about a stored chain.
use chain_db.Base.{
  suc, ◌^◌, ◌≤◌, ◌<◌, ◌≡◌, refl, ap, ◌∙◌, ◌⊎◌, inl, inr, false, Option, none, some, List, map, [],
  ◌∷◌, ◌++◌, arith, length, ltb, Bool-cases,
}
use chain_db.Base.Bytes.{Bytes, text}
use chain_db.Base.Action.{returned, then_run}
use chain_db.Platform.{Platform, IsPlatform, IsReliable}
use chain_db.Platform.Codec.{BlockMessage}
use chain_db.Platform.Engine
use chain_db.Platform.Sha.{IsTotalSha}
use chain_db.Platform.Wire.{Wire, DataRequest, ChainRequest}
use chain_db.Storage.Block.{Container}
use chain_db.Storage.Chain.Header.{Header}
use chain_db.Storage.Chain.Append.{counted}
use chain_db.Storage.Chain.Holds.{Holds}
use chain_db.Storage.Chain.Gets.{get_blocks_ready}
use chain_db.Storage.Manager
use chain_db.Storage.Manager.Made.{KeyPair, IsNext}
use chain_db.Storage.Manager.Adds.{add_block-Outcome}
use chain_db.Storage.Manager.Linked.{genesis, Linked, tip}
use chain_db.Storage.Manager.Paths.{make_storage_path}
use chain_db.Storage.Manager.Succeeds.{add_block_succeeds}
use chain_db.Storage.Manager.Verifies.{verify_chain_decides}
use chain_db.Handler.{
  handle_add_block_request, handle_verify_chain_request, handle_get_blocks_request, make_status,
  make_response, succeeded, add_blocks, blocks_response, verdict_response, error, success,
  max_data_length,
}

-- What a response says of a block: each field under its own name.
abbrev pub sent_block : Container → BlockMessage
sent_block b = record {
  hash = b.hash;
  prev_hash = b.prev_hash;
  nonce = b.nonce;
  payload = b.payload;
  signature = b.signature;
}

-- And of blocks: all of them, in order, or an unset field where there are none.
abbrev pub sent_blocks : List Container → Option (List BlockMessage)
sent_blocks [] = none
sent_blocks (b ∷ bs) = some (map sent_block (b ∷ bs))

add_blocks-sent : (bs : List Container) → add_blocks bs ≡ sent_blocks bs
add_blocks-sent [] = refl
add_blocks-sent (b ∷ bs) = refl

module _ (P : Platform) (W : Wire) (L : IsPlatform P) (dir : Bytes) where
  -- The message of a success with a block.
  abbrev with_block : Container → Option Bytes
  with_block b = make_response P W (record succeeded { add_block_response = some (sent_block b) })

  module _ (w : P.World) (h : Header) (bs : List Container) (room : suc (length bs) < 2 ^ 64) where
    -- For a stored chain of fewer than 2^64 - 1 blocks whose database is not open, with an
    -- engine and a digest that do not fail, a verify request is answered with success if the
    -- blocks are signed and linked, and with an error if they are not.
    pub handle_verify_chain_request-Linked :
        (req : ChainRequest)
        → Holds P L w (make_storage_path dir req.chain_id) h bs
        → Engine.IsReliable P.engine L.engine
        → IsTotalSha P.sha
        → L.engine.locked w (make_storage_path dir req.chain_id) ≡ false
        → (Linked P L h.public_key (genesis P L h) bs
            × ((handle_verify_chain_request P W dir req w).0
                ≡ returned (make_status P W success [])))
          ⊎ ((¬ Linked P L h.public_key (genesis P L h) bs)
              × ((handle_verify_chain_request P W dir req w).0
                  ≡ returned (make_status P W error (text "Chain is not valid"))))
    unfolding handle_verify_chain_request
    handle_verify_chain_request-Linked req k R T free =
        let (answers, decides) = verify_chain_decides P L dir req.chain_id w h bs k room R T free in
        let (ok, e) = answers in
        elim (Bool-cases ok) [
          | inl passed ↦
              let f = e ∙ ap returned passed in
              inl (decides.0 f, ap (λ r. then_run r (verdict_response P W dir)) f)
          | inr rejected ↦
              let f = e ∙ ap returned rejected in
              inr (
                (λ l. absurd (cc (f, decides.1 l))),
                ap (λ r. then_run r (verdict_response P W dir)) f,
              )
        ]

    -- For a stored chain of fewer than 2^64 - 1 blocks whose database is not open, with an
    -- engine that does not fail, a request for the blocks is answered with success and, for all
    -- the blocks in order, the hash, the previous hash, the nonce, the data and the signature
    -- of each; the field for the blocks is unset if there are none.
    pub handle_get_blocks_request-all :
        (req : ChainRequest)
        → Holds P L w (make_storage_path dir req.chain_id) h bs
        → Engine.IsReliable P.engine L.engine
        → L.engine.locked w (make_storage_path dir req.chain_id) ≡ false
        → (handle_get_blocks_request P W dir req w).0
          ≡ returned (make_response P W (record succeeded { get_blocks_response = sent_blocks bs }))
    unfolding handle_get_blocks_request Manager.get_blocks
    handle_get_blocks_request-all req k R free =
        ap (λ r. then_run r (blocks_response P W dir))
          (get_blocks_ready P L (make_storage_path dir req.chain_id) h bs R w k free room)
        ∙ ap (λ m. returned (make_response P W (record succeeded { get_blocks_response = m })))
            (add_blocks-sent bs)

    -- An add request with at most 8192 bytes of data, on a stored chain of fewer than 2^64 - 1
    -- blocks whose public key is made from its private key: a block with that data, signed and
    -- hashed over the last hash, stands at the end afterwards and the answer is a success with
    -- the hash, the previous hash, the nonce, the data and the signature of that block, or an
    -- error; or the chain is unchanged and the answer is an error.
    pub handle_add_block_request-Outcome :
        (req : DataRequest)
        → KeyPair P L h
        → length req.payload ≤ 8192
        → Holds P L w (make_storage_path dir req.chain_id) h bs
        → ((b : Container) × IsNext P L h (tip P L (genesis P L h) bs) req.payload b
            × Holds P L
                (handle_add_block_request P W dir req w).1
                (make_storage_path dir req.chain_id)
                (counted h)
                (bs ++ b ∷ [])
            × ((handle_add_block_request P W dir req w).0 ≡ returned (with_block b)
                ⊎ (handle_add_block_request P W dir req w).0
                  ≡ returned (make_status P W error (text "Can't add block"))))
          ⊎ (Holds P L
                (handle_add_block_request P W dir req w).1
                (make_storage_path dir req.chain_id)
                h
                bs
              × ((handle_add_block_request P W dir req w).0
                  ≡ returned (make_status P W error (text "Can't add block"))))
    unfolding handle_add_block_request
    handle_add_block_request-Outcome req keys small k =
        let fits : ltb max_data_length (length req.payload) ≡ false = ground arith in
        rw fits (elim (add_block-Outcome P L dir req.payload req.chain_id w h bs keys room k) [
          | inl (e, same) ↦ inr (same, rw e refl)
          | inr (b, next, inl e, now) ↦ inl (b, next, now, inl (rw e refl))
          | inr (b, next, inr e, now) ↦ inl (b, next, now, inr (rw e refl))
        ])

    -- When neither the disk nor a library fails, an add request with at most 8192 bytes of
    -- data, on a stored chain of fewer than 2^64 - 1 blocks whose public key is made from its
    -- private key and whose database is not open, is answered with success and the hash, the
    -- previous hash, the nonce, the data and the signature of a block that holds the data, is
    -- signed, and is hashed over the last hash, and that block stands at the end of the chain
    -- afterwards.
    pub handle_add_block_request_succeeds :
        (req : DataRequest)
        → IsReliable P L
        → KeyPair P L h
        → length req.payload ≤ 8192
        → Holds P L w (make_storage_path dir req.chain_id) h bs
        → L.engine.locked w (make_storage_path dir req.chain_id) ≡ false
        → (b : Container) × IsNext P L h (tip P L (genesis P L h) bs) req.payload b
          × Holds P L
              (handle_add_block_request P W dir req w).1
              (make_storage_path dir req.chain_id)
              (counted h)
              (bs ++ b ∷ [])
          × ((handle_add_block_request P W dir req w).0 ≡ returned (with_block b))
    unfolding handle_add_block_request
    handle_add_block_request_succeeds req S keys small k free =
        let fits : ltb max_data_length (length req.payload) ≡ false = ground arith in
        let (b, e, next, now) =
          add_block_succeeds P L S dir req.payload req.chain_id w h bs keys room k free in
        rw fits (b, next, now, rw e refl)
