-- ===== src/Storage/Block.antt =====
-- src/Storage/Block.cpp: a block's container and its packed form. A `Block` is its container.
pub mod Packing
use chain_db.Base.{ℕ, false, Option, none, some, length, ◌==◌, if◌then◌else◌}
use chain_db.Base.Bytes.{Bytes}
use chain_db.Base.Action.{Act}
use chain_db.Platform.Codec.{Codec, BlockMessage}
use chain_db.Platform.Rng.{Rng}
use chain_db.Crypto.Data.{IsData, hash_length, nonce_length, signature_length}
use chain_db.Crypto.Random.{random}

pub record Container : Type 0 where
  pub hash : Bytes
  pub prev_hash : Bytes
  pub nonce : Bytes
  pub payload : Bytes
  pub signature : Bytes

-- The sizes that the types of the fields fix.
pub record IsContainer (c : Container) : Type 0 where
  pub hash_size : IsData hash_length c.hash
  pub prev_hash_size : IsData hash_length c.prev_hash
  pub nonce_size : IsData nonce_length c.nonce
  pub signature_size : IsData signature_length c.signature

abbrev pub to_message : Container → BlockMessage
to_message c = record {
  hash = c.hash;
  prev_hash = c.prev_hash;
  nonce = c.nonce;
  payload = c.payload;
  signature = c.signature;
}

unfoldable pub pack : Codec → Container → Option Bytes
pack C c = C.serialize_block (to_message c)

-- The size tests and the copies.
abbrev from_message : BlockMessage → Option Container
from_message m =
    if length m.hash == hash_length
    then if length m.prev_hash == hash_length
      then if length m.nonce == nonce_length
        then if length m.signature == signature_length
          then some (record {
            hash = m.hash;
            prev_hash = m.prev_hash;
            nonce = m.nonce;
            payload = m.payload;
            signature = m.signature;
          })
          else none
        else none
      else none
    else none

unfoldable pub unpack : Codec → Bytes → Option Container
unpack C inbuf = elim (C.parse_block inbuf) [ none ↦ none | some m ↦ from_message m ]

unfoldable pub generate_nonce : {World : Type 0} → Rng World → Act World Bytes
generate_nonce R = random R nonce_length false
