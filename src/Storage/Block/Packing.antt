-- ===== src/Storage/Block/Packing.antt =====
-- Packing a block and reading it back.
use chain_db.Base.{◌≡◌, some, arith}
use chain_db.Base.Bytes.{Bytes}
use chain_db.Platform.Codec.{Codec, IsCodec}
use chain_db.Storage.Block.{Container, IsContainer, to_message, pack, unpack}

module _ (C : Codec) where
  -- Only well-sized containers are unpacked.
  pub unpack-IsContainer : (b : Bytes) (c : Container) → unpack C b ≡ some c → IsContainer c
  unfolding unpack
  unpack-IsContainer b c e = ground arith

  -- A container whose hashes, nonce and signature have their sizes, once packed, unpacks to
  -- itself.
  pub unpack-pack_container :
      (c : Container) (b : Bytes)
      → IsCodec C
      → IsContainer c
      → pack C c ≡ some b
      → unpack C b ≡ some c
  unfolding pack unpack
  unpack-pack_container c b L v e = ground (arith, L.block_round (to_message c) b)
