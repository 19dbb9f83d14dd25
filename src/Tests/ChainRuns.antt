-- ===== src/Tests/ChainRuns.antt =====
-- The theorems on src/Storage/Chain.cpp and src/Storage/Block.cpp, on the disk of the session.
use chain_db.Base.{◌≡◌, ◌⊎◌, refl, true, false, none, some, List, [], ◌∷◌, arith}
use chain_db.Base.Bytes.{Bytes, text, bytes_eq}
use chain_db.Base.Action.{returned}
use chain_db.Base.Decimal.{to_string}
use chain_db.Storage.Block
use chain_db.Storage.Block.{Container, IsContainer}
use chain_db.Storage.Block.Packing.{unpack-pack_container}
use chain_db.Storage.Chain
use chain_db.Storage.Chain.Header
use chain_db.Storage.Chain.Header.{Header, IsHeader, unpack-pack_header}
use chain_db.Storage.Chain.Adds.{Added, add_block-Added}
use chain_db.Storage.Chain.Creates.{create-occupied}
use chain_db.Storage.Chain.Gets.{
  get_block-AtMost, get_blocks-cases, get_block_ready, get_blocks_ready,
}
use chain_db.Storage.Chain.Reads.{AtMost}
use chain_db.Storage.Storage
use chain_db.Storage.Manager.Paths.{make_storage_path}
use chain_db.Storage.Storage.{KeyValue}
use chain_db.Storage.Storage.Lookup.{as_pair, stored_value, get-set}
use chain_db.Tests.Disk.{
  Disk, disk_engine, disk_engine-IsEngine, opened_disk, update_self, blank_disk,
  disk_engine-IsReliable, open_disk,
}
use chain_db.Tests.Libraries.{plain_codec, plain_codec-IsCodec}
use chain_db.Tests.Machine.{
  machine, machine-IsPlatform, used_disk, path_1, first_key, first_pub_key, used_header, used_block,
  session_leaves, used_chain,
}

used_block-IsContainer : IsContainer used_block
used_block-IsContainer = record {
  hash_size = refl;
  prev_hash_size = refl;
  nonce_size = refl;
  signature_size = refl;
}

used_header-IsHeader : IsHeader used_header
used_header-IsHeader = record {
  version_range = omega arith;
  index_range = omega arith;
  private_key_size = refl;
  public_key_size = refl;
}

add_block-Added_example :
    Added machine machine-IsPlatform path_1 used_header
      (used_block ∷ [])
      used_block
      (Chain.add_block machine path_1 used_block used_disk).0
      (Chain.add_block machine path_1 used_block used_disk).1
add_block-Added_example =
    add_block-Added machine machine-IsPlatform path_1 used_block used_block-IsContainer used_header
      (used_block ∷ []) (omega arith) used_disk used_chain

get_blocks_ready_example :
    (Chain.get_blocks machine path_1 [] used_disk).0 ≡ returned (true, used_block ∷ [])
get_blocks_ready_example =
    get_blocks_ready machine machine-IsPlatform path_1 used_header (used_block ∷ [])
      disk_engine-IsReliable used_disk used_chain session_leaves.5 (omega arith)

get_blocks-cases_example :
    ((Chain.get_blocks machine path_1 [] used_disk).0 ≡ returned (true, used_block ∷ []))
    ⊎ ((seen : List Container) × ((Chain.get_blocks machine path_1 [] used_disk).0
          ≡ returned (false, seen)))
get_blocks-cases_example =
    get_blocks-cases machine machine-IsPlatform path_1 used_header (used_block ∷ []) used_disk
      (omega arith) used_chain

get_block_ready_example : (Chain.get_block machine path_1 2 used_disk).0 ≡ none
get_block_ready_example =
    get_block_ready machine machine-IsPlatform path_1 used_header (used_block ∷ [])
      disk_engine-IsReliable used_disk used_chain session_leaves.5 2

get_block-AtMost_example : AtMost (Chain.get_block machine path_1 1 used_disk).0 (some used_block)
get_block-AtMost_example =
    get_block-AtMost machine machine-IsPlatform path_1 used_header (used_block ∷ []) used_disk 1
      used_chain

blank_create :
    (Chain.create machine path_1 (text "a") first_key first_pub_key blank_disk).0 ≡ some tt
unfolding Chain.create Chain.write_header Header.pack Storage.create Storage.set Storage.destruct
    open_disk bytes_eq make_storage_path to_string
blank_create = refl

create-occupied_example :
    ((Chain.create machine path_1 (text "b") first_key first_pub_key used_disk).0 ≡ none)
    × ((Chain.create machine path_1 (text "b") first_key first_pub_key used_disk).1.tables path_1
        ≡ some used_chain.table)
create-occupied_example =
    create-occupied machine machine-IsPlatform path_1 (text "b") first_key first_pub_key used_disk
      used_chain.table used_chain.at

used_remove : (Chain.remove machine path_1 used_disk).0 ≡ some tt
unfolding Chain.remove Storage.remove
used_remove = rw session_leaves.5 refl

packed_header : (b : Bytes) × (Header.pack plain_codec used_header ≡ some b)
unfolding Header.pack
packed_header = (_, refl)

unpack-pack_header_example : Header.unpack plain_codec packed_header.0 ≡ some used_header
unpack-pack_header_example =
    unpack-pack_header plain_codec plain_codec-IsCodec used_header packed_header.0
      used_header-IsHeader packed_header.1

packed_block : (b : Bytes) × (Block.pack plain_codec used_block ≡ some b)
unfolding Block.pack
packed_block = (_, refl)

unpack-pack_container_example : Block.unpack plain_codec packed_block.0 ≡ some used_block
unpack-pack_container_example =
    unpack-pack_container plain_codec used_block packed_block.0 plain_codec-IsCodec
      used_block-IsContainer packed_block.1

-- The database of the chain while it is open.
abbrev open_one : Disk
open_one = opened_disk path_1 used_disk

abbrev open_storage_1 : Storage.Storage disk_engine
open_storage_1 = record { path = path_1; db = some path_1 }

abbrev two_pairs : List KeyValue
two_pairs =
    record { key = text "k"; value = text "v" } ∷ record { key = text "k"; value = text "w" } ∷ []

get-set_example :
    ((Storage.set disk_engine open_storage_1 two_pairs open_one).0 ≡ some tt)
    × (Storage.get disk_engine open_storage_1
          (text "k")
          (Storage.set disk_engine open_storage_1 two_pairs open_one).1
        ≡ as_pair (text "k") (stored_value (text "k") two_pairs (used_chain.table (text "k"))))
get-set_example =
    get-set disk_engine disk_engine-IsEngine disk_engine-IsReliable open_storage_1 path_1 open_one
      used_chain.table two_pairs (text "k") refl (update_self used_disk.held path_1 true)
      used_chain.at
