-- ===== src/Tests/Machine.antt =====
-- The engine and libraries together, and a disk with a chain of one block on it.
use chain_db.Base.{
  ℕ, zero, get_elem?, suc, ◌≡◌, refl, ◌∙◌, true, false, Option, none, some, List, [], ◌∷◌, ◌++◌,
  replicate, length, length-append, arith, ◌≢◌, if◌then◌else◌, ◌==◌,
}
use chain_db.Base.Bytes.{Bytes, text, bytes_eq, same_prefix}
use chain_db.Base.Action.{returned}
use mathlib.Core.Option.{none-ne-some, some-ne-none}
use chain_db.Storage.Manager.Paths.{make_storage_path}
use chain_db.Storage.Chain.Holds.{Holds, stored_block, stored_header}
use chain_db.Storage.Block.{Container}
use chain_db.Platform.Engine.{Table, empty_table}
use chain_db.Platform.{Platform, IsPlatform, IsReliable, MakesKeys}
use chain_db.Storage.Chain.Header.{Header}
use chain_db.Storage.Chain.Header
use chain_db.Storage.Chain.Names.{make_block_name}
use chain_db.Base.Decimal.{to_string}
use chain_db.Crypto.Sha256.{get_hash, get_hash_n}
use chain_db.Crypto.Secp256k1.{
  generate_private_key, create_public_key, get_signature, verify_signature,
}
use chain_db.Storage.Chain
use chain_db.Storage.Storage
use chain_db.Storage.Block
use chain_db.Storage.Manager
use chain_db.Storage.Manager.Runs.{Call, creates, adds, verifies, run, step}
use chain_db.Tests.Disk.{
  Disk, disk_engine, disk_engine-IsEngine, disk_engine-IsReliable, disk_rng, disk_rng-IsRng,
  blank_disk, open_disk,
}
use chain_db.Tests.Libraries.{
  plain_sha, plain_sha-IsSha, plain_sha-IsTotalSha, plain_curve-IsTotalCurve,
  plain_codec-IsTotalCodec, first_bytes, plain_curve, plain_curve-IsCurve, plain_codec,
  plain_codec-IsCodec,
}

abbrev pub machine : Platform
machine = record {
  World = Disk;
  sha = plain_sha;
  curve = plain_curve;
  rng = disk_rng;
  engine = disk_engine;
  codec = plain_codec;
}

abbrev pub machine-IsPlatform : IsPlatform machine
machine-IsPlatform = record {
  sha = plain_sha-IsSha;
  curve = plain_curve-IsCurve;
  engine = disk_engine-IsEngine;
  rng = disk_rng-IsRng;
  codec = plain_codec-IsCodec;
}

abbrev pub machine-IsReliable : IsReliable machine machine-IsPlatform
machine-IsReliable = record {
  engine = disk_engine-IsReliable;
  sha = plain_sha-IsTotalSha;
  curve = plain_curve-IsTotalCurve;
  rng = record { bytes_ok = λ n w. some-ne-none _ };
  codec = plain_codec-IsTotalCodec;
}

pub plain_key_written :
    (key k : Bytes)
    → length key ≡ 32
    → some (key ++ 0 ∷ []) ≡ some k
    → (if length k == 33 then some k else none) ≢ none
plain_key_written key k sized e =
    let size : (length k == 33) ≡ true = ground (arith, length-append key (0 ∷ [])) in
    rw size (some-ne-none k)

abbrev pub machine-MakesKeys : MakesKeys machine
machine-MakesKeys = record {
  priv_ok = λ n w. some-ne-none _;
  valid = λ w key e. refl;
  public_ok = λ key sized ok. some-ne-none _;
  written_ok = plain_key_written;
}

abbrev pub test_dir : Bytes
test_dir = text "/db"

abbrev pub session : List Call
session = creates 1 (text "a") ∷ adds 1 (text "bc") ∷ verifies 1 ∷ []

abbrev pub used_disk : Disk
used_disk = run machine test_dir session blank_disk

abbrev pub path_1 : Bytes
path_1 = make_storage_path test_dir 1

-- The first key pair that the generator gives.
abbrev pub first_key : Bytes
first_key = replicate 32 0

abbrev pub first_pub_key : Bytes
first_pub_key = replicate 33 0

abbrev pub used_header : Header
used_header = record {
  version = 1;
  index = 1;
  payload = text "a";
  private_key = first_key;
  public_key = first_pub_key;
}

abbrev pub used_block : Container
used_block = record {
  hash = first_bytes (text "a");
  prev_hash = first_bytes (text "a");
  nonce = replicate 8 1;
  payload = text "bc";
  signature = first_bytes (text "a") ++ first_key;
}

abbrev or_empty : Option Table → Table
or_empty none = empty_table
or_empty (some t) = t

abbrev pub used_table : Table
used_table = or_empty (used_disk.tables path_1)

-- What the session leaves on the disk, and what can be read from it then.
pub session_leaves :
    (used_disk.tables path_1 ≡ some used_table)
    × (stored_header machine used_table ≡ some used_header)
    × (stored_block machine used_table 1 ≡ some used_block)
    × ((Manager.get_chain_header machine test_dir 1 used_disk).0 ≡ some used_header)
    × ((Manager.verify_chain machine test_dir 1 used_disk).0 ≡ returned true)
    × (used_disk.held path_1 ≡ false)
unfolding run step Manager.create_chain Manager.add_block Manager.verify_chain Manager.verify_after
    Manager.previous_hash Manager.make_block Manager.store_block generate_private_key
    create_public_key get_signature get_hash get_hash_n Chain.create Chain.write_header
    Chain.get_header Chain.read_header Chain.add_block Chain.append_block Chain.get_header_from
    Header.pack Header.unpack Block.pack Block.generate_nonce make_block_name make_storage_path
    to_string Storage.opened Storage.open_storage Storage.create Storage.get Storage.set
    Storage.destruct open_disk bytes_eq Chain.get_blocks Block.unpack Manager.get_chain_header
    Manager.verify_read Manager.verify_blocks Manager.verify_block verify_signature same_prefix
    Chain.get_blocks_from Chain.read_blocks Chain.read_block
session_leaves = (refl, refl, refl, refl, refl, refl)

pub used_table-block_at :
    (i : ℕ) (b : Container)
    → get_elem? (used_block ∷ []) i ≡ some b
    → stored_block machine used_table (suc i) ≡ some b
used_table-block_at zero b e = session_leaves.2 ∙ e
used_table-block_at (suc i) b e = absurd (none-ne-some b e)

pub used_chain : Holds machine machine-IsPlatform used_disk path_1 used_header (used_block ∷ [])
used_chain = record {
  table = used_table;
  at = session_leaves.0;
  shows = record {
    header_at = session_leaves.1;
    version_eq = refl;
    index_eq = refl;
    block_at = used_table-block_at;
  };
}
