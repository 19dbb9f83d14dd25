-- ===== src/Storage/Chain.antt =====
-- src/Storage/Chain.cpp: a chain of blocks in one database. A `Chain` is its path.
pub mod Header
pub mod Names
pub mod Holds
pub mod Reads
pub mod Gets
pub mod Endings
pub mod Creates
pub mod Frames
pub mod Adds
pub mod Succeeds
pub mod Begins
pub mod Append
pub mod Loop
use chain_db.Base.{
  ℕ, zero, suc, ◌+◌, ◌^◌, ◌%◌, Bool, true, false, Option, none, some, List, [], ◌∷◌, ◌++◌, leb, ltb,
  ◌==◌, ◌||◌, if◌then◌else◌,
}
use chain_db.Base.Bytes.{Bytes}
use chain_db.Base.Action.{Act, lift, reading, ◌>>=◌, Run, returned, endless}
use chain_db.Platform.{Platform}
use chain_db.Storage.Storage.{Storage, KeyValue, make_storage, get, set, destruct, opened}
use chain_db.Storage.Storage
use chain_db.Storage.Block
use chain_db.Storage.Block.{Container}
use Names.{header_key, make_block_name}
use Header.{make_header, set_index, db_version}

-- `size_t` addition of one.
abbrev pub next_index : ℕ → ℕ
next_index i = (i + 1) % 2 ^ 64

-- The test of the version.
abbrev supported : Header.Header → Option Header.Header
supported h = if h.version == db_version then some h else none

abbrev pair : Bytes → Bytes → KeyValue
pair key value = record { key = key; value = value }

module _ (P : Platform) where
  open P use {World, engine, codec}

  unfoldable pub read_header : Storage engine → World → Option Header.Header
  read_header s w = elim (get engine s header_key w) [
    | none ↦ none
    | some value ↦ Header.unpack codec value.value
  ]

  -- `getHeader(const Storage&)`, which tests the version too.
  unfoldable pub get_header_from : Storage engine → World → Option Header.Header
  get_header_from s w = elim (read_header s w) [ none ↦ none | some h ↦ supported h ]

  -- The header as the public `getHeader` returns it: of whatever version.
  unfoldable pub get_header : Bytes → Act World Header.Header
  get_header path = opened engine path none (λ s. reading (read_header s))

  unfoldable pub write_header : Bytes → Bytes → Act World (Unit {0})
  write_header path buffer w =
      let (ok, s, w₁) = Storage.create engine (make_storage engine path) w in
      let (result, w₂) =
        (if ok then set engine s (pair header_key buffer ∷ []) w₁ else (none, w₁)) in
      (result, destruct engine s w₂)

  unfoldable pub create : Bytes → Bytes → Bytes → Bytes → Act World (Unit {0})
  unfolding write_header
  create path payload private_key public_key = do
    buffer ← lift (Header.pack codec (make_header db_version payload private_key public_key))
    write_header path buffer

  unfoldable pub append_block : Container → Storage engine → Act World (Unit {0})
  append_block block s = do
    header ← reading (get_header_from s)
    let header' = set_index header (next_index header.index)
    header_data ← lift (Header.pack codec header')
    block_data ← lift (Block.pack codec block)
    set engine s
        (pair header_key header_data ∷ pair (make_block_name header'.index) block_data ∷ [])

  unfoldable pub add_block : Bytes → Container → Act World (Unit {0})
  add_block path block = opened engine path none (append_block block)

  unfoldable pub read_block : Storage engine → ℕ → World → Option Container
  read_block s index w = elim (get engine s (make_block_name index) w) [
    | none ↦ none
    | some value ↦ Block.unpack codec value.value
  ]

  unfoldable pub get_block_from : ℕ → Storage engine → World → Option Container
  get_block_from index s w = elim (get_header_from s w) [
    | none ↦ none
    | some header ↦ if index == 0 || ltb header.index index then none else read_block s index w
  ]

  unfoldable pub get_block : Bytes → ℕ → Act World Container
  get_block path index = opened engine path none (λ s. reading (get_block_from index s))

  -- The loop of `getBlocks`, from the counter's value on, over the blocks that were pushed so far.
  unfoldable pub read_blocks :
      ℕ → Storage engine → ℕ → ℕ → List Container → World → Run (Bool × List Container)
  read_blocks zero s last i blocks w = endless
  read_blocks (suc fuel) s last i blocks w = elim (leb i last) [
    | false ↦ returned (true, blocks)
    | true ↦ elim (read_block s i w) [
      | none ↦ returned (false, blocks)
      | some block ↦ read_blocks fuel s last (next_index i) (blocks ++ block ∷ []) w
    ]
  ]

  unfoldable pub get_blocks_from :
      List Container → Storage engine → World → Run (Bool × List Container)
  get_blocks_from blocks s w = elim (get_header_from s w) [
    | none ↦ returned (false, blocks)
    | some header ↦ read_blocks (suc header.index) s header.index 1 blocks w
  ]

  -- The result, and the vector that the call has extended.
  unfoldable pub get_blocks : Bytes → List Container → World → Run (Bool × List Container) × World
  get_blocks path blocks =
      opened engine path (returned (false, blocks)) (λ s w. (get_blocks_from blocks s w, w))

  unfoldable pub remove : Bytes → Act World (Unit {0})
  remove path = Storage.remove engine (make_storage engine path)
