-- ===== src/Storage/Chain/Names.antt =====
-- The keys of include/Storage/Protocol.h and `makeBlockName`.
use chain_db.Base.{ℕ, ◌≡◌, ◌≢◌, ◌++◌, arith, refl}
use chain_db.Base.Bytes.{Bytes, text, append_split}
use chain_db.Base.Decimal.{to_string, to_string_injective}

abbrev pub header_key : Bytes
header_key = text "__HEADER"

abbrev pub block_key : Bytes
block_key = text "__BLOCK/"

unfoldable pub make_block_name : ℕ → Bytes
make_block_name index = block_key ++ to_string index

-- Block numbers with the same key are the same number.
pub make_block_name_injective : (i j : ℕ) → make_block_name i ≡ make_block_name j → i ≡ j
unfolding make_block_name
make_block_name_injective i j e =
    to_string_injective i j (append_split block_key _ block_key _ refl e).1

pub make_block_name-ne-header_key : (i : ℕ) → make_block_name i ≢ header_key
unfolding make_block_name
make_block_name-ne-header_key i e = ground arith
