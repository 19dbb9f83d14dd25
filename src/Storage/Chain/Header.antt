-- ===== src/Storage/Chain/Header.antt =====
-- `Chain::Header` and its packed form.
use chain_db.Base.{ℕ, ◌<◌, ◌^◌, ◌≡◌, Option, none, some, length, ◌==◌, if◌then◌else◌, arith}
use chain_db.Base.Bytes.{Bytes}
use chain_db.Platform.Codec.{Codec, IsCodec, HeaderMessage}
use chain_db.Crypto.Data.{IsData, private_key_length, public_key_length}

-- `DB_VERSION` as the build sets it.
abbrev pub db_version : ℕ
db_version = 1

pub record Header : Type 0 where
  pub version : ℕ
  pub index : ℕ
  pub payload : Bytes
  pub private_key : Bytes
  pub public_key : Bytes

-- The sizes that the types of the fields fix.
pub record IsHeader (h : Header) : Type 0 where
  pub version_range : h.version < 2 ^ 64
  pub index_range : h.index < 2 ^ 64
  pub private_key_size : IsData private_key_length h.private_key
  pub public_key_size : IsData public_key_length h.public_key

-- The constructor of a new chain's header.
abbrev pub make_header : ℕ → Bytes → Bytes → Bytes → Header
make_header version payload private_key public_key = record {
  version = version;
  index = 0;
  payload = payload;
  private_key = private_key;
  public_key = public_key;
}

abbrev pub set_index : Header → ℕ → Header
set_index h index = record h { index = index }

abbrev to_message : Header → HeaderMessage
to_message h = record {
  version = h.version;
  index = h.index;
  payload = h.payload;
  private_key = h.private_key;
  public_key = h.public_key;
}

unfoldable pub pack : Codec → Header → Option Bytes
pack C h = C.serialize_header (to_message h)

abbrev from_message : HeaderMessage → Option Header
from_message m =
    if length m.private_key == private_key_length
    then if length m.public_key == public_key_length
      then some (record {
        version = m.version;
        index = m.index;
        payload = m.payload;
        private_key = m.private_key;
        public_key = m.public_key;
      })
      else none
    else none

unfoldable pub unpack : Codec → Bytes → Option Header
unpack C inbuf = elim (C.parse_header inbuf) [ none ↦ none | some m ↦ from_message m ]

module _ (C : Codec) (L : IsCodec C) where
  -- Only well-sized headers, with numbers in range, are unpacked.
  pub unpack-IsHeader : (b : Bytes) (h : Header) → unpack C b ≡ some h → IsHeader h
  unfolding unpack
  unpack-IsHeader b h e = ground (arith, L.header_range b (to_message h))

  -- A header whose numbers are below 2^64 and whose keys have their sizes, once packed, unpacks
  -- to itself.
  pub unpack-pack_header :
      (h : Header) (b : Bytes) → IsHeader h → pack C h ≡ some b → unpack C b ≡ some h
  unfolding pack unpack
  unpack-pack_header h b v e = ground (arith, L.header_round (to_message h) b)
