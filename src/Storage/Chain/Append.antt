-- ===== src/Storage/Chain/Append.antt =====
-- The table after the batch of `addBlock`, and after that of `create`.
use chain_db.Base.{
  ℕ, suc, ◌^◌, ◌<◌, ◌≡◌, ap, sym, subst, ◌∙◌, some, List, [], ◌∷◌, ◌++◌, length, get_elem?, arith,
  length-append, get_elem?-append, get_elem?-append_end, get_elem?-length, dec_lt,
}
use mathlib.Core.Option.{none-ne-some}
use chain_db.Base.Bytes.{Bytes}
use chain_db.Platform.{Platform}
use chain_db.Platform.Engine.{Table, apply_batch, put_pair, empty_table}
use chain_db.Platform.Codec.{IsCodec}
use chain_db.Platform.Tables.{put_pair_self, put_pair_ne}
use chain_db.Storage.Block
use chain_db.Storage.Block.{Container, IsContainer}
use chain_db.Storage.Block.Packing
use chain_db.Storage.Chain.Header.{Header, IsHeader, set_index, db_version}
use chain_db.Storage.Chain.Header
use chain_db.Storage.Chain.Names.{
  header_key, make_block_name, make_block_name_injective, make_block_name-ne-header_key,
}
use chain_db.Storage.Chain.{next_index}
use chain_db.Storage.Chain.Holds.{
  Shows, Shows-IsHeader, stored_block, unpack_at-some, unpack_at-same,
}

-- The header that `addBlock` writes.
abbrev pub counted : Header → Header
counted h = set_index h (next_index h.index)

module _ (P : Platform) (L : IsCodec P.codec) (t : Table) (h : Header) (bs : List Container)
    (v : Shows P t h bs) (room : suc (length bs) < 2 ^ 64) where
  pub index-counted : (counted h).index ≡ suc (length bs)
  index-counted = let e = v.index_eq in omega arith

  module _ (block : Container) (w : IsContainer block) (hb bb : Bytes)
      (packed_header : Header.pack P.codec (counted h) ≡ some hb)
      (packed_block : Block.pack P.codec block ≡ some bb) where
    abbrev pub batch : List (Bytes × Bytes)
    batch = (header_key, hb) ∷ (make_block_name (counted h).index, bb) ∷ []

    abbrev counted_table : Table
    counted_table = put_pair t header_key hb

    at_header : apply_batch t batch header_key ≡ some hb
    at_header =
        put_pair_ne counted_table (make_block_name (counted h).index) bb header_key
          (make_block_name-ne-header_key (counted h).index)
        ∙ put_pair_self t header_key hb

    at_new : apply_batch t batch (make_block_name (suc (length bs))) ≡ some bb
    at_new =
        subst (λ i. apply_batch t batch (make_block_name i) ≡ some bb) index-counted
          (put_pair_self counted_table (make_block_name (counted h).index) bb)

    at_old :
        (i : ℕ)
        → i < length bs
        → apply_batch t batch (make_block_name (suc i)) ≡ t (make_block_name (suc i))
    at_old i less =
        put_pair_ne counted_table (make_block_name (counted h).index) bb (make_block_name (suc i))
          (λ e.
            let same : (counted h).index ≡ suc i = make_block_name_injective _ _ e in
            absurd (omega (arith, index-counted)))
        ∙ put_pair_ne t header_key hb (make_block_name (suc i))
            (λ e. make_block_name-ne-header_key (suc i) (sym e))

    counted-IsHeader : IsHeader (counted h)
    counted-IsHeader =
        let k = Shows-IsHeader P t h bs v L in
        record {
          version_range = k.version_range;
          index_range = omega (arith, index-counted);
          private_key_size = k.private_key_size;
          public_key_size = k.public_key_size;
        }

    block_at :
        (i : ℕ) (b : Container)
        → get_elem? (bs ++ block ∷ []) i ≡ some b
        → stored_block P (apply_batch t batch) (suc i) ≡ some b
    block_at i b e = elim (dec_lt i (length bs)) [
      | yes less ↦
          unpack_at-same (Block.unpack P.codec) t (make_block_name (suc i)) (apply_batch t batch)
            (at_old i less)
          ∙ v.block_at i b (get_elem?-append bs block i b less e)
      | no more ↦
          let less = get_elem?-length (bs ++ block ∷ []) i b e in
          let end : length bs ≡ i = omega (arith, length-append bs (block ∷ [])) in
          subst (λ j. stored_block P (apply_batch t batch) (suc j) ≡ some b) end
            (unpack_at-some (Block.unpack P.codec) (apply_batch t batch) _ bb at_new
              ∙ Packing.unpack-pack_container P.codec block bb L w packed_block
              ∙ sym (get_elem?-append_end bs block)
              ∙ ap (get_elem? (bs ++ block ∷ [])) end
              ∙ e)
    ]

    -- One more block, and a header that counts it.
    pub Shows-append : Shows P (apply_batch t batch) (counted h) (bs ++ block ∷ [])
    Shows-append = record {
      header_at =
          unpack_at-some (Header.unpack P.codec) (apply_batch t batch) header_key hb at_header
          ∙ Header.unpack-pack_header P.codec L (counted h) hb counted-IsHeader packed_header;
      version_eq = v.version_eq;
      index_eq =
          index-counted
          ∙ (let n : suc (length bs) ≡ length (bs ++ block ∷ []) =
                omega (arith, length-append bs (block ∷ [])) in
              n);
      block_at = block_at;
    }

module _ (P : Platform) (L : IsCodec P.codec) (h : Header) (hb : Bytes) (v : IsHeader h)
    (new : h.index ≡ 0) (current : h.version ≡ db_version)
    (packed : Header.pack P.codec h ≡ some hb) where
  abbrev pub new_table : Table
  new_table = apply_batch empty_table ((header_key, hb) ∷ [])

  -- A new database with the header alone has no blocks.
  pub Shows-create : Shows P new_table h []
  Shows-create = record {
    header_at =
        unpack_at-some (Header.unpack P.codec) new_table header_key hb
          (put_pair_self empty_table header_key hb)
        ∙ Header.unpack-pack_header P.codec L h hb v packed;
    version_eq = current;
    index_eq = new;
    block_at = λ i b e. absurd (none-ne-some b e);
  }
