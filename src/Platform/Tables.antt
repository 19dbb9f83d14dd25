-- ===== src/Platform/Tables.antt =====
-- A table after a put.
use chain_db.Base.{◌≡◌, ◌≢◌, some, arith}
use chain_db.Base.Bytes.{Bytes, bytes_eq_iff, bytes_eq_refl}
use chain_db.Platform.Engine.{Table, put_pair}

pub put_pair_self : (t : Table) (k v : Bytes) → put_pair t k v k ≡ some v
put_pair_self t k v = rw (bytes_eq_refl k)

pub put_pair_ne : (t : Table) (k v j : Bytes) → k ≢ j → put_pair t k v j ≡ t j
put_pair_ne t k v j ne = ground (arith, bytes_eq_iff k j)
