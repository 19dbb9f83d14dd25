-- ===== src/Tests/Wires.antt =====
-- Simple messages. A plain one is a kind, a chain, the length of the password hash, and then that hash
-- and the data. A short one is a ping, if it is empty, or a chain to verify and a password hash.
use mathlib.Core.Option.{some-injective, none-ne-some}
use chain_db.Base.{ℕ, ◌≡◌, sym, ap, Option, none, some, [], ◌∷◌, take, drop, if◌then◌else◌, ◌==◌}
use chain_db.Base.Bytes.{Bytes}
use chain_db.Platform.Wire.{
  Wire, IsWire, Request, DataRequest, ChainRequest, GetBlockRequest, AuthData,
}
use chain_db.Handler.{succeeded}
use chain_db.Cli.{empty_request}

abbrev data_for : ℕ → ℕ → ℕ → Bytes → Option DataRequest
data_for wanted kind id payload =
    if wanted == kind then some (record { chain_id = id; payload = payload }) else none

abbrev chain_for : ℕ → ℕ → ℕ → Option ChainRequest
chain_for wanted kind id = if wanted == kind then some (record { chain_id = id }) else none

abbrev pub request : ℕ → ℕ → ℕ → Bytes → Request
request kind id n rest = record {
  auth_data = if n == 0 then none else some (record { password_hash = take n rest });
  ping_request = if kind == 0 then some tt else none;
  create_chain_request = data_for 1 kind id (drop n rest);
  remove_chain_request = chain_for 2 kind id;
  add_block_request = data_for 3 kind id (drop n rest);
  get_block_request = none;
  get_blocks_request = chain_for 4 kind id;
  verify_chain_request = chain_for 5 kind id;
  get_chain_header_request = none;
  get_chain_keys_request = none;
  get_chain_info_request = none;
}

abbrev pub parse_plain_request : Bytes → Option Request
parse_plain_request [] = none
parse_plain_request (kind ∷ []) = none
parse_plain_request (kind ∷ id ∷ []) = none
parse_plain_request (kind ∷ id ∷ n ∷ rest) = some (request kind id n rest)

abbrev pub plain_wire : Wire
plain_wire = record {
  serialize_request = λ req. none;
  parse_response = λ msg. none;
  parse_request = parse_plain_request;
  serialize_response = λ r. some (r.status.status ∷ r.status.message);
}

abbrev pub verify_message : ℕ → Bytes → Request
verify_message id hash = record empty_request {
  auth_data = some (record { password_hash = hash });
  verify_chain_request = some (record { chain_id = id });
}

abbrev ping_message : Request
ping_message = record empty_request { ping_request = some tt }

abbrev parse_short : Bytes → Option Request
parse_short [] = some ping_message
parse_short (id ∷ hash) = some (verify_message id hash)

-- Other requests are not written.
abbrev write_short :
    Option (AuthData)
    → Option (Unit {0})
    → Option (DataRequest)
    → Option (ChainRequest)
    → Option (DataRequest)
    → Option (GetBlockRequest)
    → Option (ChainRequest)
    → Option (ChainRequest)
    → Option (ChainRequest)
    → Option (ChainRequest)
    → Option (ChainRequest)
    → Option Bytes
write_short none (some u) none none none none none none none none none = some []
write_short (some a) none none none none none none (some v) none none none =
    some (v.chain_id ∷ a.password_hash)
write_short none none cr re ad gb gs ve gh gk gi = none
write_short none (some u) (some x) re ad gb gs ve gh gk gi = none
write_short none (some u) none (some x) ad gb gs ve gh gk gi = none
write_short none (some u) none none (some x) gb gs ve gh gk gi = none
write_short none (some u) none none none (some x) gs ve gh gk gi = none
write_short none (some u) none none none none (some x) ve gh gk gi = none
write_short none (some u) none none none none none (some x) gh gk gi = none
write_short none (some u) none none none none none none (some x) gk gi = none
write_short none (some u) none none none none none none none (some x) gi = none
write_short none (some u) none none none none none none none none (some x) = none
write_short (some a) (some x) cr re ad gb gs ve gh gk gi = none
write_short (some a) none (some x) re ad gb gs ve gh gk gi = none
write_short (some a) none none (some x) ad gb gs ve gh gk gi = none
write_short (some a) none none none (some x) gb gs ve gh gk gi = none
write_short (some a) none none none none (some x) gs ve gh gk gi = none
write_short (some a) none none none none none (some x) ve gh gk gi = none
write_short (some a) none none none none none none none gh gk gi = none
write_short (some a) none none none none none none (some v) (some x) gk gi = none
write_short (some a) none none none none none none (some v) none (some x) gi = none
write_short (some a) none none none none none none (some v) none none (some x) = none

abbrev pub short_wire : Wire
short_wire = record {
  parse_request = parse_short;
  serialize_request = λ req.
      write_short req.auth_data req.ping_request req.create_chain_request req.remove_chain_request
        req.add_block_request req.get_block_request req.get_blocks_request req.verify_chain_request
        req.get_chain_header_request req.get_chain_keys_request req.get_chain_info_request;
  parse_response = λ msg. some succeeded;
  serialize_response = λ r. some (r.status.status ∷ r.status.message);
}

pub parse-write :
    (au : Option (AuthData)) (pi : Option (Unit {0})) (cr : Option (DataRequest))
    (re : Option (ChainRequest)) (ad : Option (DataRequest)) (gb : Option (GetBlockRequest))
    (gs : Option (ChainRequest)) (ve : Option (ChainRequest)) (gh : Option (ChainRequest))
    (gk : Option (ChainRequest)) (gi : Option (ChainRequest)) (msg : Bytes)
    → write_short au pi cr re ad gb gs ve gh gk gi ≡ some msg
    → parse_short msg
      ≡ some (record {
        auth_data = au;
        ping_request = pi;
        create_chain_request = cr;
        remove_chain_request = re;
        add_block_request = ad;
        get_block_request = gb;
        get_blocks_request = gs;
        verify_chain_request = ve;
        get_chain_header_request = gh;
        get_chain_keys_request = gk;
        get_chain_info_request = gi;
      })
parse-write none (some u) none none none none none none none none none msg e =
    ap parse_short (sym (some-injective _ msg e))
parse-write (some a) none none none none none none (some v) none none none msg e =
    ap parse_short (sym (some-injective _ msg e))
parse-write none none cr re ad gb gs ve gh gk gi msg e = absurd (none-ne-some msg e)
parse-write none (some u) (some x) re ad gb gs ve gh gk gi msg e = absurd (none-ne-some msg e)
parse-write none (some u) none (some x) ad gb gs ve gh gk gi msg e = absurd (none-ne-some msg e)
parse-write none (some u) none none (some x) gb gs ve gh gk gi msg e = absurd (none-ne-some msg e)
parse-write none (some u) none none none (some x) gs ve gh gk gi msg e = absurd (none-ne-some msg e)
parse-write none (some u) none none none none (some x) ve gh gk gi msg e =
    absurd (none-ne-some msg e)
parse-write none (some u) none none none none none (some x) gh gk gi msg e =
    absurd (none-ne-some msg e)
parse-write none (some u) none none none none none none (some x) gk gi msg e =
    absurd (none-ne-some msg e)
parse-write none (some u) none none none none none none none (some x) gi msg e =
    absurd (none-ne-some msg e)
parse-write none (some u) none none none none none none none none (some x) msg e =
    absurd (none-ne-some msg e)
parse-write (some a) (some x) cr re ad gb gs ve gh gk gi msg e = absurd (none-ne-some msg e)
parse-write (some a) none (some x) re ad gb gs ve gh gk gi msg e = absurd (none-ne-some msg e)
parse-write (some a) none none (some x) ad gb gs ve gh gk gi msg e = absurd (none-ne-some msg e)
parse-write (some a) none none none (some x) gb gs ve gh gk gi msg e = absurd (none-ne-some msg e)
parse-write (some a) none none none none (some x) gs ve gh gk gi msg e = absurd (none-ne-some msg e)
parse-write (some a) none none none none none (some x) ve gh gk gi msg e =
    absurd (none-ne-some msg e)
parse-write (some a) none none none none none none none gh gk gi msg e = absurd (none-ne-some msg e)
parse-write (some a) none none none none none none (some v) (some x) gk gi msg e =
    absurd (none-ne-some msg e)
parse-write (some a) none none none none none none (some v) none (some x) gi msg e =
    absurd (none-ne-some msg e)
parse-write (some a) none none none none none none (some v) none none (some x) msg e =
    absurd (none-ne-some msg e)

abbrev pub short_wire-IsWire : IsWire short_wire
short_wire-IsWire = record {
  request_round = λ req msg k e.
      parse-write req.auth_data req.ping_request req.create_chain_request req.remove_chain_request
        req.add_block_request req.get_block_request req.get_blocks_request req.verify_chain_request
        req.get_chain_header_request req.get_chain_keys_request req.get_chain_info_request msg e;
}
