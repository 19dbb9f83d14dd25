-- ===== src/Handler/Requested.antt =====
-- Handler.cpp: the call of the manager that a message asks for, in terms of what the message says.
use chain_db.Base.{
  ℕ, ◌≤◌, inl, inr, Option, none, some, List, [], ◌∷◌, ◌++◌, arith, length, ltb, if◌then◌else◌, All,
  Bool-cases, Option-cases,
}
use chain_db.Base.Bytes.{Bytes}
use chain_db.Platform.{Platform}
use chain_db.Platform.Wire.{Wire, Request, AuthData}
use chain_db.Storage.Manager.Runs.{Call, creates, adds, reads, lists, removes, verifies, heads}
use chain_db.Handler.{check_auth}

-- The data of the call has at most 8192 bytes.
abbrev pub Limited : Call → Type 0
Limited (creates id payload) = length payload ≤ 8192
Limited (adds id payload) = length payload ≤ 8192
Limited (reads id i) = Unit
Limited (lists id) = Unit
Limited (removes id) = Unit
Limited (verifies id) = Unit
Limited (heads id) = Unit

-- At most one call, and with no more data than the limit.
pub record Few (calls : List Call) : Type 0 where
  pub few : length calls ≤ 1
  pub limited : All Limited calls

-- More data than 8192 bytes is not passed on.
abbrev pub sized : Bytes → Call → List Call
sized payload call = if ltb 8192 (length payload) then [] else call ∷ []

abbrev pub or_calls : {A : Type 0} → Option A → (A → List Call) → List Call → List Call
or_calls none calls rest = rest
or_calls (some a) calls rest = calls a

-- The call that a request leads to, in the order in which the handler looks for it.
abbrev pub request_calls : Request → List Call
request_calls req =
    or_calls req.ping_request (λ r. [])
      (or_calls req.create_chain_request (λ r. sized r.payload (creates r.chain_id r.payload))
        (or_calls req.remove_chain_request (λ r. removes r.chain_id ∷ [])
          (or_calls req.add_block_request (λ r. sized r.payload (adds r.chain_id r.payload))
            (or_calls req.get_block_request (λ r. reads r.chain_id r.block_id ∷ [])
              (or_calls req.get_blocks_request (λ r. lists r.chain_id ∷ [])
                (or_calls req.verify_chain_request (λ r. verifies r.chain_id ∷ [])
                  (or_calls req.get_chain_header_request (λ r. heads r.chain_id ∷ [])
                    (or_calls req.get_chain_keys_request (λ r. heads r.chain_id ∷ [])
                      (or_calls req.get_chain_info_request (λ r. heads r.chain_id ∷ []) [])))))))))

nothing-Few : Few []
nothing-Few = record { few = omega arith; limited = tt }

once-Few : (call : Call) → Limited call → Few (call ∷ [])
once-Few call l = record { few = omega arith; limited = (l, tt) }

creates-Few : (id : ℕ) (payload : Bytes) → Few (sized payload (creates id payload))
creates-Few id payload = elim (Bool-cases (ltb 8192 (length payload))) [
  | inl large ↦ rw large nothing-Few
  | inr fits ↦ rw fits (once-Few (creates id payload) (ground arith))
]

adds-Few : (id : ℕ) (payload : Bytes) → Few (sized payload (adds id payload))
adds-Few id payload = elim (Bool-cases (ltb 8192 (length payload))) [
  | inl large ↦ rw large nothing-Few
  | inr fits ↦ rw fits (once-Few (adds id payload) (ground arith))
]

or_calls-Few :
    {A : Type 0} (req : Option A) (calls : A → List Call) (rest : List Call)
    → ((a : A) → Few (calls a))
    → Few rest
    → Few (or_calls req calls rest)
or_calls-Few none calls rest h k = k
or_calls-Few (some a) calls rest h k = h a

request-Few : (req : Request) → Few (request_calls req)
request-Few req =
    or_calls-Few req.ping_request _ _ (λ r. nothing-Few)
      (or_calls-Few req.create_chain_request _ _ (λ r. creates-Few r.chain_id r.payload)
        (or_calls-Few req.remove_chain_request _ _ (λ r. once-Few _ tt)
          (or_calls-Few req.add_block_request _ _ (λ r. adds-Few r.chain_id r.payload)
            (or_calls-Few req.get_block_request _ _ (λ r. once-Few _ tt)
              (or_calls-Few req.get_blocks_request _ _ (λ r. once-Few _ tt)
                (or_calls-Few req.verify_chain_request _ _ (λ r. once-Few _ tt)
                  (or_calls-Few req.get_chain_header_request _ _ (λ r. once-Few _ tt)
                    (or_calls-Few req.get_chain_keys_request _ _ (λ r. once-Few _ tt)
                      (or_calls-Few req.get_chain_info_request _ _ (λ r. once-Few _ tt)
                        nothing-Few)))))))))

module _ (P : Platform) (W : Wire) (dir : Bytes) where
  module _ (password : Bytes) where
    -- Where `check_auth` refuses, nothing is called.
    abbrev pub authorised_calls : Option AuthData → List Call → List Call
    authorised_calls none calls = []
    authorised_calls (some auth) calls = if check_auth P W dir password auth then calls else []

    abbrev pub guarded_calls : Bytes → Option AuthData → List Call → List Call
    guarded_calls [] auth calls = calls
    guarded_calls (c ∷ q) auth calls = authorised_calls auth calls

    -- The calls that a message leads to, and those that messages lead to.
    unfoldable pub message_calls : Bytes → List Call
    message_calls msg = elim (W.parse_request msg) [
      | none ↦ []
      | some req ↦ guarded_calls password req.auth_data (request_calls req)
    ]

    unfoldable pub session_calls : List Bytes → List Call
    session_calls [] = []
    session_calls (msg ∷ msgs) = message_calls msg ++ session_calls msgs

    guarded-Few :
        (q : Bytes) (auth : Option AuthData) (calls : List Call)
        → Few calls
        → Few (guarded_calls q auth calls)
    guarded-Few [] auth calls h = h
    guarded-Few (c ∷ q) none calls h = nothing-Few
    guarded-Few (c ∷ q) (some a) calls h = elim (Bool-cases (check_auth P W dir password a)) [
      | inl ok ↦ rw ok h
      | inr bad ↦ rw bad nothing-Few
    ]

    -- A message leads to one call at most, and to none with more data than the limit.
    pub message-Few : (msg : Bytes) → Few (message_calls msg)
    unfolding message_calls
    message-Few msg = elim (Option-cases (W.parse_request msg)) [
      | inl e ↦ rw (e, message_calls) nothing-Few
      | inr (req, e) ↦
          rw (e, message_calls)
            (guarded-Few password req.auth_data (request_calls req) (request-Few req))
    ]

pub All-concat : (cs ds : List Call) → All Limited cs → All Limited ds → All Limited (cs ++ ds)
All-concat [] ds l m = m
All-concat (c ∷ cs) ds l m = (l.0, All-concat cs ds l.1 m)
