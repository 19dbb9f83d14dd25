-- ===== src/Handler/Calls.antt =====
-- Handler.cpp: the calls of the manager that a message leads to.
use chain_db.Base.{
  ℕ, ◌≤◌, ◌≡◌, refl, sym, ap, ◌∙◌, inl, inr, Option, none, some, List, [], ◌∷◌, ◌++◌, arith, length,
  ltb, All, Bool-cases, Option-cases, length-append,
}
use chain_db.Base.Bytes.{Bytes}
use chain_db.Platform.{Platform}
use chain_db.Platform.Wire.{Wire, Request, DataRequest, ChainRequest, GetBlockRequest, AuthData}
use chain_db.Storage.Chain
use chain_db.Storage.Manager
use chain_db.Storage.Manager.Paths.{make_storage_path}
use chain_db.Storage.Manager.Runs.{
  Call, creates, adds, reads, lists, removes, verifies, heads, step, run,
}
use chain_db.Network.Server.{serve}
use chain_db.Handler.{
  handle_message, dispatch, authorised, check_auth, guarded, max_data_length, Handling, or_else,
  reply, handle_create_chain_request, handle_add_block_request, handle_remove_chain_request,
  handle_get_block_request, handle_get_blocks_request, handle_verify_chain_request,
  handle_get_chain_header_request, handle_get_chain_keys_request, handle_get_chain_info_request,
}
use chain_db.Handler.Requested.{
  Limited, sized, or_calls, request_calls, authorised_calls, guarded_calls, message_calls,
  session_calls, message-Few, All-concat,
}

module _ (P : Platform) (W : Wire) (dir : Bytes) where
  -- From `w` to `v` in at most one call.
  pub record Calls (w v : P.World) : Type 0 where
    pub calls : List Call
    pub few : length calls ≤ 1
    pub limited : All Limited calls
    pub runs : v ≡ run P dir calls w

  -- The handling changes the world as these calls do.
  pub record Handles (h : Handling P W) (calls : List Call) : Type 0 where
    pub at : (w : P.World) → (h w).1 ≡ run P dir calls w

  create-Handles :
      (req : DataRequest)
      → Handles
          (handle_create_chain_request P W dir req)
          (sized req.payload (creates req.chain_id req.payload))
  unfolding handle_create_chain_request run step
  create-Handles req = record {
    at = λ w. elim (Bool-cases (ltb max_data_length (length req.payload))) [
      | inl large ↦ rw large refl
      | inr fits ↦ rw fits refl
    ];
  }

  add-Handles :
      (req : DataRequest)
      → Handles
          (handle_add_block_request P W dir req)
          (sized req.payload (adds req.chain_id req.payload))
  unfolding handle_add_block_request run step
  add-Handles req = record {
    at = λ w. elim (Bool-cases (ltb max_data_length (length req.payload))) [
      | inl large ↦ rw large refl
      | inr fits ↦ rw fits refl
    ];
  }

  remove-Handles :
      (req : ChainRequest)
      → Handles (handle_remove_chain_request P W dir req) (removes req.chain_id ∷ [])
  unfolding handle_remove_chain_request run step
  remove-Handles req = record { at = λ w. refl }

  get_block-Handles :
      (req : GetBlockRequest)
      → Handles (handle_get_block_request P W dir req) (reads req.chain_id req.block_id ∷ [])
  unfolding handle_get_block_request run step
  get_block-Handles req = record { at = λ w. refl }

  get_blocks-Handles :
      (req : ChainRequest)
      → Handles (handle_get_blocks_request P W dir req) (lists req.chain_id ∷ [])
  unfolding handle_get_blocks_request run step
  get_blocks-Handles req = record { at = λ w. refl }

  verify-Handles :
      (req : ChainRequest)
      → Handles (handle_verify_chain_request P W dir req) (verifies req.chain_id ∷ [])
  unfolding handle_verify_chain_request run step
  verify-Handles req = record { at = λ w. refl }

  get_header-Handles :
      (req : ChainRequest)
      → Handles (handle_get_chain_header_request P W dir req) (heads req.chain_id ∷ [])
  unfolding handle_get_chain_header_request run step
  get_header-Handles req = record { at = λ w. refl }

  get_keys-Handles :
      (req : ChainRequest)
      → Handles (handle_get_chain_keys_request P W dir req) (heads req.chain_id ∷ [])
  unfolding handle_get_chain_keys_request run step
  get_keys-Handles req = record { at = λ w. refl }

  -- The world after `getChainInfo` is that after the header was read.
  info_world :
      (id : ℕ) (w : P.World)
      → (Manager.get_chain_info P dir id w).1 ≡ (Chain.get_header P (make_storage_path dir id) w).1
  unfolding Manager.get_chain_info
  info_world id w = elim (Option-cases (Chain.get_header P (make_storage_path dir id) w).0) [
    | inl e ↦ rw (e, Manager.get_chain_info) refl
    | inr (h, e) ↦ rw (e, Manager.get_chain_info) refl
  ]

  get_info-Handles :
      (req : ChainRequest)
      → Handles (handle_get_chain_info_request P W dir req) (heads req.chain_id ∷ [])
  unfolding handle_get_chain_info_request run step Manager.get_chain_header
  get_info-Handles req = record { at = λ w. info_world req.chain_id w }

  or_else-Handles :
      {A : Type 0} (req : Option A) (handle : A → Handling P W) (rest : Handling P W)
      (calls : A → List Call) (others : List Call)
      → ((a : A) → Handles (handle a) (calls a))
      → Handles rest others
      → Handles (or_else P W dir req handle rest) (or_calls req calls others)
  or_else-Handles none handle rest calls others h k = k
  or_else-Handles (some a) handle rest calls others h k = h a

  reply-Handles : (r : Option Bytes) → Handles (reply P W r) []
  unfolding run
  reply-Handles r = record { at = λ w. refl }

  pub dispatch-Handles : (req : Request) → Handles (dispatch P W dir req) (request_calls req)
  unfolding dispatch
  dispatch-Handles req =
      or_else-Handles req.ping_request _ _ _ _ (λ _. reply-Handles _)
        (or_else-Handles req.create_chain_request _ _ _ _ create-Handles (
          or_else-Handles req.remove_chain_request _ _ _ _ remove-Handles (
            or_else-Handles req.add_block_request _ _ _ _ add-Handles (
              or_else-Handles req.get_block_request _ _ _ _ get_block-Handles (
                or_else-Handles req.get_blocks_request _ _ _ _ get_blocks-Handles (
                  or_else-Handles req.verify_chain_request _ _ _ _ verify-Handles (
                    or_else-Handles req.get_chain_header_request _ _ _ _ get_header-Handles (
                      or_else-Handles req.get_chain_keys_request _ _ _ _ get_keys-Handles (
                        or_else-Handles req.get_chain_info_request _ _ _ _ get_info-Handles
                          (reply-Handles _))))))))))

  module _ (password : Bytes) where
    authorised-Handles :
        (auth : Option AuthData) (handle : Handling P W) (calls : List Call)
        → Handles handle calls
        → Handles
            (authorised P W dir password auth handle)
            (authorised_calls P W dir password auth calls)
    unfolding authorised
    authorised-Handles none handle calls h = reply-Handles _
    authorised-Handles (some a) handle calls h = elim (Bool-cases (check_auth P W dir password a)) [
      | inl ok ↦ rw ok h
      | inr bad ↦ rw bad (reply-Handles _)
    ]

    guarded-Handles :
        (q : Bytes) (auth : Option AuthData) (handle : Handling P W) (calls : List Call)
        → Handles handle calls
        → Handles
            (guarded P W dir password q auth handle)
            (guarded_calls P W dir password q auth calls)
    guarded-Handles [] auth handle calls h = h
    guarded-Handles (c ∷ q) auth handle calls h = authorised-Handles auth handle calls h

    message-Handles :
        (msg : Bytes)
        → Handles (handle_message P W dir password msg) (message_calls P W dir password msg)
    unfolding handle_message message_calls run
    message-Handles msg = elim (Option-cases (W.parse_request msg)) [
      | inl e ↦ record { at = λ w. rw (e, handle_message, message_calls) refl }
      | inr (req, e) ↦ record {
        at = λ w.
            rw (e, handle_message, message_calls)
              ((guarded-Handles password req.auth_data _ _ (dispatch-Handles req)).at w);
      }
    ]

    -- Handling a message changes the world as at most one call of the manager does, and what it
    -- stores is not larger than the limit.
    pub handle_message-Calls :
        (msg : Bytes) (w : P.World) → Calls w (handle_message P W dir password msg w).1
    handle_message-Calls msg w = record {
      calls = message_calls P W dir password msg;
      few = (message-Few P W dir password msg).few;
      limited = (message-Few P W dir password msg).limited;
      runs = (message-Handles msg).at w;
    }

    run-append :
        (cs ds : List Call) (w : P.World) → run P dir (cs ++ ds) w ≡ run P dir ds (run P dir cs w)
    unfolding run
    run-append [] ds w = refl
    run-append (c ∷ cs) ds w = run-append cs ds (step P dir c w)

    -- Whatever messages the handler is given one after the other, the databases are left as by the
    -- calls in `session_calls`, in order; there are no more of them than messages, and none adds
    -- data of more than 8192 bytes.
    pub serve-runs :
        (msgs : List Bytes) (w : P.World)
        → (length (session_calls P W dir password msgs) ≤ length msgs)
          × All Limited (session_calls P W dir password msgs)
          × (serve (handle_message P W dir password) msgs w
              ≡ run P dir (session_calls P W dir password msgs) w)
    unfolding serve run session_calls
    serve-runs [] w = (omega arith, tt, refl)
    serve-runs (msg ∷ msgs) w =
        let here = message-Few P W dir password msg in
        let calls = message_calls P W dir password msg in
        let later = session_calls P W dir password msgs in
        let w' = (handle_message P W dir password msg w).1 in
        let (few, limited, same) = serve-runs msgs w' in
        (
          (let k = here.few in omega (arith, length-append calls later)),
          All-concat calls later here.limited limited,
          same ∙ ap (run P dir later) ((message-Handles msg).at w) ∙ sym (run-append calls later w),
        )
