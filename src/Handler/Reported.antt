-- ===== src/Handler/Reported.antt =====
-- Handler.cpp: an answer says whether the call of the manager succeeded.
use chain_db.Base.{
  ℕ, ◌==◌, ◌≡◌, refl, ap, subst, inl, inr, Bool, true, false, is_some, Option, none, some, List, [],
  ◌∷◌, arith, length, ltb, Bool-cases, Option-cases,
}
use chain_db.Base.Bytes.{Bytes}
use chain_db.Base.Action.{Run, returned}
use chain_db.Platform.{Platform}
use chain_db.Platform.Wire.{
  Wire, Request, Response, DataRequest, ChainRequest, GetBlockRequest, AuthData,
}
use chain_db.Storage.Block.{Container}
use chain_db.Storage.Chain
use chain_db.Storage.Manager
use chain_db.Storage.Manager.Paths.{make_storage_path}
use chain_db.Storage.Manager.Runs.{Call, creates, adds, reads, lists, removes, verifies, heads}
use chain_db.Storage.Manager.Reports.{reports, Returns}
use chain_db.Handler.{
  Handling, handle_message, dispatch, authorised, guarded, check_auth, or_else, response_for,
  blocks_response, verdict_response, max_data_length, handle_create_chain_request,
  handle_remove_chain_request, handle_add_block_request, handle_get_block_request,
  handle_get_blocks_request, handle_verify_chain_request, handle_get_chain_header_request,
  handle_get_chain_keys_request, handle_get_chain_info_request,
}
use chain_db.Handler.Requested.{
  sized, or_calls, request_calls, authorised_calls, guarded_calls, message_calls,
}

only : (c d : Call) → c ∷ [] ≡ d ∷ [] → c ≡ d
only c d e = cc

module _ (P : Platform) (W : Wire) (dir : Bytes) where
  -- The answer is a response whose status is that of success exactly if `ok`.
  pub record Tells (r : Run (Option Bytes)) (ok : Bool) : Type 0 where
    pub resp : Response
    pub answer_eq : r ≡ returned (W.serialize_response resp)
    pub status_eq : (resp.status.status == 0) ≡ ok

  -- If the handling leads to a call that returns, its answer says whether the call succeeded.
  pub record Reported (h : Handling P W) (calls : List Call) : Type 0 where
    pub at :
        (call : Call) (w : P.World)
        → calls ≡ call ∷ []
        → Returns P dir call w
        → Tells (h w).0 (reports P dir call w)

  answered-Tells :
      {A : Type 0} (failed : Bytes) (resp : A → Response) (r : Option A)
      → ((a : A) → (resp a).status.status ≡ 0)
      → Tells (returned (response_for P W failed resp r)) (is_some r)
  answered-Tells failed resp none ok = record { resp = _; answer_eq = refl; status_eq = refl }
  answered-Tells failed resp (some a) ok = record {
    resp = resp a;
    answer_eq = refl;
    status_eq = ap (λ s. s == 0) (ok a);
  }

  one-Reported :
      (h : Handling P W) (call : Call)
      → ((w : P.World) → Returns P dir call w → Tells (h w).0 (reports P dir call w))
      → Reported h (call ∷ [])
  one-Reported h call tells = record {
    at = λ c w e.
        subst (λ d. Returns P dir d w → Tells (h w).0 (reports P dir d w)) (only call c e)
          (tells w);
  }

  none-Reported : (h : Handling P W) → Reported h []
  none-Reported h = record { at = λ c w e. absurd (ground arith) }

  create-Reported :
      (req : DataRequest)
      → Reported
          (handle_create_chain_request P W dir req)
          (sized req.payload (creates req.chain_id req.payload))
  unfolding handle_create_chain_request reports
  create-Reported req = elim (Bool-cases (ltb max_data_length (length req.payload))) [
    | inl large ↦ rw large (none-Reported _)
    | inr fits ↦ rw fits (
        one-Reported _ (creates req.chain_id req.payload) (λ w _.
          answered-Tells _ _ (Manager.create_chain P dir req.chain_id req.payload w).0 (λ a. refl)))
  ]

  add-Reported :
      (req : DataRequest)
      → Reported
          (handle_add_block_request P W dir req)
          (sized req.payload (adds req.chain_id req.payload))
  unfolding handle_add_block_request reports
  add-Reported req = elim (Bool-cases (ltb max_data_length (length req.payload))) [
    | inl large ↦ rw large (none-Reported _)
    | inr fits ↦ rw fits (
        one-Reported _ (adds req.chain_id req.payload) (λ w _.
          answered-Tells _ _ (Manager.add_block P dir req.chain_id req.payload w).0 (λ a. refl)))
  ]

  remove-Reported :
      (req : ChainRequest)
      → Reported (handle_remove_chain_request P W dir req) (removes req.chain_id ∷ [])
  unfolding handle_remove_chain_request reports
  remove-Reported req =
      one-Reported _ (removes req.chain_id)
        (λ w _. answered-Tells _ _ (Manager.remove_chain P dir req.chain_id w).0 (λ a. refl))

  get_block-Reported :
      (req : GetBlockRequest)
      → Reported (handle_get_block_request P W dir req) (reads req.chain_id req.block_id ∷ [])
  unfolding handle_get_block_request reports
  get_block-Reported req = one-Reported _ (reads req.chain_id req.block_id) (λ w _.
      answered-Tells _ _ (Manager.get_block P dir req.chain_id req.block_id w).0 (λ a. refl))

  get_header-Reported :
      (req : ChainRequest)
      → Reported (handle_get_chain_header_request P W dir req) (heads req.chain_id ∷ [])
  unfolding handle_get_chain_header_request reports
  get_header-Reported req =
      one-Reported _ (heads req.chain_id)
        (λ w _. answered-Tells _ _ (Manager.get_chain_header P dir req.chain_id w).0 (λ a. refl))

  get_keys-Reported :
      (req : ChainRequest)
      → Reported (handle_get_chain_keys_request P W dir req) (heads req.chain_id ∷ [])
  unfolding handle_get_chain_keys_request reports
  get_keys-Reported req =
      one-Reported _ (heads req.chain_id)
        (λ w _. answered-Tells _ _ (Manager.get_chain_header P dir req.chain_id w).0 (λ a. refl))

  is_some-info :
      (id : ℕ) (w : P.World)
      → is_some (Manager.get_chain_info P dir id w).0
        ≡ is_some (Manager.get_chain_header P dir id w).0
  unfolding Manager.get_chain_info Manager.get_chain_header
  is_some-info id w = elim (Option-cases (Chain.get_header P (make_storage_path dir id) w).0) [
    | inl e ↦ rw (e, Manager.get_chain_info) refl
    | inr (h, e) ↦ rw (e, Manager.get_chain_info) refl
  ]

  get_info-Reported :
      (req : ChainRequest)
      → Reported (handle_get_chain_info_request P W dir req) (heads req.chain_id ∷ [])
  unfolding handle_get_chain_info_request reports
  get_info-Reported req = one-Reported _ (heads req.chain_id) (λ w _.
      subst (Tells _) (is_some-info req.chain_id w)
        (answered-Tells _ _ (Manager.get_chain_info P dir req.chain_id w).0 (λ a. refl)))

  blocks-Tells : (r : Bool × List Container) → Tells (blocks_response P W dir r) r.0
  blocks-Tells (true, blocks) = record { resp = _; answer_eq = refl; status_eq = refl }
  blocks-Tells (false, blocks) = record { resp = _; answer_eq = refl; status_eq = refl }

  verdict-Tells : (b : Bool) → Tells (verdict_response P W dir b) b
  verdict-Tells true = record { resp = _; answer_eq = refl; status_eq = refl }
  verdict-Tells false = record { resp = _; answer_eq = refl; status_eq = refl }

  get_blocks-Reported :
      (req : ChainRequest)
      → Reported (handle_get_blocks_request P W dir req) (lists req.chain_id ∷ [])
  unfolding handle_get_blocks_request reports
  get_blocks-Reported req =
      one-Reported _ (lists req.chain_id) (λ w (r, e). rw (e, reports) (blocks-Tells r))

  verify-Reported :
      (req : ChainRequest)
      → Reported (handle_verify_chain_request P W dir req) (verifies req.chain_id ∷ [])
  unfolding handle_verify_chain_request reports
  verify-Reported req =
      one-Reported _ (verifies req.chain_id) (λ w (b, e). rw (e, reports) (verdict-Tells b))

  or_else-Reported :
      {A : Type 0} (req : Option A) (handle : A → Handling P W) (rest : Handling P W)
      (calls : A → List Call) (others : List Call)
      → ((a : A) → Reported (handle a) (calls a))
      → Reported rest others
      → Reported (or_else P W dir req handle rest) (or_calls req calls others)
  or_else-Reported none handle rest calls others h k = k
  or_else-Reported (some a) handle rest calls others h k = h a

  dispatch-Reported : (req : Request) → Reported (dispatch P W dir req) (request_calls req)
  unfolding dispatch
  dispatch-Reported req =
      or_else-Reported req.ping_request _ _ _ _ (λ _. none-Reported _)
        (or_else-Reported req.create_chain_request _ _ _ _ create-Reported (
          or_else-Reported req.remove_chain_request _ _ _ _ remove-Reported (
            or_else-Reported req.add_block_request _ _ _ _ add-Reported (
              or_else-Reported req.get_block_request _ _ _ _ get_block-Reported (
                or_else-Reported req.get_blocks_request _ _ _ _ get_blocks-Reported (
                  or_else-Reported req.verify_chain_request _ _ _ _ verify-Reported (
                    or_else-Reported req.get_chain_header_request _ _ _ _ get_header-Reported (
                      or_else-Reported req.get_chain_keys_request _ _ _ _ get_keys-Reported (
                        or_else-Reported req.get_chain_info_request _ _ _ _ get_info-Reported
                          (none-Reported _))))))))))

  module _ (password : Bytes) where
    authorised-Reported :
        (auth : Option AuthData) (handle : Handling P W) (calls : List Call)
        → Reported handle calls
        → Reported
            (authorised P W dir password auth handle)
            (authorised_calls P W dir password auth calls)
    unfolding authorised
    authorised-Reported none handle calls h = none-Reported _
    authorised-Reported (some a) handle calls h =
        elim (Bool-cases (check_auth P W dir password a)) [
          | inl ok ↦ rw ok h
          | inr bad ↦ rw bad (none-Reported _)
        ]

    guarded-Reported :
        (q : Bytes) (auth : Option AuthData) (handle : Handling P W) (calls : List Call)
        → Reported handle calls
        → Reported
            (guarded P W dir password q auth handle)
            (guarded_calls P W dir password q auth calls)
    guarded-Reported [] auth handle calls h = h
    guarded-Reported (c ∷ q) auth handle calls h = authorised-Reported auth handle calls h

    -- The answer to a message that asks for a call says whether the call succeeded.
    pub handle_message-Reported :
        (msg : Bytes)
        → Reported (handle_message P W dir password msg) (message_calls P W dir password msg)
    unfolding handle_message message_calls
    handle_message-Reported msg = elim (Option-cases (W.parse_request msg)) [
      | inl e ↦ rw (e, handle_message, message_calls) (none-Reported _)
      | inr (req, e) ↦
          rw (e, handle_message, message_calls)
            (guarded-Reported password req.auth_data _ _ (dispatch-Reported req))
    ]
