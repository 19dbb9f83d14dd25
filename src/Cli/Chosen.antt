-- ===== src/Cli/Chosen.antt =====
-- Application.cpp, `run`: the command of the ones on the command line that is carried out.
use chain_db.Base.{◌≡◌, refl, Bool, true, false, Option, none, some, List, [], ◌∷◌, if◌then◌else◌}
use chain_db.Base.Bytes.{Bytes}
use chain_db.Base.Int.{to_size_t}
use chain_db.Base.Action.{Act}
use chain_db.Platform.Sha.{Sha}
use chain_db.Platform.Wire.{Wire, Request}
use chain_db.Cli.{Application, empty_request, signed, process_request, run}

-- The commands after the ping in the order of their precedence, whether each is asked for, and its
-- request.
abbrev pub commands_after : Sha → Application → List (Bool × Request)
commands_after H a =
    let id = to_size_t a.chain_id in
    let base = signed H a in
    (
      a.is_create_chain_request,
      record base { create_chain_request = some (record { chain_id = id; payload = a.payload }) },
    )
    ∷ (
      a.is_remove_chain_request,
      record base { remove_chain_request = some (record { chain_id = id }) },
    )
    ∷ (
      a.is_add_block_request,
      record base { add_block_request = some (record { chain_id = id; payload = a.payload }) },
    )
    ∷ (
      a.is_get_block_request,
      record base {
        get_block_request = some (record { chain_id = id; block_id = to_size_t a.block_id });
      },
    )
    ∷ (
      a.is_get_blocks_request,
      record base { get_blocks_request = some (record { chain_id = id }) },
    )
    ∷ (
      a.is_verify_chain_request,
      record base { verify_chain_request = some (record { chain_id = id }) },
    )
    ∷ (
      a.is_get_chain_header_request,
      record base { get_chain_header_request = some (record { chain_id = id }) },
    )
    ∷ (
      a.is_get_chain_keys_request,
      record base { get_chain_keys_request = some (record { chain_id = id }) },
    )
    ∷ (
      a.is_get_chain_info_request,
      record base { get_chain_info_request = some (record { chain_id = id }) },
    )
    ∷ []

abbrev pub commands : Sha → Application → List (Bool × Request)
commands H a =
    (a.is_ping_request, record empty_request { ping_request = some tt }) ∷ commands_after H a

-- The first that is asked for.
abbrev pub chosen : List (Bool × Request) → Option Request
chosen [] = none
chosen ((true, req) ∷ rest) = some req
chosen ((false, req) ∷ rest) = chosen rest

module _ (H : Sha) (W : Wire) {World : Type 0} (send : Bytes → Act World Bytes) where
  -- Without a command there is nothing to do.
  abbrev pub attempt : Option Request → World → Bool × World
  attempt none w = (true, w)
  attempt (some req) w = process_request H W send req w

  attempt-cons :
      (b : Bool) (req : Request) (rest : List (Bool × Request)) (w : World) (r : Bool × World)
      → r ≡ attempt (chosen rest) w
      → (if b then process_request H W send req w else r) ≡ attempt (chosen ((b, req) ∷ rest)) w
  attempt-cons true req rest w r e = refl
  attempt-cons false req rest w r e = e

  -- `run` carries out the first command that is asked for, and no other.
  pub run-chosen :
      (a : Application) (w : World) → run H W send a w ≡ attempt (chosen (commands H a)) w
  unfolding run
  run-chosen a w = attempt-cons a.is_ping_request _ _ w _ (
      attempt-cons a.is_create_chain_request _ _ w _ (
        attempt-cons a.is_remove_chain_request _ _ w _ (
          attempt-cons a.is_add_block_request _ _ w _ (
            attempt-cons a.is_get_block_request _ _ w _ (
              attempt-cons a.is_get_blocks_request _ _ w _ (
                attempt-cons a.is_verify_chain_request _ _ w _ (
                  attempt-cons a.is_get_chain_header_request _ _ w _ (
                    attempt-cons a.is_get_chain_keys_request _ _ w _
                      (attempt-cons a.is_get_chain_info_request _ _ w _ refl)))))))))
