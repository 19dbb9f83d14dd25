-- ===== src/Service.antt =====
-- src/ChainDB.cpp, src/Main.cpp and src/System/IService.cpp: the service process.
pub mod Settings
pub mod Chains
pub mod Ledger
pub mod Answers
use chain_db.Base.{ℕ, Bool, true, false, Option, none, some, List, [], ◌∷◌, if◌then◌else◌}
use chain_db.Base.Bytes.{Bytes, text}
use chain_db.Base.Int.{ℤ, pos, neg, to_size_t}
use chain_db.Base.Action.{Run}
use chain_db.Platform.{Platform}
use chain_db.Platform.Wire.{Wire}
use chain_db.Crypto.Random
use chain_db.System.Arguments.{
  bool_arg, int_arg, string_arg, HandlerMap, Parsed, accepted, rejected, thrown, parse_args,
}
use chain_db.Handler.{handle_message}
use chain_db.Network.Server.{
  Server, Opening, Phase, looping, polling, ended, crashed, stuck, make_endpoint_path, start,
}

pub record ChainDb : Type 0 where
  pub daemonize : Bool
  pub log_path : Bytes
  pub storage_dir : Bytes
  pub password : Bytes
  pub server_port : ℤ

-- The constructor.
abbrev pub instance_settings : ChainDb
instance_settings = record {
  daemonize = true;
  log_path = text "chain_db_service.log";
  storage_dir = [];
  password = [];
  server_port = pos 8888;
}

abbrev pub handlers : HandlerMap ChainDb
handlers =
    (text "--daemonize", bool_arg (λ b c. record c { daemonize = b }))
    ∷ (text "--log-path", string_arg (λ v c. record c { log_path = v }))
    ∷ (text "--storage-path", string_arg (λ v c. record c { storage_dir = v }))
    ∷ (text "--password", string_arg (λ v c. record c { password = v }))
    ∷ (text "--port", int_arg (λ n c. record c { server_port = n }))
    ∷ []

-- What `fork` returns: 0, the number of a process, or -1.
pub data Forked : Type 0 where
  in_child in_parent not_forked : Forked

-- `IService::daemonize`: whether it returns; otherwise it ends the process with status 0.
abbrev pub daemonize : Forked → Bool
daemonize in_child = true
daemonize in_parent = false
daemonize not_forked = false

-- How `initialize` ends: with `true` and these settings, with `false`, with the end of the process,
-- or with an exception.
pub data Started : Type 0 where
  ready : ChainDb → Started
  failed exited raised : Started

module _ (P : Platform) where
  unfoldable pub initialize_random_generator : P.World → Bool × P.World
  initialize_random_generator w =
      let (seeded, w₁) = Random.status P.rng w in
      if seeded then Random.poll P.rng w₁ else (false, w₁)

  abbrev pub with_generator : ChainDb → P.World → Started × P.World
  with_generator c w =
      let (ok, w₁) = initialize_random_generator w in (if ok then ready c else failed, w₁)

  abbrev pub with_settings : Forked → Parsed × ChainDb → P.World → Started × P.World
  with_settings forked (accepted, c) w =
      if c.daemonize
      then (if daemonize forked then with_generator c w else (exited, w))
      else with_generator c w
  with_settings forked (rejected, c) w = (failed, w)
  with_settings forked (thrown, c) w = (raised, w)

  -- `argv` is the list of the arguments.
  unfoldable pub initialize : Forked → List Bytes → P.World → Started × P.World
  initialize forked argv w = with_settings forked (parse_args handlers argv instance_settings) w

  module _ (W : Wire) where
    -- `run`: the handler, and the server before its loop.
    abbrev pub service_handler : ChainDb → Bytes → P.World → Run (Option Bytes) × P.World
    service_handler c = handle_message P W c.storage_dir c.password

    unfoldable pub run : ChainDb → Opening → P.World → Server P.World
    run c o w = start (service_handler c) o w

  abbrev pub endpoint : ChainDb → Bytes
  endpoint c = make_endpoint_path (to_size_t c.server_port)

-- The status that `main` returns once the server's thread is joined, if it is.
abbrev pub joined_status : Phase → Option ℤ
joined_status ended = some (pos 0)
joined_status looping = none
joined_status polling = none
joined_status crashed = none
joined_status stuck = none

abbrev pub exit_status : Started → Phase → Option ℤ
exit_status (ready c) p = joined_status p
exit_status failed p = some (neg 1)
exit_status exited p = some (pos 0)
exit_status raised p = none
