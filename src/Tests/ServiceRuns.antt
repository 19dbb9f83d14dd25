-- ===== src/Tests/ServiceRuns.antt =====
-- The theorems on src/ChainDB.cpp: the service is started on a blank disk, and a chain is created.
use chain_db.Base.{◌≡◌, refl, true, some, List, [], ◌∷◌, arith, length}
use chain_db.Base.Bytes.{Bytes, text, bytes_eq}
use chain_db.Base.Int.{pos}
use chain_db.Base.Decimal.{to_string}
use chain_db.Base.Action.{returned}
use chain_db.Crypto.Secp256k1.{generate_private_key, create_public_key}
use chain_db.Storage.Storage
use chain_db.Storage.Chain
use chain_db.Storage.Chain.Header
use chain_db.Storage.Chain.Header.{Header}
use chain_db.Storage.Chain.Names.{make_block_name}
use chain_db.Storage.Manager
use chain_db.Storage.Manager.Paths.{make_storage_path}
use chain_db.System.Stoi.{stoi, read_digits}
use chain_db.System.Arguments.{find, assign, parse_from, parse_args}
use chain_db.System.Arguments.Accepts.{WellFormed}
use chain_db.Handler.{handle_message, dispatch, handle_create_chain_request}
use chain_db.Network.Server.{Server, start, test, turn}
use chain_db.Network.Server.Steps.{Reach, here, next, tests, turns}
use chain_db.Service.{
  ChainDb, in_child, ready, initialize, initialize_random_generator, run, handlers,
}
use chain_db.Service.Chains.{service_verifies}
use chain_db.Storage.Manager.Ledger.{empty_ledger, perform_all, allows}
use chain_db.Storage.Manager.Ledger.Reads.{Readable}
use chain_db.Handler.Requested.{message_calls, session_calls}
use chain_db.Network.Server.Transcript.{requests}
use chain_db.Service.Ledger.{service-Readable}
use chain_db.Service.Answers.{service-Tells}
use chain_db.Handler.Reported.{Tells}
use chain_db.Storage.Manager.Runs.{verifies}
use chain_db.Service.Settings.{Configured, Seeded, initialize-ready}
use chain_db.Tests.Disk.{Disk, blank_disk, disk_engine-IsReliable, open_disk}
use chain_db.Tests.Libraries.{plain_sha-IsTotalSha}
use chain_db.Tests.Machine.{
  machine, machine-IsPlatform, machine-IsReliable, machine-MakesKeys, test_dir, first_key,
  first_pub_key,
}
use chain_db.Tests.Wires.{plain_wire}
use chain_db.Tests.NetworkRuns.{opening, taking}

abbrev args : List Bytes
args = text "--storage-path" ∷ test_dir ∷ text "--port" ∷ text "80" ∷ []

abbrev settings : ChainDb
settings = record {
  daemonize = true;
  log_path = text "chain_db_service.log";
  storage_dir = test_dir;
  password = [];
  server_port = pos 80;
}

starts : (initialize machine in_child (text "chain_db" ∷ args) blank_disk).0 ≡ ready settings
unfolding initialize parse_args parse_from find assign bytes_eq initialize_random_generator stoi
    read_digits
starts = refl

initialize-ready_example :
    WellFormed handlers args
    × Configured args settings
    × Seeded machine blank_disk (initialize machine in_child (text "chain_db" ∷ args) blank_disk).1
    × (true ≡ true → in_child ≡ in_child)
initialize-ready_example =
    initialize-ready machine in_child (text "chain_db") args settings blank_disk starts

abbrev first_server : Server Disk
first_server =
    run machine plain_wire settings opening
      (initialize machine in_child (text "chain_db" ∷ args) blank_disk).1

-- A message that creates the chain 1.
abbrev one_chain : Server Disk
one_chain =
    turn (handle_message machine plain_wire test_dir []) (taking (1 ∷ 1 ∷ 0 ∷ text "a"))
      (test (handle_message machine plain_wire test_dir []) first_server)

one_message : Reach (handle_message machine plain_wire test_dir []) first_server one_chain
unfolding run start test
one_message = next (next here (tests _ refl)) (turns _ (taking (1 ∷ 1 ∷ 0 ∷ text "a")) refl)

abbrev created_header : Header
created_header = record {
  version = 1;
  index = 0;
  payload = text "a";
  private_key = first_key;
  public_key = first_pub_key;
}

created : (Manager.get_chain_header machine test_dir 1 one_chain.world).0 ≡ some created_header
unfolding initialize parse_args parse_from find assign bytes_eq initialize_random_generator stoi
    read_digits run start test turn handle_message dispatch handle_create_chain_request
    Manager.create_chain generate_private_key create_public_key Chain.create Chain.write_header
    Chain.get_header Chain.read_header Header.pack Header.unpack make_block_name make_storage_path
    to_string Storage.opened Storage.open_storage Storage.create Storage.get Storage.set
    Storage.destruct open_disk Manager.get_chain_header
created = refl

one_entry : length one_chain.log ≡ 1
unfolding initialize parse_args parse_from find assign bytes_eq initialize_random_generator stoi
    read_digits run start test turn handle_message dispatch handle_create_chain_request
    Manager.create_chain generate_private_key create_public_key Chain.create Chain.write_header
    Header.pack make_storage_path to_string Storage.open_storage Storage.create Storage.set
    Storage.destruct open_disk
one_entry = refl

service_verifies_example :
    (Manager.verify_chain machine test_dir 1 one_chain.world).0 ≡ returned true
service_verifies_example =
    service_verifies machine machine-IsPlatform plain_wire in_child (text "chain_db" ∷ args)
      settings opening blank_disk 1 created_header (λ q. refl) (λ q. refl) disk_engine-IsReliable
      plain_sha-IsTotalSha starts one_message (omega (arith, one_entry)) created

service-Readable_example :
    Readable machine machine-IsPlatform test_dir
      (perform_all
        (session_calls machine plain_wire test_dir [] (requests one_chain.log))
        empty_ledger
        1)
      1
      one_chain.world
service-Readable_example =
    service-Readable machine machine-IsPlatform plain_wire in_child (text "chain_db" ∷ args)
      settings opening blank_disk 1 (λ q. refl) (λ q. refl) machine-IsReliable machine-MakesKeys
      starts one_message (omega (arith, one_entry))

asks_verify : message_calls machine plain_wire test_dir [] (5 ∷ 1 ∷ 0 ∷ []) ≡ verifies 1 ∷ []
unfolding message_calls
asks_verify = refl

service-Tells_example :
    Tells machine plain_wire test_dir
      (handle_message machine plain_wire test_dir [] (5 ∷ 1 ∷ 0 ∷ []) one_chain.world).0
      (allows (verifies 1) (
        perform_all
          (session_calls machine plain_wire test_dir [] (requests one_chain.log))
          empty_ledger
          1))
service-Tells_example =
    service-Tells machine machine-IsPlatform plain_wire in_child (text "chain_db" ∷ args) settings
      opening blank_disk (5 ∷ 1 ∷ 0 ∷ []) (verifies 1) (λ q. refl) (λ q. refl) machine-IsReliable
      machine-MakesKeys starts one_message (omega (arith, one_entry)) asks_verify
