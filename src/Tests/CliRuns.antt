-- ===== src/Tests/CliRuns.antt =====
-- The theorems on cli/src/Application.cpp: a chain is verified, and a server with a password is asked whether
-- it is there.
use chain_db.Base.{◌≡◌, refl, true, List, [], ◌∷◌}
use chain_db.Base.Bytes.{Bytes, text}
use chain_db.Base.Action.{returned}
use chain_db.Handler.{handle_message, make_status, not_authorized}
use chain_db.Cli.{new_application, run}
use chain_db.Cli.Conversation.{ask, heard, ping-refused}
use chain_db.Storage.Manager.Runs
use chain_db.Tests.Libraries.{plain_sha, first_bytes}
use chain_db.Tests.Machine.{machine, machine-IsPlatform, test_dir, used_disk}
use chain_db.Tests.Wires.{short_wire, short_wire-IsWire}

abbrev password_hash : Bytes
password_hash = first_bytes (text "EMPTY_SALT/pw")

abbrev args : List Bytes
args =
    text "--verify-chain"
    ∷ text "true"
    ∷ text "--chain-id"
    ∷ text "1"
    ∷ text "--password"
    ∷ text "pw"
    ∷ []

ping-refused_example :
    run plain_sha short_wire
      (ask (handle_message machine short_wire test_dir (text "pw")))
      (record new_application { is_ping_request = true; password = text "pw" })
      used_disk
    ≡ (
      heard short_wire
          (returned (make_status machine short_wire not_authorized (text "No authorization data"))),
      used_disk,
    )
ping-refused_example =
    ping-refused machine short_wire machine-IsPlatform test_dir plain_sha
      (record new_application { is_ping_request = true; password = text "pw" }) (text "pw") []
      used_disk short_wire-IsWire (λ e. cc) refl refl
