-- ===== src/Tests/SystemRuns.antt =====
-- The theorems on src/System/IApplication.cpp, with the settings of the service and of the client.
use chain_db.Base.{inl, inr, refl, ◌≡◌, ◌↔◌, List, [], ◌∷◌}
use chain_db.Base.Bytes.{Bytes, text}
use chain_db.System.Arguments.{accepted, parse_args}
use chain_db.System.Arguments.Accepts.{WellFormed, parse_args-WellFormed}
use chain_db.Service.{instance_settings, handlers}
use chain_db.Cli
use chain_db.Cli.Keys.{Commanded}
use chain_db.Cli.Settings.{settings_of, initialize-settings}
use chain_db.System.Stoi.{stoi, read_digits}

abbrev args : List Bytes
args = text "--port" ∷ text "-7" ∷ []

parse_args-WellFormed_example :
    ((parse_args handlers (text "chain_db" ∷ args) instance_settings).0 ≡ accepted)
    ↔ WellFormed handlers args
parse_args-WellFormed_example =
    parse_args-WellFormed handlers (text "chain_db") args instance_settings

-- The last value of a key counts.
abbrev twice : List Bytes
twice = text "--port" ∷ text "7" ∷ text "--add-block" ∷ text "true" ∷ text "--port" ∷ text "9" ∷ []

twice-Commanded : Commanded twice
unfolding stoi read_digits
twice-Commanded = (
  inr (inl refl, (_, refl)),
  (inl (inr (inr (inr (inr (inl refl))))), (inr (inl refl, (_, refl)), tt)),
)

initialize-settings_example :
    Cli.initialize (text "chain_db_cli" ∷ twice) Cli.new_application ≡ (accepted, settings_of twice)
initialize-settings_example = initialize-settings (text "chain_db_cli") twice twice-Commanded
