-- ===== src/Cli/Process.antt =====
-- cli/src/Application.cpp, `main`, and src/Handler.cpp together.
use chain_db.Base.Bytes.{Bytes}
use chain_db.Platform.{Platform}
use chain_db.Platform.Wire.{Wire}
use chain_db.Cli.Ints.{Ints}
