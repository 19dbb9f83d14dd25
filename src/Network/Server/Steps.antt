-- ===== src/Network/Server/Steps.antt =====
-- Server.cpp: what can happen to a server, one step after the other. `stop` may run before the test
-- of the loop, and while its body runs.
use chain_db.Base.{◌≡◌, Option}
use chain_db.Base.Bytes.{Bytes}
use chain_db.Base.Action.{Run}
use chain_db.Network.Server.{Server, Turn, looping, polling, stop, test, turn}

module _ {World : Type 0} (handler : Bytes → World → Run (Option Bytes) × World) where
  pub data Step : Server World → Server World → Type 0 where
    stops : (s : Server World) → Step s (stop handler s)
    tests : (s : Server World) → s.phase ≡ looping → Step s (test handler s)
    turns : (s : Server World) (t : Turn) → s.phase ≡ polling → Step s (turn handler t s)

  pub data Reach (s : Server World) : Server World → Type 0 where
    here : Reach s s
    next : {t u : Server World} → Reach s t → Step t u → Reach s u
