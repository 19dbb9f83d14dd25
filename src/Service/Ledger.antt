-- ===== src/Service/Ledger.antt =====
-- src/ChainDB.cpp, src/Network/Server/Server.cpp, src/Handler.cpp and src/Storage/Manager.cpp
-- together: the service as a ledger.
use chain_db.Base.{ℕ, suc, ◌^◌, ◌<◌, ◌≡◌, sym, subst, ◌∙◌, false, none, List, length, arith}
use chain_db.Base.Bytes.{Bytes}
use chain_db.Platform.{Platform, IsPlatform, IsReliable, MakesKeys}
use chain_db.Platform.Wire.{Wire}
use chain_db.Storage.Manager.Ledger.{empty_ledger, perform_all}
use chain_db.Storage.Manager.Ledger.Reads.{Readable, run-Readable}
use chain_db.Handler.Requested.{session_calls}
use chain_db.Network.Server.{Server, Opening}
use chain_db.Network.Server.Steps.{Reach}
use chain_db.Network.Server.Transcript.{requests}
use chain_db.Service.{ChainDb, Forked, ready, initialize, service_handler, run}
use chain_db.Service.Chains.{initialize-Untouched, served_world}

module _ (P : Platform) (L : IsPlatform P) (W : Wire) where
  -- When neither the disk nor a library fails and every random private key is one: once the
  -- service is started by `initialize` with any arguments on a disk without databases, none of
  -- them open, then in every state that its server reaches after fewer than 2^64 - 1 messages,
  -- for each chain number, the manager reads back what the ledger says that is kept of the
  -- calls that the messages ask for: nothing can be read of a chain that is not in the ledger,
  -- and of one that is there the header with its data and the number of its blocks, exactly the
  -- blocks with its data in order, and `verifyChain` accepts it.
  pub service-Readable :
      (forked : Forked) (argv : List Bytes) (c : ChainDb) (o : Opening) (w : P.World) (id : ℕ)
      {s : Server P.World}
      → ((q : Bytes) → L.engine.content w q ≡ none)
      → ((q : Bytes) → L.engine.locked w q ≡ false)
      → IsReliable P L
      → MakesKeys P
      → (initialize P forked argv w).0 ≡ ready c
      → Reach (service_handler P W c) (run P W c o (initialize P forked argv w).1) s
      → suc (length s.log) < 2 ^ 64
      → Readable P L c.storage_dir
          (perform_all
            (session_calls P W c.storage_dir c.password (requests s.log))
            empty_ledger
            id)
          id
          s.world
  service-Readable forked argv c o w id {s} blank free S K started reach room =
      let calls = session_calls P W c.storage_dir c.password (requests s.log) in
      let kept = initialize-Untouched P L forked argv w in
      let (few, now) = served_world P L W c o (initialize P forked argv w).1 reach in
      subst (Readable P L c.storage_dir (perform_all calls empty_ledger id) id) (sym now) (
        run-Readable P L c.storage_dir S K calls (initialize P forked argv w).1 id
          (λ q. kept.content_eq q ∙ blank q) (λ q. kept.locked_eq q ∙ free q) (omega arith))
