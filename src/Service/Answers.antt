-- ===== src/Service/Answers.antt =====
-- src/ChainDB.cpp, src/Network/Server/Server.cpp, src/Handler.cpp and src/Storage/Manager.cpp
-- together: the answers of the service.
use chain_db.Base.{
  suc, ◌^◌, ◌<◌, ◌≡◌, sym, subst, ap, ◌∙◌, false, none, List, [], ◌∷◌, length, arith,
}
use chain_db.Base.Bytes.{Bytes}
use chain_db.Platform.{Platform, IsPlatform, IsReliable, MakesKeys}
use chain_db.Platform.Wire.{Wire}
use chain_db.Storage.Manager.Runs.{Call, target}
use chain_db.Storage.Manager.Reports.{reports, Returns}
use chain_db.Storage.Manager.Ledger.{empty_ledger, perform_all, allows}
use chain_db.Storage.Manager.Ledger.Reports.{run-reports, run-Returns}
use chain_db.Handler.Requested.{message_calls, session_calls}
use chain_db.Handler.Reported.{Tells, handle_message-Reported}
use chain_db.Network.Server.{Server, Opening}
use chain_db.Network.Server.Steps.{Reach}
use chain_db.Network.Server.Transcript.{requests}
use chain_db.Service.{ChainDb, Forked, ready, initialize, service_handler, run}
use chain_db.Service.Chains.{initialize-Untouched, served_world}

module _ (P : Platform) (L : IsPlatform P) (W : Wire) where
  -- When neither the disk nor a library fails and every random private key is one: once the
  -- service is started by `initialize` with any arguments on a disk without databases, none of
  -- them open, then in every state that its server reaches after fewer than 2^64 - 1 messages,
  -- a message that asks for a call of the manager is answered with a response whose status is
  -- that of success exactly if the ledger of the messages before allows the call: a chain is
  -- created where there is none, a block is read by a number from 1 to the last, removing
  -- always succeeds, and everything else asks for a chain that is there.
  pub service-Tells :
      (forked : Forked) (argv : List Bytes) (c : ChainDb) (o : Opening) (w : P.World) (msg : Bytes)
      (call : Call) {s : Server P.World}
      → ((q : Bytes) → L.engine.content w q ≡ none)
      → ((q : Bytes) → L.engine.locked w q ≡ false)
      → IsReliable P L
      → MakesKeys P
      → (initialize P forked argv w).0 ≡ ready c
      → Reach (service_handler P W c) (run P W c o (initialize P forked argv w).1) s
      → suc (length s.log) < 2 ^ 64
      → message_calls P W c.storage_dir c.password msg ≡ call ∷ []
      → Tells P W c.storage_dir (service_handler P W c msg s.world).0 (
          allows call (
            perform_all
              (session_calls P W c.storage_dir c.password (requests s.log))
              empty_ledger
              (target call)))
  service-Tells forked argv c o w msg call {s} blank free S K started reach room asks =
      let calls = session_calls P W c.storage_dir c.password (requests s.log) in
      let kept = initialize-Untouched P L forked argv w in
      let v = (initialize P forked argv w).1 in
      let (few, now) = served_world P L W c o v reach in
      let blank' : (q : Bytes) → L.engine.content v q ≡ none = λ q. kept.content_eq q ∙ blank q in
      let free' : (q : Bytes) → L.engine.locked v q ≡ false = λ q. kept.locked_eq q ∙ free q in
      let told = (handle_message-Reported P W c.storage_dir c.password msg).at call s.world asks (
        subst (Returns P c.storage_dir call) (sym now)
          (run-Returns P L S K c.storage_dir calls call v blank' free' (omega arith))) in
      subst (Tells P W c.storage_dir (service_handler P W c msg s.world).0)
        (ap (reports P c.storage_dir call) now
          ∙ run-reports P L S K c.storage_dir calls call v blank' free' (omega arith))
        told
