-- ===== src/Lib.antt =====
-- ChainDB keeps chains of signed blocks in key-value databases, one database for each chain, and
-- serves them over a socket. The service reads its settings from the command line, seeds the random
-- generator and starts the server. A message that the server receives reaches the handler, which tests
-- the password and calls the manager; the manager hashes and signs a new block and has the chain store
-- it; the chain packs it and writes it, with the header that counts the blocks, in one batch to its
-- database. The command-line client makes a request of its arguments, sends it and waits for the reply.
--
-- The files, and the code that each is about:
--   Platform         what lies outside the repository, as parameters: OpenSSL (Sha, Rng),
--                    libsecp256k1 (Curve), LevelDB or RocksDB (Engine), protoc's code for
--                    proto/storage.proto (Codec) and proto/ipc.proto (Wire). A record of operations,
--                    and beside it a record of what their documentation promises. `IsReliable` and
--                    the `IsTotal` records say that nothing fails, and `MakesKeys` that a random key is
--                    a key; they are asked for where an operation is to succeed, and not where it
--                    must not go wrong.
--   Crypto           src/Crypto and include/Crypto: `Sha256` is SHA256.cpp (`get_hash` is `getHash`,
--                    `get_hash_n` is `getHashN`), `Secp256k1` is ECDSA.cpp, `Random` is Random.cpp,
--                    and `Data` the sizes of the byte arrays.
--   Storage/Storage  src/Storage/Storage.cpp. A database handle is `none` or open; `opened` is the
--                    shape of the methods that open a database and leave it to the destructor.
--   Storage/Block    src/Storage/Block.cpp: the container, `pack` and `unpack`.
--   Storage/Chain    src/Storage/Chain.cpp, method by method. `Holds` says which header and which
--                    list of blocks a database holds; the theorems on the methods are stated of it.
--   Storage/Manager  src/Storage/Manager.cpp, method by method. `Linked` says what a valid chain is,
--                    `Runs` is about sequences of calls, and `Ledger` is the abstract view: for each
--                    chain its data and those of its blocks; `Ledger/Failures` is that view where the
--                    disk or a library fails.
--   Handler          src/Handler.cpp: the password test, the dispatch, and one function for each
--                    request. `Requested` is the call of the manager that a message asks for, `Asked`
--                    when it is made, and `Reported` what the answer says of it.
--   Network/Server   src/Network/Server/Server.cpp. `test` is the test of the loop, and `turn` its
--                    body, from what the calls of ZeroMQ return in it; `Steps` is the relation of
--                    these two and of `stop`, which runs on another thread before the test or while
--                    the body runs, and the states that are reached by it. The log of the handled
--                    messages belongs to the model; `Log` says which message a round is given, and
--                    `Transcript` and `Replies` what becomes of it.
--   Network/Client   src/Network/Client/Client.cpp: `sendMessage`, from what the calls of ZeroMQ
--                    return.
--   System           src/System/IApplication.cpp: `parseArgs`. A pointer to a setting is the function
--                    that writes to it. `Stoi` is `std::stoi`.
--   Service          src/ChainDB.cpp, src/Main.cpp and src/System/IService.cpp: the settings, the
--                    start of the service and the status of its process. `Chains`, `Ledger` and `Answers`
--                    put the service, the server, the handler and the manager together.
--   Cli              cli/src/Application.cpp: the commands of the client and its `main`. `Keys`
--                    are its arguments, `Settings` what they set, and `Chosen` the command.
--                    `Conversation` and `Process` put the client and the handler together.
--   Base             helpers: lists and bytes over the native numbers, decimal numbers, integers,
--                    actions.
--   Tests            an engine, libraries and messages that run, and the theorems applied to them.
--
-- How the code is modelled. A method that changes the disk or the random generator is a function of
-- the world that returns the world; a null pointer and `false` are `none`. A call that can read
-- through a null pointer or loop forever returns a `Run`. A `size_t` is a number below 2^64, and an
-- addition on it is written with `% 2 ^ 64`; an `int` is an integer, and its conversion to `size_t` is
-- `to_size_t`. The C++ field and method names are kept; a field named `data` is `payload` here, since
-- `data` is a reserved word. What ZeroMQ, `fork` and the poll of a socket return is an argument, so
-- that a theorem holds for all of it: no assumption is made on when a socket reports a message.
--
-- Bounds and fuel. The loop of `getBlocks` runs on fuel, the header's index and one more; running out
-- is the result `endless`. That is enough for an index below 2^64 - 1, since every round adds one to
-- the counter. (At an index of 2^64 - 1 the counter wraps around, and the loop of the code would not
-- end.) `to_string` has one more round than the number, and every round divides it by ten.
--
-- Not modelled: the log, in which the client also prints the responses, the profiler, the help text,
-- the signal handlers and the redirection of the standard streams of a daemon. A message is the list
-- of its bytes (Message.cpp). The clearing of memory in a destructor of `Data` has no effect on a
-- result. The wrap of `size_t` is not modelled for lengths of strings.
pub mod Base
pub mod Platform
pub mod Crypto
pub mod Storage
pub mod System
pub mod Network
pub mod Handler
pub mod Service
pub mod Cli
pub mod Tests
