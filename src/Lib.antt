-- ===== src/Lib.antt =====
-- sum is a database of float vectors (records) and of the JavaScript procedures over them (oracles),
-- served over gRPC by a node, or by a master that spreads the records over nodes.
--
-- The parts, from the repository's root, and the files that model them:
--   proto/sum.proto                 Proto: the messages as records; a nil slice or map is `none`.
--   node/storage/driver.go and the two drivers
--                                   Storage/Driver: the interface `Driver`, `record_driver`, `oracle_driver`.
--   node/storage/saver.go, loader.go
--                                   Storage/Files: `flush` (Flush), `load_file` (Load), `list_path` (ListPath).
--   node/storage/index.go           Storage/Index: the struct Index and one function for each method.
--   node/storage/records.go, oracles.go
--                                   Storage/Meta: the index by meta name and value; Storage/Records: the
--                                   methods of Records, LoadRecords and LoadOracles.
--   node/service/records.go, oracles.go
--                                   Node/Paging: the pages of ListRecords and ListOracles.
--   node/service/compiler.go        Node/Compiler: `compile`, `validate` and the struct `Compiled`.
--   node/service/compiled_exec_pool.go
--                                   Node/Pool: the pool of interpreters.
--   node/service/compiled.go        Node/Run: one run of a compiled oracle.
--   node/service/service.go, cache.go
--                                   Node/Service: the state and New; Node/Payload: BuildPayload, with the
--                                   receiver of cmd/sumcli/handlers/call_oracle.go; Run stands in Node/Oracles.
--   node/service/oracles.go, records.go
--                                   Node/Oracles and Node/Records: the handlers.
--   node/wrapper/context.go         Wrapper/Context: the error state of one run.
--   node/wrapper/record.go, records.go
--                                   Wrapper/Records: the records as the oracles see them;
--                                   Wrapper/Distances: their products and distances.
--   node/backend                    Backend: the two implementations and Select.
--   node/service/info.go            Node/Info: Info, that of the node and that of master/service.go.
--   master/ast_raccoon.go           Master/Raccoon: the analysis of an oracle; Master/Raccoon/Patch: PatchCode.
--   master/mux_service.go, node.go, config.go
--                                   Master/State: the service and its nodes; Master/Configuration: its start
--                                   and its file.
--   master/error_responses.go       Master/Replies. master/paralleliser.go is Master/Parallel.
--   master/mux_oracles.go           Master/Oracles. master/oracle_stealer.go is Master/Stealer.
--   master/balancer.go              Master/Balancer. master/mux_nodes.go is Master/Nodes.
--   master/mux_records.go           Master/Records: one record at a time; Master/Batch: many;
--                                   Master/Listing: the pages.
--   master/mux_runner.go            Master/Merger: merge; Master/Runner: Run.
--   cmd/sumcli/main.go              Cli/Session: the commands of -eval and of the terminal.
--   cmd/sumcli/handlers             Cli/Commands: the handlers without their callbacks; Cli/Records,
--                                   Cli/Oracles, Cli/Nodes and Cli/Info: the callbacks; Cli/Text: what they
--                                   parse and print; Cli/Dispatch: the table and Dispatch.
--   cmd/sumd/main.go                Daemon: the start and the cleanup of the server.
--   cmd/sumcluster/main.go          Cluster: the processes of a cluster and the file for its master.
--
-- A handler takes the Service and a message and returns the Service and the response; it calls the
-- storage's methods, and those of oracles keep the cache of compiled oracles. Run takes the compiled
-- oracle from the cache, runs it with an interpreter of its pool and puts both back. In Node/Pool/Exclusive
-- goroutines are the steps of a relation; elsewhere one call runs at a time, and a call that would wait
-- or whose oracle never ends is `none`. Run of a node answers with a response and an error, or panics.
--
-- The master is a Service and the world behind its connections, which a handler takes and returns. A node
-- is the place of its pointer in the list of nodes. The workers of doParallel run whole, one after the
-- other, in an order that the world chooses, and so does their sending; a call that a worker cancels is
-- one that answers with an error. The deferred calls of Run are made in their order, so that its cleanup
-- calls `cancelled_delete_oracle` of the Network. A goroutine that writes the configuration or updates a
-- status is run at the latest when its handler has returned.
--
-- State is passed on explicitly: a method takes the index and returns it beside its results. The
-- index has the disk as a field, since its folder is its own; the locks make every method one step.
-- Errors are values of Storage/Files.Error; a Go panic is the missing result `none`,
-- or `panicked` of Node/Interpreter. Maps are
-- association lists of Prelude/Map, and where the order of an iteration shows, the order is an
-- argument. Identifiers are numbers below 2^64 with `% 2 ^ 64` written out. Prelude has the Boolean
-- tests, the lists, the maps and the decimal numerals that the parts share.
--
-- Taken from outside the repository, as the record `Env` of Storage/Env: the file system, the paths and
-- the protobuf encoding, with the documented behaviour that the theorems use in `EnvLaws`.
-- The interpreter (otto) and encoding/json are the record `Interpreter` of Node/Interpreter, compress/gzip
-- is `Gzip` of Node/Payload, and `RangeLaws` says that an iteration over a map meets each entry once.
-- Tests/Memory has an instance, a file system in memory, and Tests the theorems applied to it.
--
-- A callback of the client is an action of Cli/Console on the terminal, the services and their answers;
-- it ends with a value, an error, os.Exit or a panic, and `do` goes on after a value alone. The services are
-- the record `Client`; Cli/Oracles/Commands puts the handlers of a node behind it. Cli/Console/Soundness
-- and Cli/Console/Triples have the rules by which statements about actions are put together.
--
-- Those of the client: `Tools` of Cli/Console (regexp, strconv, the tables and the texts, the files, gzip),
-- with what the client relies on in `ToolsLaws`. Those of the cluster runner: `Host` (folders, the start
-- of processes) and the `Network` of the master. Those of the backends: `Floats` (the operations of float32 and float64)
-- and blas32.Dot of gonum. Those of the server: `Machine` of Daemon.
--
-- Those of the master: `Network` of Master/Network (the gRPC clients, the scheduler, the file of the
-- nodes), `Parser` of Master/Raccoon (otto's parser and walk, the JSON of a record), `MergerVm` of
-- Master/Merger (the virtual machine of a merger function), `Runtime` of Master/Runner (compress/gzip,
-- encoding/json).
--
-- Most loops are structural recursion, over lists or over the number of rounds left. On fuel are
-- readMetas and the session of the client, which take an event of the terminal every turn. A terminal gives
-- finitely many events and then its closing for ever, io.EOF or another error; the number of events and one
-- more is enough for readMetas, and for the session where the closing is io.EOF, while it goes on for ever
-- at one that is broken. And waitClient of the cluster runner polls for ever where a node never answers,
-- so that it is `waiting` at the end of the fuel.
--
-- Not modelled: of cmd/sumd/main.go the log lines, the ticker of statsReport and Serve of grpc;
-- timeouts; the prompts and the completion of the terminal; the output of the processes of a cluster
-- and one that ends early; and the aliasing of messages between a caller and the index.
pub mod Prelude
pub mod Proto
pub mod Storage
pub mod Node
pub mod Backend
pub mod Wrapper
pub mod Master
pub mod Cli
pub mod Cluster
pub mod Daemon
mod Tests
