-- ===== src/Lib.antt =====
-- chain-registry-sentinel probes the endpoints that the Cosmos chain registry lists, keeps a streak of
-- failures per endpoint, and opens pull requests against the registry: to remove endpoints that stay
-- dead, to fix wrong IBC denom hashes, and to mark dead chains as killed.
--
-- A run builds jobs from the registry (Registry, Sentinel/Jobs), probes each one and evaluates two
-- checks on what the probe returned (Checks, Sentinel/Probe), folds the results into the state of the
-- chains (State, Sentinel/Streaks), advances the streaks of chains that look dead (Sentinel/ChainDeath)
-- and opens the pull requests (Sentinel/Flows). The detection gives the flows the chains to leave out.
-- The opening of one pull request (Github) edits a registry file and calls the GitHub API; the report
-- of the run (Report) is computed from the same results.
--
-- Which file models what:
--   Base            Go integers, texts, maps, times, panics and sorting
--   Registry        internal/registry/chain.go: Chain and Endpoint
--   Checks          internal/checks: FailureClass and Classify are classify.go, Result is check.go,
--                   Rpc, Rest, Grpc, GrpcWeb, Evm and Wss the Evaluate methods of the file of that
--                   name, IbcHash ibc_hash.go and internal/registry/assetlist.go; Http is http.go,
--                   Fetch the probes of rpc.go, rest.go and evm.go, Fetch/Framed that of grpc_web.go,
--                   Fetch/Socket that of wss.go, Fetch/Dialing and GrpcTarget those of grpc.go, and
--                   NodeInfoWire the decoding of its response
--   State           internal/state/state.go: EndpointKey, Update, Prune; State/Files is Load and Save
--   Sentinel/Jobs, Sentinel/Probe      cmd/sentinel/probe.go; Probe/Run is runProbe
--   Sentinel/Workers                   cmd/sentinel/probe.go: runWorkers, as the steps of its goroutines
--   Sentinel/Summary                   cmd/sentinel/probe.go: collectResults, and cmd/sentinel/summary.go
--   Sentinel/Streaks, Sentinel/Startup cmd/sentinel/main.go: updateState; loadStateMap and
--                   missingFromRegistry
--   Sentinel/Evidence                  cmd/sentinel/chaindeath.go: buildStatusEvidence
--   Sentinel/ChainDeath, Flows/Status  cmd/sentinel/chaindeath.go
--   Flows/Endpoint, Flows/OpenPrs, Flows/Dispatch  cmd/sentinel/prflow.go
--   Flows/Hash                         cmd/sentinel/hashpr.go
--   Github/Call, Github/Client         internal/github/client.go
--   Github/Documents                   what internal/github/pr.go reads of registry files
--   Github/EditChain, EditAssets, Body, Open  internal/github/pr.go: EditChainJSON, EditAssetListJSON
--                   and EditChainStatus, the texts, and OpenChainPR, OpenHashPR and OpenStatusPR
--   Report/Record                      internal/report/record.go
--   Report/RunFile                     internal/report/jsonl.go
--   Report/Aggregate, Report/Tables    internal/report/render.go: aggregate, and what its tables decide
--   Examples        a small registry, at which the theorems are applied
-- Each module's children prove what they are named for.
--
-- Conventions. A function that changes a map takes and returns it. A Go map is an association list,
-- its iteration order that of the list. `int` is an integer whose increment wraps at 2^63. Times and
-- durations are nanoseconds, the zero time is 0, and the difference of two times saturates. A panic is
-- `none`. The loops run over lists, but for the two that decode a protobuf message: they have as many
-- turns as the message has bytes, and Checks/NodeInfoWire/Total shows that these are enough where a tag
-- takes a byte.
--
-- GitHub is a state with a function that answers each request; an action of the client takes the state
-- and the requests sent so far, and returns a value or an error beside them.
--
-- A record file is read by a scanner whose buffer has the 1 MiB of `scan_buf_size`: the round trip of a
-- run asks for lines that fit it.
--
-- The workers of a run are a relation on the jobs that are left, the workers, and the results that were
-- sent: a step is one goroutine's, and the theorems are about all sequences of steps. The probe of a job
-- sees a state of the network of its own.
--
-- Not modelled: HTTP, gRPC and WebSocket below one request and answer, which are arguments of the probes,
-- files below one operation on them (registry files are documents that Github/Documents describes, state
-- and record files are on a disk that State/Files and Report/RunFile describe), the layout of what is
-- printed, logs and the parsing of flags. The flows take the answer of an opening, EndpointDomain and
-- EndpointHost as arguments. SHA-256, JSON, protowire and the conversions of numbers, times and addresses
-- are arguments.
pub mod Base
pub mod Registry
pub mod Checks
pub mod State
pub mod Sentinel
pub mod Github
pub mod Report
pub mod Examples
