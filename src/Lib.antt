-- ===== src/Lib.antt =====
-- The Go implementation of Trajectory IR, go/trajir: an append-only log of content-addressed nodes,
-- a seal-and-resume executor with a gate for side-effecting tools, and the parts around them.
--
-- The parts, and the files that model them:
--   Nodes       go/trajir/nodes/nodes.go: ValidateIDComponent, PayloadHash, NodeID, NewNode
--   Log         go/trajir/log/log.go: the table `nodes` (Log/Table), Append, ClaimToolCall, Has, Count,
--               ListNodes
--   Effects     go/trajir/effects/effects.go; Effects/Mode is go/trajir/sandbox/sandbox.go
--   Durable     go/trajir/durable/backend.go: Step, Infer, Tool over a backend, which is a record of
--               operations with a record of laws; Durable/Sqlite is durable/sqlite.go,
--               Durable/Memory is durable/memory.go
--   Resume      go/trajir/resume/gate.go and step.go; Resume/Plan is the plan's tool calls
--   Client      go/trajir/client/client.go: Project, SealDecision, ExecTool, CommitStep, RunStep
--   Redact      go/trajir/redact/redact.go; Redact/Secrets holds its two regular expressions
--   Projector   go/trajir/projector/projector.go
--   Graft       go/trajir/graft/graft.go
--   Cas         go/trajir/cas/cas.go; Cas/Objects is go/trajir/cas/s3.go
--   Tir         go/trajir/tir/tir.go: names, records and seals; Tir/Archive is the zip members and their
--               limits, Tir/Load is Load with its checks, Tir/Import is Import, Tir/Export is
--               Export, Tir/Signature and Tir/Replace are go/trajir/tir/signature.go
--   Postgres    go/trajir/postgres/log.go: the log on PostgreSQL, over the table of Log
--   Mcp         go/trajir/mcp/paths.go: the paths that the MCP server lets through
--   Base        what they share; Samples holds the concrete environment of the tests
--
-- How they interact: Resume and Client write through Log, memoize through a backend of Durable, and ask
-- Effects whether a tool is gated. Tir hashes the nodes of a package with Nodes and imports them into a
-- Log. Log builds its rows with Nodes. Graft appends to a Log. Redact and Projector work on the records
-- that a log lists.
--
-- A method that changes state is an `Action`: a function from the state to a result and the next state,
-- so what was written before a failure stays written. The state of a run is a `World`: the log's table,
-- the backend's state, and every execution of a tool body so far. Each method of a log is one step, as
-- its mutex makes it; a run may stop, or fail, at any statement, since an environment says for each SQL
-- statement whether it fails. JSON encoding, JCS, SHA-256 and the clock are functions of the environment
-- too; the zip format, ed25519 and base64 are parameters of Tir. A theorem that needs a property of one
-- of them has it as a hypothesis.
--
-- Strings are lists of bytes. Go's `int` is an integer in the source's 64-bit range: where the code adds
-- one to a sequence number the model wraps; sums of sizes, which stay far below 2^63, do not. A float64
-- is its bits. A map is a list of entries of which the first counts; the code's results do not depend on
-- the order in which Go walks a map, except where two keys of a map are equal after an encoding, which
-- the model leaves to the environment. The only fuel is the five attempts of the source in Cas, which
-- are the source's own bound.
--
-- A package's path ends in a file that is a zip archive or not; members come as archive/zip lists them.
--
-- Not modelled: opening and closing of databases and files; the check for a nil log or backend and the
-- test hook of RunStep; temporary files of the store; the creation of a package's file by Export; the
-- Temporal backend; the tools of the MCP server; the AWS adapter; demonstration programs.
pub mod Base
pub mod Nodes
pub mod Log
pub mod Effects
pub mod Durable
pub mod Resume
pub mod Redact
pub mod Projector
pub mod Client
pub mod Graft
pub mod Cas
pub mod Tir
pub mod Postgres
pub mod Mcp
pub mod Samples
