-- ===== src/Lib.antt =====
-- Ribat decides whether a container image may be pulled: it resolves a tag to a digest, quarantines
-- digests that it has not known for long enough, and honours freezes, approvals, bypasses and cosign
-- signatures. This library models the packages below internal/ and the command line over them,
-- cmd/ribat/main.go.
--
--   Base             lists, integers, strings as lists of code points, Go's value-or-error results
--   Regex            the regular expressions that the code hands to `regexp`: a matcher by derivatives,
--                    and in Regex/Lang the texts that it accepts
--   Image            internal/image/reference.go: ParseReference and the functions that it calls
--   Policy           internal/policy: the types of config.go; below it Validate (config.go, validate),
--                    Reader (config.go, Load and yamlPolicyParser, on the lines of a file), Duration
--                    (duration.go, ParseDuration, and String in Duration/Prints) and Matcher (matcher.go)
--   Time             time.Time and time.Duration in nanoseconds, and the columns in seconds
--   Audit            internal/audit/logger.go: the events and Logger.Record
--   Store            internal/store/sqlite.go: the tables (Rows), the world that a method runs in
--                    (World), one module per table or pair of tables with its statements, Export
--                    (ExportState and ImportState over Tables, the INSERT OR REPLACE of a row with its
--                    id), and in Invariant what holds of the tables between two calls
--   Cosign           internal/verify/cosign.go: the arguments of the command, its result, the cache key
--   Engine           internal/quarantine/engine.go: the engine, Verification (verifyCosign and
--                    allowWithVerification) and Decide (Decide and decideDigestPinned)
--   Authz            internal/authz/server.go: which requests are pulls; below it Messages
--                    (decisionMessage) and Server (handleAuthZReq over the engine)
--   Registry         internal/registry/resolver.go: headers, manifests and blobs; below it Exchange (the
--                    requests sent, the answers and the libraries), Challenge (parseBearerChallenge)
--                    and Resolver (Resolve, FetchManifest and FetchBlob)
--   Proxy            internal/proxy/server.go: paths and images; below it Server (handleV2 and its
--                    handlers over the engine and the map of allowed blobs)
--   Commands         cmd/ribat/main.go: what a run has around it and what it ends with; below it Args (the
--                    loops over the arguments), Configured and State (LoadFile and
--                    openConfiguredState), Print, Grants (runApprove, runBypass, runFreeze), Queries
--                    (runInspect, runPolicyCheck, runDecide, runStatus), AuditLog (runAudit), Transfer
--                    (runExportState, runImportState), Servers (runAuthz, runProxy and the
--                    ListenAndServe of both packages), Version (internal/version/version.go) and Run
--                    (run); Keeps, Gives and Calm carry a relation, a fact about results and a run
--                    without failures through the commands
--   Tests            runs at concrete inputs
--
-- A method of the store or the engine is a function from a world to a result and a world. The world
-- holds the tables, the audit log and `faults`, the outcomes of the external calls to come: a statement
-- or a write looks at the next outcome, and fails with its error or goes on. So a theorem about every
-- world is one about every pattern of failures, and `faults ≡ []` says that no call fails. A statement
-- that fails changes no table; what a method wrote before stays written, as in the source. The
-- resolver, the verifier, the clock, SHA-256, the cosign command, time.ParseDuration
-- and the decoding of URLs and JSON are parameters: functions of which nothing is assumed.
--
-- A command is a function from a Machine, its arguments and a world to an Outcome (exit code, lines on
-- stdout, the problem reported on stderr) and a world. The Machine holds the files, the environment,
-- the clock and the libraries of one run. The tables of the world are those of the one state file; a
-- state in :memory: is empty at the start of a run and gone at its end (with_state). A server is a
-- sequence of requests between its set-up and its end, each with the Machine as it is at that time.
--
-- Engine/Decide/Permitted is the specification: a Boolean function of the tables and of what the
-- parameters answer, with no sequence of steps in it. Engine/Ends and Store/World/Runs are the families
-- by which the steps are shown to refine it; Store/World/Keeps is the interface by which a relation that
-- each statement keeps is carried through all of Decide.
-- Policy/Matcher/Rules, Authz/Server/Guarded and Commands/AuditLog/Wanted describe by relations which
-- policy applies, which images a request demands and which events are asked for.
--
-- No definition needs fuel: the loops recurse on their lists. Strings are code points, where the source
-- has bytes; the parsers look at ASCII characters only. Integers are 64 bits where the source computes
-- with them (Base/Int: wrap64 for the product of ParseDuration, clamp64 for the difference of two
-- times); a point in time has no bound, and the id of a row is a natural number, as AUTOINCREMENT gives
-- it: an import with a negative id has no counterpart here. After a commit that fails, the next outcome
-- tells whether the database has undone the transaction (Store/Export/Import). Concurrent requests are not modelled: a call of Decide runs
-- alone. Not modelled: sockets and the framing of HTTP, writeJSON, signals and Shutdown, and the
-- execution of the schema in Migrate, which are calls of the system and of libraries.
pub mod Audit
pub mod Authz
pub mod Base
pub mod Commands
pub mod Cosign
pub mod Engine
pub mod Image
pub mod Policy
pub mod Proxy
pub mod Regex
pub mod Registry
pub mod Store
pub mod Tests
pub mod Time
