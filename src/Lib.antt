-- ===== src/Lib.antt =====
-- microagency is a gateway between agents and the tools of upstream MCP servers. This library models
-- the parts of it that decide: who a caller is, what a caller may still spend, what is on record, and
-- what is given back to the model.
--
-- The parts and their files (paths from the repository's root):
--   Auth/Identity     internal/auth/auth.go: the key "issuer#subject" of a caller (PrincipalKey,
--                     SplitPrincipalKey and the escaping of their halves).
--   Auth/Revocation   internal/auth/revocation.go: the persistent denylist (IsRevoked, Revoke,
--                     Consume, pruneLocked, persistLocked, NewRevocationList).
--   Auth/Registration internal/auth/clientregistration.go, with the register handler of
--                     internal/auth/authserver.go: dynamic client registration, its rate windows, its
--                     caps and its reports (admitRegistrationLocked and what it calls).
--   Mcp/Packages      what internal/mcp uses of Go's packages; Mcp/Json has JSON values.
--   Mcp/Grant         internal/mcp/grant.go: the data of an operation grant; Validate has
--                     validateOperationGrant, Urls the origins and URLs, Evaluate
--                     evaluateOperationGrant with the walk of the arguments.
--   Mcp/Gateway       internal/mcp/gateway.go: the registry of upstream connections. Operations has its
--                     methods, with internal/mcp/connectionlabel.go (Labels), the mediation check of
--                     internal/mediation/mediation.go, and the commit of a sign-in in
--                     internal/mcp/userconnections.go (SelfService); Runs has them in any order. Tools is
--                     the classification of internal/mcp/autoexpand.go, Visible internal/mcp/ambiguity.go,
--                     and Invoke the gates of invokeUpstream and proxyCall.
--   Mcp/Ledger        internal/mcp/decisionledger.go: Ledger has the line and the append
--                     (appendDecisionLocked), Authorize the budgets (authorizeDecision,
--                     refuseDecision), Load the start and the operator's check
--                     (loadDecisionLedger, VerifyDecisionLedger).
--   Mcp/Audit         internal/mcp/auditlog.go: the chained log of runs (writeAuditLine, loadAudit,
--                     VerifyAuditLog, VerifyAudit).
--   Mcp/Program       internal/mcp/program.go: the broker of a governed program and its two operations
--                     (findToolsLocked, callToolLocked, deliver); Process has one request
--                     (processLocked), Serve the HTTP handler (ServeHTTP) and Stats.
--   Mcp/Inflight      internal/mcp/inflight.go: the cache of slow reads; its steps are the sections of
--                     `do` under the lock, in any interleaving.
--   Optoken           internal/optoken/optoken.go: the named operator tokens.
--   Refstore          internal/refstore/refstore.go (Handle), internal/refstore/mem.go (Mem),
--                     internal/refstore/filestore.go (File) and internal/budget/budget.go (Gate): results
--                     kept behind handles. File/Runs sets the store on disk beside the one in memory.
--   Safedial          internal/safedial: the addresses that an outbound request may reach.
--   Base              booleans, lists, byte strings and maps; Examples has the concrete inputs.
--
-- How the parts meet: an authorization is charged in the ledger before a call crosses the gateway; the
-- invocation gate of Mcp/Gateway evaluates the grant that the registry holds, charges it in that ledger and
-- only then hands the call over; the broker calls tools for a program through that gate, whose answers are
-- arguments of the broker here; the gate
-- puts a large result into the store, whose handles the broker resolves for the principal that owns
-- them; the principal is named by its key.
--
-- State is a record, and an operation takes it and returns it. Go's maps are association lists that
-- hold a key once, strings are lists of bytes, and counters are natural numbers: no counter that is
-- modelled comes near 2^63. Times are natural numbers with 0 for Go's zero time. The outcome of a
-- write to disk or to the secret store, the time, and what a random source gives are arguments of the
-- operation, and so is whether a log that is there can be opened; a line that the scanner's buffer does
-- not hold ends the reading of a log with an error, and the size of a line is a parameter. SHA-256, AES-GCM, JSON, signatures and net.IP are parameters; where a theorem needs a law of
-- theirs, it is a named hypothesis. Locks are left out: each operation runs under its component's lock
-- and is one step. No definition runs on fuel: the loops are recursions on the list that they walk; a
-- draw of a handle walks the list of draws, and is none if that list ends first.
--
-- Not modelled: what gateway.go does with a good answer of an upstream, its views for the operator and the
-- index of find_tools, the check of arguments against a schema (an argument of the gate),
-- the code and refresh flow of the authorization server, and what only does
-- input and output (the sandbox, the console, the portal, the tunnel and the command line).
pub mod Base
pub mod Auth
pub mod Mcp
pub mod Optoken
pub mod Refstore
pub mod Safedial
pub mod Examples
