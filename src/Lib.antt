-- ===== src/Lib.antt =====
-- Hermes security skills: the policy core of the control plane and of hermes-proxy.
--
-- The Go program lets an agent act on other systems only under a policy. An operation is classified
-- by its risk; a risky one needs an approval that a person has stored, with a budget of requests and
-- an expiry; a URL must be in the scope of the case; and hermes-proxy, which sends the requests,
-- checks the scope, its own budget and the rate again for each hop, and hands out only redacted and
-- shortened responses, each with a file of evidence. All of it fails closed. The agent speaks with the
-- MCP server, which puts the parts together: a call of a tool is looked up in the capability registry,
-- its URL is checked against the scope, its case against the kill switch in the job directory, its risk
-- against the policy, and an approval is used before the request goes to hermes-proxy; the read-only
-- tools answer from the evidence that the proxy wrote.
--
-- The parts and their files:
--
--   Base        helpers: Bool tests on the native numbers, lists, `Result` for a Go function that
--               returns a value and an error, Go's int in Base/Int, strings as lists of code points
--               in Base/Text with the functions of the package strings that the code calls.
--   Risk        internal/risk/risk.go: Classify is `classify`, DefaultAction is `default_action`,
--               MaxLevel is `max_level`.
--   Approval    internal/approval/approval.go: New, IsValid, Revoke, ConsumeAt and Remaining; an
--               approval is a record, and a call returns the record after it.
--   Approval/Store   internal/approval/store.go: the approvals of all cases in one file. The file is a
--               value (absent, unreadable, not JSON, or records); Save, Load, RevokeCase, Active,
--               FindActive and Consume take it and return it. Its children are about reading, saving,
--               revoking, finding and consuming; Refinement takes ConsumeAt as its specification.
--   Scope       internal/scope/scope.go: Address has the numeric forms of IP addresses and the denied
--               blocks, Allowlist the entries (NewChecker, parseEntry), Wildcard matchWildcard, Check
--               the method Check with its loop over the entries.
--   Proxy       internal/proxycore: Headers is redact.go with sanitizeHeaders, Bundle is bundle.go,
--               Limits is limits.go, Engine is engine.go. Engine/Loop has the loop of Execute as one
--               function for each test of a round, Engine/Execute what stands before and behind the
--               loop, Engine/Create NewEngine, which puts the matcher of Scope into the engine.
--   Document    the values that internal/yamlmini parses.
--   Yaml        internal/yamlmini/yaml.go: Yaml has the lines (newParser), splitKey and parseScalar,
--               Blocks the parser itself: parseBlock, parseSeq and parseMap are a mutual block on fuel,
--               a value and the lines after it being the result; Parse is `parse_yaml_text`.
--   Policy      internal/policy/policy.go: LoadRisk, LoadLimits, Load and Evaluate.
--   Registry    internal/registry/registry.go: Load of the image manifest, Ref, Resolve, ImageOf, and
--               in Overrides LoadOverrides and ApplyOverride.
--   Capability  internal/capability/capability.go: Load, FromMap, Resolve, List and Count.
--   Files       what internal/jobs asks of the package os, over a tree of the files below one root.
--               Its Paths has Clean and Join of path/filepath, in the way of Unix.
--   Jobs        internal/jobs/jobs.go: Create, WriteTask, WriteLog, CollectResult, Cleanup, and the kill
--               switch, MarkAborted and IsAborted. A call takes the tree and returns the one after it.
--               The path of WriteLog follows `..` in the name of the log; what a path outside the
--               root of the jobs names is the argument `Away` of `write_log`.
--   Audit       internal/audit/audit.go: the log of hashed entries; Open, Append, ReadAll and Verify.
--               A write that fails leaves a part of the line in the log, cut between two characters
--               of it. Appending is about Append on a log that ReadAll accepts.
--   Events      internal/events: Events is events.go and cache.go (buildIndex with its cache, List),
--               Reading inspect.go, Comparing and Json compare.go (Compare, JSONDiff);
--               Agreement says when two records agree.
--   Mcp         internal/mcp/server.go: Checks has the checks of toolsCall in their order, Reading the
--               read-only tools, Calls toolsCall and forwardToProxy, Tools NewServer and tools/list,
--               Serving Serve and handleLine. A call takes and returns the file of the approvals, the
--               calls of the audit and the requests that went to the proxy (`World` in Mcp).
--   Memory      internal/memory: of entry.go the states, CanTransition, validate and complete, of
--               store.go SetState on one entry, with the knowledge base as a list of its files.
--
-- How it is modelled. A Go function that returns an error is a `Result`; error texts are constructors.
-- A method that changes its receiver returns the new state. A mutex makes the calls of goroutines a
-- sequence, so a history of calls is a list. What the program takes from the Go library, the disk and
-- the network is a parameter: the record `Net` for net/url and netip, `World` of the proxy for what one
-- execution meets (the parser of URLs, the clock, the rate limiter, the replies, the writing of
-- evidence), `Float`, `Codec`, `Format` for the hashes and lines of the audit log, `Disk` for the operations on
-- files that fail, `EventCodec` for JSON, SHA-256, base64 and UTF-8 of the evidence, `EvidenceDir` for
-- its files, `Moment` for what one call of the server meets, and a decoder of the lines it reads. The
-- readers of documents take their parser as an argument, so that their theorems hold for that of Yaml
-- and for each other one. The theorems hold for each value of these parameters, so also for the real
-- one.
--
-- Bounds and fuel. Numbers are whole numbers, those of JSON too; the values of the budgets lie far
-- inside Go's int. The loop of Execute has max_redirect_hops + 1 fuel, one round for each request that
-- its limit allows, and running out of it is an ending of its own, not a result. The parser of Yaml has
-- four times the number of the lines and four more, and Yaml/Blocks/Fuel shows that this is enough. All
-- else recurs on the structure of its data.
--
-- Not modelled: JSON text, the descriptions and types in the schemas of tools, file permissions and
-- locks, TLS, latencies and the texts of errors; of the proxy the interception of TLS
-- (internal/proxycore/mitm.go); of the knowledge memory the Markdown of an entry, the ingest, the
-- retention and the search; the credentials, the Docker adapter and the benchmark; the commands under
-- cmd and the wrappers under runtimes.
pub mod Base
pub mod Risk
pub mod Approval
pub mod Scope
pub mod Proxy
pub mod Document
pub mod Policy
pub mod Registry
pub mod Audit
pub mod Capability
pub mod Files
pub mod Jobs
pub mod Yaml
pub mod Events
pub mod Mcp
pub mod Memory
