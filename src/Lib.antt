-- ===== src/Lib.antt =====
-- OpenAgentLock, its command line: the hook shims, the MCP proxy, the file operations of an
-- install, the client of the control plane and the signers, as functions on explicit state.
--
-- An agent harness runs a shim before a tool call, or speaks to an MCP server through the proxy.
-- Both ask the daemon for a verdict over HTTP and let the call pass or block it. The install
-- commands get a plan from the daemon by the client of the control plane and run it on the files
-- of the host. A session starts with an attestation, a canonical text that a signer signs; its
-- key stands in a file of the home. The rules commands keep clones of registries, and put the
-- gates of their rules into the daemon or into the file of a repository.
--
-- The files and their code:
--   Common       texts as lists of UTF-16 code units, results, bits, JSON values
--   Daemon       the lines that cli/src/commands/hook-*.ts and mcp-proxy.ts share: the URL of the
--                daemon, and the parts of its answers (Daemon/Url, Daemon/Decision)
--   Hooks        cli/src/commands/hook-claude-code.ts, hook-codex.ts, hook-cursor.ts and
--                hook-gemini.ts: run_shim is the program that they share, a Shim what differs
--                (Hooks/Shims); Hooks/Laws holds for every shim, Hooks/Harnesses for the four
--   Mcp          cli/src/commands/mcp-proxy.ts: parseProxyArgs (Mcp/ProxyArgs), LineBuffer
--                (Mcp/LineBuffer) and runMcpProxy (Mcp/Proxy), whose event loop is step, a function
--                from an event and a state to a state; Mcp/Proxy/Wire reads and writes messages; and
--                cli/src/commands/mcp-server.ts (Mcp/Server): dispatch for a message, feed for a chunk
--   Install      the flags and the shell quotes of cli/src/commands/install.ts
--   InstallFs    cli/src/util/install-fs.ts: executeFileOps and executeUninstallOps, on a disk that is
--                a record of operations (InstallFs/Disk) with the laws that POSIX documents;
--                checkSafeTarget and readExistingFiles (InstallFs/Targets); InstallFs/Memory is a
--                disk with these laws
--   Api          apiClient of cli/src/util/api.ts: one function for each method (Api/Endpoints), and
--                the token and the capabilities that the client keeps (Api/Client); readSSE reads
--                the stream of the ledger's entries (Api/Sse), on fuel that is the length of the text
--   Signer       cli/src/signer/canonical.ts with types.ts (Signer/Canonical), and totp.ts with its
--                base32 encoder (Signer/Base32, Signer/Totp), software.ts (Signer/Software) and
--                keychain.ts (Signer/Keychain, with the hexadecimal text of bytes)
--   Detect       cli/src/detect/agentlock-state.ts: which configurations are wired to the daemon
--   Doctor       cli/src/commands/doctor.ts: the checks, their summary and the exit code
--   Dashboard    ledgerEntryDisplay.ts, eventRulePreset.ts and filters.ts of
--                control-plane/dashboard-ui/src/lib: what the web dashboard reads off the ledger
--   Session      mintAttestedSession of cli/src/util/session-mint.ts, and runSessionCreate,
--                runSessionRotate and runSessionEnd of cli/src/commands/session.ts, over the signers,
--                the attestation and the client
--   Rules        cli/src/commands/rules.ts: the registries (Rules), the rules in them and what a
--                specification means (Rules/Listing), deriveRegistryId (Rules/Names), the search
--                (Rules/Search) and what is installed (Rules/Gates)
--
-- Parameters are what is not in the repository: JSON.parse and JSON.stringify, fetch, node:fs,
-- the child process, HMAC, Argon2id, SHA-256, Ed25519, the URL encoder and parser, YAML, git, the
-- program security, and the texts of times. A text is its code units, a byte a number below 256,
-- and the time a whole number of seconds. String(v) throws for an object with a property
-- toString, which JSON can give: js_string.
--
-- Fuel stands in three places: the loops of the line buffer and of the server have the length of
-- the buffer, each round shortens it; the digits of a number have the number plus one, each round
-- divides it by ten.
--
-- Not modelled: the bytes of the proxy's and the ledger stream's chunks before they are decoded,
-- which file modes are set, signals and the exit status that the proxy takes over from its child,
-- the reconnecting loop over the event stream of the ledger, the listings of directories, the
-- choice and detection of harnesses, the other commands, and the dashboards. The control plane is
-- written in Go and the ledger in Rust; they appear only by their answers.
pub mod Api
pub mod Common
pub mod Daemon
pub mod Dashboard
pub mod Detect
pub mod Doctor
pub mod Hooks
pub mod Install
pub mod InstallFs
pub mod Mcp
pub mod Rules
pub mod Session
pub mod Signer
