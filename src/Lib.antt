-- ===== src/Lib.antt =====
-- Models of EnvProxy: an application's `getenv` is answered with secrets that a local agent fetches
-- from a backend.
--
-- An application loads libenvproxy (crates/libenvproxy/src/lib.rs), whose `getenv` sends a request
-- over a Unix socket to the agent (crates/envproxy-agent/src/server.rs). The agent asks its backend
-- (crates/envproxy-agent/src/backend) and sends a response. Python and Java programs, which do not
-- call `getenv`, load hooks (support/python, support/java) that send the same requests. In a
-- cluster, a webhook (k8s/injector) puts the agent and the command line tool (crates/envproxy-
-- cli/src/main.rs) into a pod, and the tool runs the pod's commands behind the library. The
-- messages, and the syntax of `vault:` references, are those of crates/envproxy-proto/src/lib.rs.
--
-- Files:
--   Prelude, Text: lists and bytes, paths, maps, search, numbers and UTF-8 text, as the Rust
--     standard library has them (str::find, parse::<u64>, String::from_utf8_lossy, trim).
--   Io: I/O errors and one end of a socket: `read_exact` and `write_all`. Both ends are sequential,
--     so the peer's reply is a function of the message that it has got. A timeout, a reset and the
--     end of the stream are one error value that the stream carries.
--   Proto/Wire: the statuses, `encode_request`, `encode_request_v2`, `encode_response`,
--     `decode_request`, `decode_response`. Proto/RoundTrip, Proto/Reject and Proto/Accept: their
--     laws.
--   Proto/VaultRef: `parse_vault_ref`; Proto/VaultRef/Laws: what it accepts;
--     Proto/VaultRef/Canonical: the text from which a reference is parsed.
--   Agent/Backend: the trait `Backend` and its errors. A backend is a record of operations over its
--     state, which the server takes as a parameter.
--   Io/FileSystem: the calls of the file system that the agent's start and `init` make, over a
--     state, with the laws that some theorems ask of it. The laws on contents speak of plain paths,
--     which go through no link and are the only names of their files.
--   Agent/Server: `handle_connection`. Agent/Server/Reading: each read of it; Agent/Server/Refines:
--     that it reads what `decode_request` decodes. Agent/Server/Bind: `bind`.
--   Agent/Server/Run: the accept loop `run`. The task of a connection goes on to the call of the
--     backend, through the steps of that call, from one await point to the next, and to the end of
--     the response; a list of choices says whose turn it is and at what time, when a connection is
--     accepted, and when `accept` fails. Agent/Server/Run/Phases: the two halves of
--     `handle_connection`; Agent/Server/Run/Right: calls whose answers depend on no state;
--     Agent/Server/Run/Cached: the Vault backend, with the calls of Agent/Vault/Tasks;
--     Agent/Server/Run/Progress: how many turns a task has left. The reads and the writes of a task
--     on its own stream are one step each there, and each step ends: what a client will have sent
--     when it closes its side is in the stream from the start.
--   Agent/File: the file backend. A call of `resolve` is a task that goes from one await point to
--     the next (`advance`), so that other tasks and writers may come between; `resolve` runs a task
--     alone, in five steps, which is as many as there are. Agent/File/Fresh: the invariant of the
--     cache over all interleavings; Agent/File/Quiet: `resolve` alone.
--   Agent/Vault: `resolve` and `resolve_with_value` of the Vault backend with its cache, and
--     `parse_duration`, whose product wraps around at 2 ^ 64. The `vaultrs` client is a parameter.
--     Agent/Vault/Duration/Units: numbers with units. Agent/Vault/Sound: what the cache holds is
--     what Vault has; Agent/Vault/Calls: sequences of calls, one after the other; Agent/Vault/Hits:
--     when the cache answers. Agent/Vault/Login: `new` and the authentication, and the interval of
--     the token's renewal; Agent/Vault/Renewal: the loop that renews it, for so many rounds.
--     Agent/Vault/Tasks: a call that goes from one await point to the next;
--     Agent/Vault/Tasks/Shared: all interleavings of calls over one cache.
--   Agent/Kubernetes: the Secret's values and the task of the watcher, over the results that its
--     stream gives one by one; Agent/Kubernetes/Watched: its laws.
--   Agent/Http: the backend that is not implemented yet.
--   Agent/Config: crates/envproxy-agent/src/config.rs, the configuration with its defaults.
--   Agent/Start: crates/envproxy-agent/src/main.rs, from the configuration over the backend to
--     `bind`, and the end; Agent/Start/Order: what is done before an error.
--   Cli, Cli/Answers: `query_agent`, `get` and `status` of crates/envproxy-cli/src/main.rs.
--   Cli/Run, Cli/Run/Waiting: `run`, with the search for the library and the wait for the socket.
--     The looks of the wait are numbered; the clock and the file system are functions of the look.
--   Cli/Init: `init`; Cli/Init/Keeps: what each part leaves as it is; Cli/Init/Destinations: which
--     paths are apart; Cli/Init/Copied: what is where afterwards.
--   Client/Getenv: `getenv`, `secure_getenv`, `query_agent`, with the two `OnceLock` statics as
--     state. The C library's `getenv` and `UnixStream::connect` are parameters.
--     Client/Getenv/Calls: sequences of calls.
--   Client/Hooks, Client/Hooks/Found, Client/Hooks/Settings: the constructor of the library, which sets PYTHONPATH and
--     JAVA_TOOL_OPTIONS. The environment is a map, whose values are any bytes; the file system is a
--     parameter.
--   Cli/Main: the command line as clap gives it, and `main`.
--   Support: the hooks in other languages. Support/Socket: a socket whose bytes are received in
--     pieces, each as large as a function of the call's number says.
--     Support/Python: the query of support/python/_envproxy_hook.py; Support/Python/Receiving: its
--     reads; Support/Python/Answers: the query against libenvproxy's. Support/Python/Environ: the
--     proxy of `os.environ` with its cache, and `_install`; it keeps a log of the queries, which the
--     program does not. Support/Python/Calls, Support/Python/Coherence: sequences of calls of the
--     proxy; Support/Python/Client: a lookup of the proxy against `getenv`.
--     Support/Java: EnvProxyMap and EnvProxyAgent of support/java/src/envproxy; Support/Java/Lookups,
--     Support/Java/Refines: the map against the Python proxy.
--   Injector: k8s/injector, the webhook that puts envproxy into pods. Injector/Annotation:
--     internal/config/config.go; Injector/Targets, Injector/Content, Injector/Mutator:
--     internal/webhook/mutator.go; Injector/Handler: internal/webhook/handler.go.
--     Injector/Kept, Injector/Others: what becomes of a pod. Injector/Kubelet,
--     Injector/Deployed, Injector/Initialised: the containers that it makes, run by `main` of the
--     command line tool.
--   EndToEnd, EndToEnd/Exchange: libenvproxy against the server over one connection.
--     EndToEnd/Backends, EndToEnd/Kubernetes: with each backend behind the server; EndToEnd/Start:
--     with an agent that was started with the file backend; EndToEnd/Get: the command line tool
--     against the server; EndToEnd/Hook: the Python proxy against the server.
--   Tests: the theorems at concrete inputs.
--
-- Fuel: `decimal` has one unit for each unit of the number, `trim` one for each byte, and both use
-- at most one for each digit or byte. The loops that receive `n` bytes in the hooks have `n`, since
-- each piece holds a byte at least. The wait of `run` has 101, for the hundred intervals in ten
-- seconds and one look more. The accept loop and the renewal loop have no end; the theorems are
-- about any list of choices, and any number of rounds.
--
-- Not modelled: log lines and the log filter; the time that a timeout takes; the listener that the
-- system gives; JSON and TOML parsing, the parsing of the command line, quantities and numbers with
-- a point, and what the kubelet makes of a container, which are parameters; in the language hooks,
-- reflection and the methods that only pass on to the real environment; in the injector, its start,
-- its certificates and the registry package, which nothing uses.
pub mod Prelude
pub mod Text
pub mod Io
pub mod Proto
pub mod Agent
pub mod Client
pub mod Cli
pub mod Support
pub mod Injector
pub mod EndToEnd
pub mod Tests
