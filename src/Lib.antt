-- ===== src/Lib.antt =====
-- Verification of localpost, a Python library of threaded services: the thread tools that move work
-- between threads, the parts of the HTTP server that decide what a request gets and what goes over a
-- connection, the operations of its OpenAPI layer, the dependency injection, the lifetimes of
-- hosted services and the scheduled tasks.
--
-- Parts, and the files that model them:
-- * `Channel` is localpost/threadtools/_channel.py: `ChannelState` as a record, one function per
--   method of the two handles. A blocking method is cut where it waits on a condition, into
--   `put_enter`, `put_await` and `get`. Channel/Threads has the threads that call them and the
--   events that interleave them; `notify` may pick any waiters.
-- * `Executor` is localpost/threadtools/_executor.py: `_WorkerPoolBase` with `WorkerExecutor`. The
--   workers are a list of states, and `step` is one event of a caller or a worker.
-- * `TaskGroup` is localpost/threadtools/_task_group.py, over the futures that an executor returns;
--   what the tasks do is the events.
-- * `Http.Types` is localpost/http/_types.py. `Http.Template` and `Http.Router` are
--   localpost/http/router.py: templates with their matching, the builder, the compiled router and its
--   dispatch.
-- * `Http.Static` is localpost/http/static.py: the whole handler of static files, over the file
--   system, URL decoding and HTTP dates as a record of functions.
-- * `Http.Compress` is localpost/http/compress.py: the negotiation, the eligibility rules and the
--   rewritten headers, over the compressors and Python's floats as functions.
-- * `Http.Cancel` is localpost/http/_cancel.py: the cancellation token of a request, over what the
--   socket answers.
-- * `Di` is localpost/di/_services.py: the registry, the chain of scopes and their providers, the
--   resolution of a service with its dependencies, and the exit stack of each scope. Types are numbers
--   and the factories' arguments are data. A factory that resolves in a circle does not return in the
--   source; in the model it runs out of fuel, and a dependency that goes down a rank bounds the fuel.
-- * `Http.Selector` is `Selector`, `BaseHTTPConn.close`, `TrackHere` and `RoundRobinAcceptor` of
--   localpost/http/_base.py: the tracked connections, the table of the operating system's selector and
--   the op queue. The calls of the selector's thread and of workers are events, one at a time.
-- * `Hosting` is localpost/hosting/_host.py: the lifetime of a service and its states. `Hosting.Services`
--   is `start` and `_run`: services that start others in their task group, with anyio's task group and
--   cancel scopes as documented.
-- * `Http.Writer` is the writing half of localpost/http/server_httptools.py, with the helpers that it
--   takes from localpost/http/_base.py: the status line and headers, the framing of the body and the
--   payloads that `_send_all` is given, in order. `Http.Writer.Chunked` has a reader of chunked bodies
--   of its own, whose fuel is the length of what it reads.
-- * `Http.Body` is the reading half of localpost/http/server_httptools.py, `on_body` to `receive`, and
--   `read_body` of localpost/http/_body.py, over what the parser calls for each packet. The fuel of
--   `read_body` is one more than the bytes of the body, since each turn but the last reads one.
-- * `Openapi` is localpost/openapi: `Openapi.Resolvers` how a parameter is found in a request and what
--   the document says of it (resolvers.py), `Openapi.Shapes` the responses that a return annotation
--   announces (_operation_core.py), and `Openapi.Operation` how an operation is made, runs behind its
--   middlewares, answers and is documented (operation.py, middleware.py). Annotations are data; the
--   conversions of Python and msgspec, and the adapters, are records of functions.
-- * `Scheduler` is localpost/scheduler: tasks with their subscribers and users, the templates of triggers
--   and the run of a scheduled task (_scheduler.py); `Scheduler.Triggers` the events that `After` and
--   the middlewares of triggers yield (_trigger.py, _cond.py). anyio's streams are a record of functions with their documented behaviour.
-- * `Http.Connection` is the connection of localpost/http/server_httptools.py between requests: the
--   callbacks of the parser for a head, `_feed`, `_loop` and `__call__`, with `content_length` of
--   localpost/http/_base.py. What the parser calls for the data of a `recv` is given with it.
-- * `Bytes` is Python's `bytes` with the methods that the sources use, and `Prelude` what all share.
--
-- The router answers from the templates that the builder collected; the static handler and the
-- router answer with the messages of `Http.Types`. The task group submits its tasks to an executor.
-- `Http.Connection` reads heads for a connection that `Http.Selector` tracks, and `Http.Body` and
-- `Http.Writer` are its two directions while a request is served. An operation of `Openapi` is reached
-- by a template of `Http.Template`, and what it answers is framed by `Http.Writer`.
--
-- Bounds: numbers are unbounded, as Python's are; times are natural numbers of a monotonic clock.
-- Functions with fuel are `print_ℕ` and the hexadecimal printer, whose fuel is the number itself plus
-- one, more than its digits, `publish_loop`, whose fuel is the length of the list that it walks over,
-- `resolve` of `Di`, whose fuel bounds how deep dependencies go, and `read_body`. A
-- thread that waits is a state of its own, so no loop needs a bound.
--
-- Not modelled: sockets, protocol parsers and bridges, tracing, the entry points of hosting, the
-- OpenAPI application with its schemas and authentication, and the asynchronous executor; regular
-- expressions other than those of templates.
-- Interpreter signals and the failure of thread creation are not modelled either.
pub mod Bytes
pub mod Channel
pub mod Di
pub mod Executor
pub mod Hosting
pub mod Http
pub mod Openapi
pub mod Prelude
pub mod Scheduler
pub mod TaskGroup
