-- ===== src/Lib.antt =====
-- simult, an HTTP load balancer in Go: a model of its packages pkg/lb, pkg/hc and pkg/config and of
-- its command simult-server, with the theorems that make it correct.
--
-- The program. A listener hands each client connection to a frontend, whose `Serve` reads one
-- request after another from it. A request is matched against the frontend's routes and their
-- restrictions, which name a backend and perhaps a backup. A backend chooses one of its servers,
-- takes a connection from the server's pool or dials, exchanges the request and the response, and
-- gives the connection back. Health checks run beside this and set the weights of the servers. On a
-- reload an application is forked from the old one: servers and accepters that stay are shared
-- until the old application is closed.
--
-- The files.
-- - HttpCheck: pkg/hc/httpcheck.go. `copy_from` is `CopyFrom`, `check` the verdict of `check` on what
--   the client answers, `tick` a round of `worker`, `after` its rounds over a history, newest first.
-- - BufConn: pkg/lb/bufconn.go and pkg/lb/statsrw.go. `pipe_read` is the background reader over the
--   reads that the connection answers; `Life` runs a connection through any events.
-- - BackendServer: pkg/lb/backendserver.go. Each region under `bcsMu` is a function; `conn_acquire`,
--   `conn_release`, `work` and `close` are the methods and the worker. `Life` is the step relation
--   of requests, worker, reloads and traffic in any order, with its invariant.
-- - HttpFrontend: pkg/lb/httpfrontend.go. `Pattern` has `patternToRgx` and the regular expressions
--   that it makes, `Route` has `isRouteRestricted` and `findBackend`, `Request` has `serveAsync`
--   up to the choice of a backend and `Failover` from there on, `Serve` joins them to the whole of
--   `serveAsync` and has `serve`, `Connection` has the loop of `Serve`, and `Fork` has `CopyFrom`,
--   `Fork` and `Close`.
-- - HttpBackend: pkg/lb/httpbackend.go. `Select` has `updateBssNodes` and `findServer`, `Serve` has
--   `serve`, which calls `findServer`, `Forward` the headers that `serve` sends on, `Exchange` has `serveIngress`,
--   `serveEngress` and `serveAsync`, and `Fork` has `Fork`, `Close` and `Activate` over a heap of
--   server objects.
-- - HttpCommon: pkg/lb/httpcommon.go. `Paths` has `normalizePath` and `uriToPath`, `Fields` has
--   `httpContentLength` and the groups of codes and methods, `Head` has `splitHTTPHeader` and
--   `Transfer` has `writeHTTPHeader` and `writeHTTPBody`; `Header` is net/http's type of headers.
-- - Listener and AccepterHandler: pkg/lb/listener.go and pkg/lb/accepterhandler.go. `Listener.Reach`
--   is the step relation of making, forking, activating and closing listeners in any order.
-- - Config: pkg/config/config.go and pkg/config/app.go. `Options` and `Frontends` make the members'
--   options, `App` has `Fork` and `Close` over the interface `Members` of what it forks, and `Tls` is
--   pkg/config/tlsparams.go.
-- - Program: cmd/simult-server/main.go. `config_reload` is `configReload`, `serve_signals` the loop of
--   `main` with the first reports of health checks that come between its rounds, and `run` the whole
--   from the first `configReload` to the last `Close`, over a `Host` that keeps the objects of pkg/lb;
--   `members` fills the interface `Members` with their operations. `Invariant` states how the listeners
--   of two applications share accepters; `Closing`, `Adding`, `Grown` and `Handing` keep it through
--   `Close` and `Fork`, and `Serving`, `Reload` and `Run` put them together. `HttpBackend.Fork.Tally`,
--   `Owned`, `Backed`, `Ended` and `Over` do the same for servers and frontends.
-- - HttpCookie: pkg/lb/httpcookie.go.
-- - HostPort and RandBytes: `splitHostPort` and `genRandByteSlice` of pkg/lb/lb.go.
-- - Prelude: tests on numbers, lists, signed integers and texts that the others share.
-- - Tests: the theorems at concrete inputs.
--
-- How the parts meet. `HttpBackend.Serve` acquires and releases through `BackendServer`;
-- `HttpFrontend.Failover` calls `HttpBackend.Serve.serve` for the backend and for the backup, and
-- its proofs use only the outcomes that `HttpBackend.Serve.Outcomes` states; `BackendServer` keeps
-- `BufConn` and `HttpCheck` objects and closes them through their own operations; `HttpFrontend`
-- normalises paths through `HttpCommon.Paths` and reads requests through `HttpCommon.Head`;
-- `HttpBackend.Exchange` reads responses through it and writes through `HttpCommon.Transfer`;
-- `HttpBackend.Fork` shares and closes servers through `BackendServer`, and `Listener` its accepter
-- through `AccepterHandler`; `Config` makes their options. `Config.App` knows its members by the
-- record `Members` over an abstract state; `Config.App.Kept` shows what any members' calls that keep a
-- property make `Fork` keep, and `Program` uses it for listeners, servers and frontends.
--
-- Conventions. Texts are lists of bytes, and `HttpFrontend.Pattern` matches them by code points.
-- Letters are lower-cased as ASCII, so a pattern, host or path with other capital letters is outside
-- the model. An `int` or `int64` that may be negative is an unbounded integer, and a count that only
-- grows is a natural number: no counter of the program can reach 2^63 in practice, and wrap-around is
-- not modelled but in `http_content_length`. A panic is a result. The network, the clock and other
-- requests are inputs: lists of events, or a record of what the world does during one call.
--
-- Fuel. `normalize` takes one more than the length of the path, since every round that changes the
-- path shortens it; `read_line` takes the length of the line, since every part takes a byte;
-- `read_head` takes one more than the bytes to come, since every slice takes a byte.
--
-- Parameters. The URL parser of `newBackendServer` and of the frontend; the library wrh of
-- `findServer` with the order in which it sorts nodes, which is assumed to answer only nodes that it
-- was given; in the exchange the text of a header, the chunked reader and writer, and `md5`; in the
-- application its members, and in the program the answers of `net.Listen`, `net.ParseCIDR` and
-- `TLSParams.Config`, and the file that is there at each signal.
--
-- Not modelled. The worker of a frontend, which waits and does nothing else; the rounds of a health
-- check behind its first report, once its server has it; logs and metrics; reading the configuration,
-- flags and limits of the system, which call libraries. The program's last `Close` and the end of the
-- old application wait for open requests as long as a timeout allows; the model has the state that
-- they leave.
pub mod Prelude
pub mod HttpCheck
pub mod AccepterHandler
pub mod Listener
pub mod Config
pub mod Program
pub mod BufConn
pub mod BackendServer
pub mod HttpFrontend
pub mod HttpCommon
pub mod HttpBackend
pub mod HttpCookie
pub mod HostPort
pub mod RandBytes
pub mod Tests
