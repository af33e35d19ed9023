-- ===== src/Lib.antt =====
-- boringproxy: a reverse proxy with tunnels over SSH. This library models the server's database, its
-- tunnel manager, its HTTP API, its web interface, how it takes connections and passes requests on, and
-- the client with its command line.
--
-- The program. A server keeps users, tokens and tunnels in one JSON file (database.go). The API
-- (api.go) reads the caller's token from a request, looks it up, checks what the caller may do, and
-- works on the database, for tunnels through the tunnel manager (tunnel_manager.go). That one keeps two
-- stores in step: the table of tunnels, and the file authorized_keys of the SSH server, in which each
-- tunnel has a line with a key that permits to listen on the tunnel's port. A client polls the API
-- (client.go), runs one goroutine for each of its tunnels, and server and client pass requests on
-- through a tunnel (http_proxy.go).
--
-- Files and source.
--   Database/Types, Database/Codec: the structs of database.go and their JSON.
--   Database/Store: the methods of Database, each with `persist`; Database/Dns: the DNS requests.
--   Database/Startup: NewDatabase.
--   Utils: utils.go. Utils/RandomCode is about genRandomCode.
--   TunnelManager/Keys: MakeSSHKeyPair, addToAuthorizedKeys, and the part of DeleteTunnel that edits
--   the file. TunnelManager/Manager: RequestCreateTunnel, DeleteTunnel, GetPort.
--   TunnelManager/Outcome, Invariant: what these do to the database; KeyFile, Revocation,
--   ForeignLines: what they do to the file.
--   Api/Tunnels, Tokens, Users, Clients: the methods of Api; Api/Handlers: handleTunnels, handleUsers,
--   handleTokens, handleClients and the routing of NewApi.
--   Api/Rule: one rule for all that a request may change, which Isolation, Soundness and Limited use;
--   Denial, Visibility, Requests, ClientLists: single properties. Api/Threads: goroutines that work on
--   one database, call by call, with DeleteUser's calls in their order; Growth is about one call, Safety
--   about all runs, Requests about what the operations of api.go are as runs.
--   Pages: what the templates are filled with. WebUi/Reply: alerts and redirects; WebUi/Accounts, Tunnels
--   and Login: the pages and forms of ui_handler.go; WebUi/Handler: handleWebUiRequest. WebUi/Rule: one
--   rule for all that such a request may change, and WebUi/Isolation one use of it; WebUi/Shown, Own,
--   Confidential and Privacy: what the pages hold.
--   WebUi/Calls: a request to the API or the web interface as a run of calls.
--   WebUi/Pending: handleCreateTunnel and handleLoading with their goroutines, requests to the API, and
--   single calls of the handlers of others, as steps that interleave. Order, Stuck, Later and Progress below it are about runs of these; Registry
--   is an abstract view of the tunnels, and Refinement relates the two.
--   HttpProxy: proxyRequest and stripConnectionHeaders, with what is sent on and what is answered as
--   its result; HttpProxy/Forwarding and HttpProxy/Answers are about these two.
--   CommandLine: main of cmd/boringproxy/main.go; CommandLine/Client is about the flags of `client`.
--   Client/Run: NewClient and Run, as steps of the loop and of the goroutine that ticks; Client/Run/Pace is
--   about these. Client/Bore: BoreTunnel, and the decisions of tls_proxy.go;
--   Client/Permit: BoreTunnel and the line in authorized_keys together.
--   Client: PollTunnels and SyncTunnels. Client/Poll is about the first; Client/Sync, Turn and Loops about
--   starting a goroutine, one turn of the loops, and all of them; Client/Stale about a tunnel that
--   changes and changes back.
--   Server: where boringproxy.go takes a connection (handleConnection) and a request (the handler in
--   Listen), and the admin that Listen adds; auth.go. Server/Routes and Server/Admin are about these.
--   Server/Startup: Listen up to where it serves, and setAdminDomain; Server/Startup/First is about it.
--   Server/Callback: the callback of TakingNames.io. Server/Listen: the whole handler in Listen, which
--   Server/Listen/Guard is about. Server/Termination: handleConnection and BoreTunnel together.
--   Sni: sni.go, and the start of handleConnection; Sni/Replay is about these.
--   Http: the parts of net/http that handlers use. Outside: what other code answers.
--   Prelude: results, Go maps, integers, texts, JSON. Examples, Tests: concrete data and runs.
--
-- How state is kept. A `World` is the database, with its disk, and the file authorized_keys, which may
-- be missing. An operation takes the state and gives the new one with a `Result`: a value, Go's error,
-- or a panic. A method of Database holds its mutex from its first line to its last, and is one step; so
-- are the two operations of the tunnel manager, which hold that one's. A handler holds no mutex between
-- such calls. Its function gives what it does with no other beside it; Api/Threads has the goroutines
-- of the server as steps of single calls, in any order, and WebUi/Calls shows a handler's function to be
-- a run of these. A theorem about the function of a handler (in Isolation, Limited, ClientLists and
-- others) is about a request that no other comes between.
-- A Go map is an association list, and as theorems hold for every list, they hold for every order of
-- iteration. `int` is an unbounded integer: strconv.Atoi keeps what it parses within 64 bits, and the
-- code only compares and prints these numbers. A text is a list of Unicode scalar values, a Go string
-- that is valid UTF-8; what encoding/json makes of other strings is left out.
--
-- What other code answers (random numbers, net.Listen, certmagic, RSA and SSH keys, file errors, MD5)
-- is the argument `Outside`, which may fail at every call; a theorem that needs calls to work names
-- that as a hypothesis (FileWorks, IsHealthy, Draws). All loops are structural recursion: over the
-- entries of a map, the lines of a file, or the characters left to draw. There is no fuel.
--
-- In WebUi the packages for templates, QR codes and embedded files are the record `Assets`, and a page
-- is the data that its template is given. In WebUi/Pending a request to the web interface or the API is
-- one step up to the point where it waits: handleCreateTunnel until its select, handleLoading until it
-- receives. From there on it is part of the state `Ui`, with the goroutine of each creation. Requests that
-- are not served in one step are there by what they do to the state: each call of theirs on the database
-- or the tunnel manager is a step of its own (`method`, `removal`). A panic in a goroutine of a creation
-- ends the process, and has no step. The body that http.Redirect writes for a GET is left out.
--
-- In HttpProxy those answers are the record `Network`, in Client/Bore `Ssh`, in Client/Run `Post`, and in
-- Server/Callback `Namedrop`, whose own domain (SetDomain) is left out. A goroutine of SyncTunnels is a
-- number with the tunnel it was started for, and runs until its context is cancelled: that BoreTunnel
-- may end by itself is not modelled. The handshake of crypto/tls in Sni is any tree of reads and writes.
-- Time in Client/Run is a number of nanoseconds that a step lets pass; a time.Duration wraps at 64 bits.
--
-- Not modelled: what sockets carry (the copying of bytes in tls_proxy.go, boringproxy.go and main.go, and
-- SSH), the texts of the templates, the race of requests on the parsed templates (h.tmpl in
-- ui_handler.go), what NewClient and Listen set in certmagic and net, the listeners of Listen, and what
-- the file of the database holds after a fatal error at startup.
pub mod Prelude
pub mod Http
pub mod Outside
pub mod Utils
pub mod Database
pub mod TunnelManager
pub mod Api
pub mod HttpProxy
pub mod Client
pub mod CommandLine
pub mod Server
pub mod Sni
pub mod Pages
pub mod WebUi
pub mod Examples
mod Tests
