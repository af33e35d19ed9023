-- ===== src/Sni.antt =====
-- sni.go: reading the ClientHello of a connection without losing what was read, and the start of
-- handleConnection in boringproxy.go. A byte is a number.
pub mod Replay
use boringproxy.Prelude.{
  ℕ, zero, suc, String, Bool, true, false, Option, none, some, List, [], ◌∷◌, ◌++◌,
}
use boringproxy.Prelude.Result.{Result, ok, err, panic}
use boringproxy.Database.Store.{Database}
use boringproxy.Server.{Connection, handle_connection}

abbrev pub Bytes : Type 0
Bytes = List ℕ

-- What a connection has still to give: the packets, as they arrive. Behind them is its end.
abbrev pub Conn : Type 0
Conn = List Bytes

-- The first bytes of a packet, as many as fit, and the rest.
unfoldable pub split_at : ℕ → Bytes → Bytes × Bytes
split_at zero bytes = ([], bytes)
split_at (suc n) [] = ([], [])
split_at (suc n) (byte ∷ bytes) = let (front, back) = split_at n bytes in (byte ∷ front, back)

abbrev pub put_back : Bytes → Conn → Conn
put_back [] conn = conn
put_back (byte ∷ bytes) conn = (byte ∷ bytes) ∷ conn

-- Read into a buffer of a size: what it gets, or none at the end.
unfoldable pub read : ℕ → Conn → Option Bytes × Conn
unfolding split_at
read size [] = (none, [])
read size (packet ∷ conn) =
    let (front, back) = split_at size packet in (some front, put_back back conn)

-- A handshake of crypto/tls, by what it does with its connection: it reads, it writes and is told
-- whether that went wrong, it calls GetConfigForClient with the server name of the ClientHello, and it
-- ends with an error, if that is not nil. What it does next may depend on all that it has read.
pub data Handshake : Type 0 where
  reads : ℕ → (Option Bytes → Handshake) → Handshake
  writes : Bytes → (Option String → Handshake) → Handshake
  greets : String → Handshake → Handshake
  ends : Option String → Handshake

-- What the handshake leaves: the server name of the last ClientHello, if there was one, its error, the
-- connection, and the copy of io.TeeReader.
pub record Peeked : Type 0 where
  pub hello : Option String
  pub error : Option String
  pub conn : Conn
  pub copy : Bytes

abbrev pub or_nothing : Option Bytes → Bytes
or_nothing none = []
or_nothing (some bytes) = bytes

-- The handshake over readOnlyConn and io.TeeReader: a Write fails, and reaches nobody.
unfoldable pub handshake : Handshake → Peeked → Peeked
unfolding read
handshake (reads size k) p =
    let (chunk, conn) = read size p.conn in
    handshake (k chunk) (record p { conn = conn; copy = p.copy ++ or_nothing chunk })
handshake (writes bytes k) p = handshake (k (some "io: read/write on closed pipe")) p
handshake (greets name k) p = handshake k (record p { hello = some name })
handshake (ends e) p = record p { error = e }

-- io.MultiReader(peekedBytes, reader): the copy first, then the connection.
pub record Reader : Type 0 where
  pub copy : Bytes
  pub conn : Conn

-- readClientHello and peekClientHello: a nil hello with a nil error stays one.
abbrev pub peeked_as : Option String → Option String → Reader → Result (Option String × Reader)
peeked_as (some name) e r = ok (some name, r)
peeked_as none (some e) r = err e
peeked_as none none r = ok (none, r)

abbrev pub peeked : Peeked → Result (Option String × Reader)
peeked p = peeked_as p.hello p.error (record { copy = p.copy; conn = p.conn })

abbrev pub fresh : Conn → Peeked
fresh conn = record { hello = none; error = none; conn = conn; copy = [] }

unfoldable pub peek_client_hello : Handshake → Conn → Result (Option String × Reader)
unfolding handshake
peek_client_hello h conn = peeked (handshake h (fresh conn))

abbrev pub read_both : ℕ → Bytes → Conn → Option Bytes × Reader
read_both size [] conn =
    let (chunk, rest) = read size conn in (chunk, record { copy = []; conn = rest })
read_both size (byte ∷ bytes) conn =
    let (front, back) = split_at size (byte ∷ bytes) in
    (some front, record { copy = back; conn = conn })

-- ProxyConn.Read
unfoldable pub proxy_read : ℕ → Reader → Option Bytes × Reader
unfolding read split_at
proxy_read size r = read_both size r.copy r.conn

-- handleConnection: an error drops the connection, and a nil hello is dereferenced.
abbrev pub taken : Database → Result (Option String × Reader) → Result (Connection × Reader)
taken d (ok (some name, reader)) = ok (handle_connection name d, reader)
taken d (ok (none, reader)) = panic
taken d (err e) = err e
taken d panic = panic

unfoldable pub accept_connection : Handshake → Conn → Database → Result (Connection × Reader)
unfolding peek_client_hello handle_connection
accept_connection h conn d = taken d (peek_client_hello h conn)
