-- ===== src/Sni/Replay.antt =====
-- What is read behind a peek is what the connection had to give.
use boringproxy.Prelude.{
  ℕ, zero, suc, ◌≡◌, ◌≢◌, ◌⊎◌, inl, inr, refl, sym, ap, ◌∙◌, String, Option, none, some, List, [],
  ◌∷◌, ◌++◌,
}
use boringproxy.Prelude.Result.{Result, ok, err, panic}
use boringproxy.Database.Store.{Database}
use boringproxy.Server.{Connection, handle_connection}
use boringproxy.Sni.{
  Bytes, Conn, split_at, put_back, read, Handshake, reads, writes, greets, ends, Peeked, or_nothing,
  handshake, Reader, peeked, peek_client_hello, peeked_as, fresh, read_both, proxy_read, taken,
  accept_connection,
}

-- All that a connection, or a reader, has still to give.
unfoldable pub bytes_of : Conn → Bytes
bytes_of [] = []
bytes_of (packet ∷ conn) = packet ++ bytes_of conn

append_assoc : (a b c : Bytes) → (a ++ b) ++ c ≡ a ++ (b ++ c)
append_assoc [] b c = refl
append_assoc (x ∷ a) b c = ap (λ rest. x ∷ rest) (append_assoc a b c)

abbrev pub stream : Reader → Bytes
stream r = r.copy ++ bytes_of r.conn

split_at-append : (n : ℕ) (bytes : Bytes) → (split_at n bytes).0 ++ (split_at n bytes).1 ≡ bytes
unfolding split_at
split_at-append zero bytes = refl
split_at-append (suc n) [] = refl
split_at-append (suc n) (byte ∷ bytes) = ap (λ rest. byte ∷ rest) (split_at-append n bytes)

bytes_of-put_back :
    (bytes : Bytes) (conn : Conn) → bytes_of (put_back bytes conn) ≡ bytes ++ bytes_of conn
unfolding bytes_of
bytes_of-put_back [] conn = refl
bytes_of-put_back (byte ∷ bytes) conn = refl

-- A read takes from the front.
read-bytes :
    (size : ℕ) (conn : Conn)
    → or_nothing (read size conn).0 ++ bytes_of (read size conn).1 ≡ bytes_of conn
unfolding read bytes_of
read-bytes size [] = refl
read-bytes size (packet ∷ conn) =
    ap (λ rest. (split_at size packet).0 ++ rest) (bytes_of-put_back (split_at size packet).1 conn)
    ∙ sym (append_assoc (split_at size packet).0 (split_at size packet).1 (bytes_of conn))
    ∙ ap (λ front. front ++ bytes_of conn) (split_at-append size packet)

abbrev seen : Peeked → Bytes
seen p = p.copy ++ bytes_of p.conn

-- Whatever the handshake does, what it read and what is left are what there was.
handshake-seen : (h : Handshake) (p : Peeked) → seen (handshake h p) ≡ seen p
unfolding handshake
handshake-seen (reads size k) p =
    handshake-seen (k (read size p.conn).0) _
    ∙ append_assoc p.copy (or_nothing (read size p.conn).0) (bytes_of (read size p.conn).1)
    ∙ ap (λ rest. p.copy ++ rest) (read-bytes size p.conn)
handshake-seen (writes bytes k) p = handshake-seen (k (some "io: read/write on closed pipe")) p
handshake-seen (greets name k) p = handshake-seen k _
handshake-seen (ends e) p = refl

-- Reads of the given sizes, one after another, and all that they get.
unfoldable pub read_all : List ℕ → Reader → Bytes × Reader
unfolding proxy_read
read_all [] r = ([], r)
read_all (size ∷ sizes) r =
    let (chunk, s) = proxy_read size r in
    let (more, t) = read_all sizes s in (or_nothing chunk ++ more, t)

read_both-stream :
    (size : ℕ) (copy : Bytes) (conn : Conn)
    → or_nothing (read_both size copy conn).0 ++ stream (read_both size copy conn).1
      ≡ copy ++ bytes_of conn
read_both-stream size [] conn = read-bytes size conn
read_both-stream size (byte ∷ bytes) conn =
    sym (
      append_assoc (split_at size (byte ∷ bytes)).0 (split_at size (byte ∷ bytes)).1
        (bytes_of conn))
    ∙ ap (λ front. front ++ bytes_of conn) (split_at-append size (byte ∷ bytes))

read_all-stream :
    (sizes : List ℕ) (r : Reader) → (read_all sizes r).0 ++ stream (read_all sizes r).1 ≡ stream r
unfolding read_all proxy_read
read_all-stream [] r = refl
read_all-stream (size ∷ sizes) r =
    append_assoc (or_nothing (proxy_read size r).0) (read_all sizes (proxy_read size r).1).0
      (stream (read_all sizes (proxy_read size r).1).1)
    ∙ ap (λ rest. or_nothing (proxy_read size r).0 ++ rest)
        (read_all-stream sizes (proxy_read size r).1)
    ∙ read_both-stream size r.copy r.conn

read_both-ends :
    (size : ℕ) (copy : Bytes) (conn : Conn)
    → ((read_both size copy conn).0 ≢ none) ⊎ (copy ++ bytes_of conn ≡ [])
unfolding read bytes_of
read_both-ends size [] [] = inr refl
read_both-ends size [] (packet ∷ conn) = inl (λ h. cc h)
read_both-ends size (byte ∷ bytes) conn = inl (λ h. cc h)

peeked_as-lem :
    (hello error name : Option String) (q r : Reader)
    → peeked_as hello error q ≡ ok (name, r)
    → (hello ≡ name) × (q ≡ r)
peeked_as-lem (some n) e name q r h = (cc h, cc h)
peeked_as-lem none (some e) name q r h = absurd (cc h)
peeked_as-lem none none name q r h = (cc h, cc h)

peeked-stream :
    (p : Peeked) (name : Option String) (r : Reader)
    → peeked p ≡ ok (name, r)
    → (p.hello ≡ name) × (stream r ≡ seen p)
peeked-stream p name r h =
    let (hello, same) =
      peeked_as-lem p.hello p.error name (record { copy = p.copy; conn = p.conn }) r h in
    (hello, ap stream (sym same))

taken-stream :
    (d : Database) (p : Peeked) (q : Result (Option String × Reader)) (c : Connection) (r : Reader)
    → peeked p ≡ q
    → taken d q ≡ ok (c, r)
    → ((name : String) × (p.hello ≡ some name) × (handle_connection name d ≡ c))
      × (stream r ≡ seen p)
taken-stream d p (ok (some name, s)) c r h e =
    let same : s ≡ r = cc e in
    let (hello, kept) = peeked-stream p (some name) s h in
    ((name, hello, cc e), ap stream (sym same) ∙ kept)
taken-stream d p (ok (none, s)) c r h e = absurd (cc e)
taken-stream d p (err message) c r h e = absurd (cc e)
taken-stream d p panic c r h e = absurd (cc e)

-- A connection that the server takes goes where handleConnection sends the server name of the
-- ClientHello that the TLS handshake found; and whatever that handshake read to find it, whoever reads the connection from then
-- on, in reads of any sizes, gets the bytes that the client sent, from the first and in order, and is
-- told of the end only when it has them all.
pub accept_connection-replays :
    (h : Handshake) (conn : Conn) (d : Database) (c : Connection) (r : Reader) (sizes : List ℕ)
    (size : ℕ)
    → accept_connection h conn d ≡ ok (c, r)
    → ((name : String) × ((handshake h (fresh conn)).hello ≡ some name)
        × (handle_connection name d ≡ c))
      × ((read_all sizes r).0 ++ stream (read_all sizes r).1 ≡ bytes_of conn)
      × (((proxy_read size (read_all sizes r).1).0 ≢ none) ⊎ (stream (read_all sizes r).1 ≡ []))
unfolding accept_connection peek_client_hello proxy_read
accept_connection-replays h conn d c r sizes size e =
    let (to, kept) = taken-stream d (handshake h (fresh conn)) _ c r refl e in
    (
      to,
      read_all-stream sizes r ∙ kept ∙ handshake-seen h (fresh conn),
      read_both-ends size (read_all sizes r).1.copy (read_all sizes r).1.conn,
    )
