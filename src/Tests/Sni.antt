-- ===== src/Tests/Sni.antt =====
-- A connection whose ClientHello is read: the theorem at a concrete handshake.
use boringproxy.Prelude.{◌≡◌, ◌≢◌, ◌⊎◌, refl, String, none, some, [], ◌∷◌, ◌++◌}
use boringproxy.Prelude.GoMap.{lookup}
use boringproxy.Prelude.Result.{ok}
use boringproxy.Server.{to_http, handle_connection}
use boringproxy.Sni.{
  Conn, Handshake, reads, writes, greets, ends, handshake, fresh, Reader, proxy_read,
  accept_connection, peek_client_hello, read, split_at,
}
use boringproxy.Sni.Replay.{bytes_of, stream, read_all, accept_connection-replays}
use boringproxy.Examples.{database}

-- It reads twice, finds the ClientHello, and fails to write its answer.
abbrev client_hello : Handshake
client_hello = reads 2 (λ a. reads 5 (λ b. greets "a.example.com" (writes (2 ∷ []) (λ e. ends e))))

abbrev packets : Conn
packets = (22 ∷ 3 ∷ 1 ∷ []) ∷ (7 ∷ 8 ∷ []) ∷ []

abbrev replaying : Reader
replaying = record { copy = 22 ∷ 3 ∷ 1 ∷ []; conn = (7 ∷ 8 ∷ []) ∷ [] }

takes_it : accept_connection client_hello packets database ≡ ok (to_http, replaying)
unfolding accept_connection peek_client_hello handshake read split_at handle_connection lookup
takes_it = refl

accept_connection-replays_example :
    ((name : String) × ((handshake client_hello (fresh packets)).hello ≡ some name)
      × (handle_connection name database ≡ to_http))
    × ((read_all (2 ∷ 9 ∷ []) replaying).0 ++ stream (read_all (2 ∷ 9 ∷ []) replaying).1
        ≡ bytes_of packets)
    × (((proxy_read 4 (read_all (2 ∷ 9 ∷ []) replaying).1).0 ≢ none)
        ⊎ (stream (read_all (2 ∷ 9 ∷ []) replaying).1 ≡ []))
accept_connection-replays_example =
    accept_connection-replays client_hello packets database to_http replaying (2 ∷ 9 ∷ []) 4
      takes_it
