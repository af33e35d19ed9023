-- ===== src/Client.antt =====
-- client.go: the tunnels that a client keeps open. A goroutine that runs BoreTunnel is a number with
-- its tunnel; a cancel function is the number of the goroutine whose context it ends.
pub mod Sync
pub mod Turn
pub mod Loops
pub mod Stale
pub mod Poll
pub mod Run
pub mod Bore
pub mod Permit
use boringproxy.Prelude.{
  ℕ, zero, suc, ◌+◌, String, Bool, true, false, not, Option, none, some, List, [], ◌∷◌, ◌==◌, ◌!=◌,
  ◌||◌, ◌&&◌, eqb, if◌then◌else◌, is_some,
}
use boringproxy.Prelude.Int.{ℤ, eq_ℤ}
use boringproxy.Prelude.GoMap.{GoMap, lookup, insert, delete}
use boringproxy.Prelude.Result.{Result, ok, err, panic, ◌>>=◌}
use boringproxy.Database.Types.{Tunnel}

pub record Client : Type 0 where
  pub tunnels : GoMap Tunnel
  pub previous_etag : String
  pub cancel_funcs : GoMap ℕ
  -- the goroutines whose context is not cancelled
  pub running : List (ℕ × Tunnel)
  -- how many goroutines were started
  pub started : ℕ

abbrev pub eq_bool : Bool → Bool → Bool
eq_bool true b = b
eq_bool false b = not b

-- `==` on the struct Tunnel
unfoldable pub eq_tunnel : Tunnel → Tunnel → Bool
eq_tunnel s t =
    s.domain == t.domain
    && s.server_address == t.server_address
    && eq_ℤ s.server_port t.server_port
    && s.server_public_key == t.server_public_key
    && s.username == t.username
    && eq_ℤ s.tunnel_port t.tunnel_port
    && s.tunnel_private_key == t.tunnel_private_key
    && s.client_address == t.client_address
    && eq_ℤ s.client_port t.client_port
    && eq_bool s.allow_external_tcp t.allow_external_tcp
    && s.tls_termination == t.tls_termination
    && s.owner == t.owner
    && s.client_name == t.client_name
    && s.auth_username == t.auth_username
    && s.auth_password == t.auth_password

-- A cancelled goroutine ends.
unfoldable pub stop : ℕ → List (ℕ × Tunnel) → List (ℕ × Tunnel)
stop i [] = []
stop i ((j, t) ∷ running) = let rest = stop i running in if eqb i j then rest else (j, t) ∷ rest

unfoldable pub worker : ℕ → List (ℕ × Tunnel) → Option Tunnel
worker i [] = none
worker i ((j, t) ∷ running) = let rest = worker i running in if eqb i j then some t else rest

-- c.cancelFuncs[k](): a missing function is nil, and the call panics
abbrev pub cancelled : Client → Option ℕ → Result Client
cancelled c none = panic
cancelled c (some i) = ok (record c { running = stop i c.running })

abbrev pub cancel : String → Client → Result Client
cancel k c = cancelled c (lookup k c.cancel_funcs)

-- The block under `if bore`.
abbrev pub bored : String → Tunnel → Client → Client
bored k new_tun c = record c {
  cancel_funcs = insert k c.started c.cancel_funcs;
  running = (c.started, new_tun) ∷ c.running;
  started = suc c.started;
}

-- One turn of the first loop; a changed tunnel is started anew, but not written to c.tunnels.
abbrev pub synced_with : String → Tunnel → Client → Option Tunnel → Result Client
synced_with k new_tun c none =
    ok (bored k new_tun (record c { tunnels = insert k new_tun c.tunnels }))
synced_with k new_tun c (some tun) =
    if not (eq_tunnel new_tun tun)
    then (do d ← cancelled c (lookup k c.cancel_funcs); ok (bored k new_tun d))
    else ok c

unfoldable pub sync_one : String → Tunnel → Client → Result Client
unfolding lookup insert stop eq_tunnel
sync_one k new_tun c = synced_with k new_tun c (lookup k c.tunnels)

unfoldable pub update : GoMap Tunnel → Client → Result Client
unfolding sync_one
update [] c = ok c
update ((k, new_tun) ∷ server_tunnels) c = do d ← sync_one k new_tun c; update server_tunnels d

abbrev pub killed : String → Client → Client
killed k c = record c { cancel_funcs = delete k c.cancel_funcs; tunnels = delete k c.tunnels }

-- One turn of the second loop.
abbrev pub kill_if : Bool → String → Client → Result Client
kill_if true k c = ok c
kill_if false k c = do d ← cancel k c; ok (killed k d)

-- The second loop, over the tunnels that were there when it began.
unfoldable pub kill_missing : GoMap Tunnel → GoMap Tunnel → Client → Result Client
unfolding lookup delete stop
kill_missing server_tunnels [] c = ok c
kill_missing server_tunnels ((k, tun) ∷ tunnels) c = do
  d ← kill_if (is_some (lookup k server_tunnels)) k c
  kill_missing server_tunnels tunnels d

-- SyncTunnels
unfoldable pub sync_tunnels : GoMap Tunnel → Client → Result Client
unfolding update kill_missing
sync_tunnels server_tunnels c = do
  d ← update server_tunnels c
  kill_missing server_tunnels d.tunnels d

-- What PollTunnels reads of the answer of the server: its status, the first Etag header, and the
-- tunnels that its body decodes to.
pub record Reply : Type 0 where
  pub status : ℕ
  pub etag : Option String
  pub tunnels : Result (GoMap Tunnel)

abbrev pub polled : Reply → Client → Option String → Result Client
polled reply c none = panic
polled reply c (some etag) =
    if etag != c.previous_etag
    then (do
      tunnels ← reply.tunnels
      d ← sync_tunnels tunnels c
      ok (record d { previous_etag = etag }))
    else ok c

abbrev pub answered : Client → Reply → Result Client
answered c reply =
    if not (eqb reply.status 200)
    then err "Failed to listen (not 200 status)"
    else polled reply c reply.etag

-- PollTunnels, with what the request for the tunnels comes to; an error leaves the client as it was
unfoldable pub poll_tunnels : Result Reply → Client → Result Client
unfolding sync_tunnels
poll_tunnels reply c = do r ← reply; answered c r
