-- ===== src/Api/Threads.antt =====
-- The goroutines of the server, as they work on one database: a step is a call of one method of
-- `Database`, which holds its mutex from the first line to the last, or of RequestCreateTunnel or
-- DeleteTunnel of the tunnel manager, which hold that one's mutex; nothing else writes the tunnels or
-- authorized_keys, and between its calls on these the manager reads nothing else.
-- Between two such calls of a handler any calls of others may come. What a handler has checked before
-- a call may not hold any more when it makes it: so any call may come with any arguments. The exception
-- is DeleteUser of api.go, whose calls belong together.
pub mod Growth
pub mod Safety
pub mod Requests
use boringproxy.Prelude.{ℕ, ◌≡◌, ◌==◌, String, Bool, [], ◌∷◌, update}
use boringproxy.Prelude.GoMap.{GoMap}
use boringproxy.Prelude.Result.{Result}
use boringproxy.Outside.{Outside}
use boringproxy.Database.Types.{TokenData, User, Tunnel}
use boringproxy.Database.Store.{
  Database, set_admin_domain, add_token, get_tokens, delete_token_data, add_user, set_user,
  delete_user,
}
use boringproxy.TunnelManager.Manager.{TunnelManager, World, request_create_tunnel, remove_tunnel}
use boringproxy.Api.Users.{drop_if}

-- The calls by which handlers change something, but for those of DeleteUser. No code calls SetTokenData,
-- and the pending DNS requests are no part of a `World`.
pub data Call : Type 0 where
  admin_domain : String → Call
  new_token : (ℕ → ℕ → Result ℕ) → String → String → Call
  drop_token : String → Call
  new_user : String → Bool → Call
  put_user : String → User → Call
  new_tunnel : Outside → Tunnel → Call
  drop_tunnel : Outside → String → Call

abbrev pub on_database : World → Database → World
on_database w d = record w { db = d }

unfoldable pub perform : TunnelManager → Call → World → World
perform m (admin_domain domain) w = on_database w (set_admin_domain domain w.db)
perform m (new_token rand owner client) w = on_database w (add_token rand owner client w.db).0
perform m (drop_token token) w = on_database w (delete_token_data token w.db)
perform m (new_user name is_admin) w = on_database w (add_user name is_admin w.db).0
perform m (put_user name user) w = on_database w (set_user name user w.db)
perform m (new_tunnel o req) w = (request_create_tunnel m o req w).0
perform m (drop_tunnel o domain) w = (remove_tunnel m o domain w).0

-- A goroutine: not in DeleteUser; behind its `a.db.DeleteUser(username)`; in the loop over the copy of
-- the tokens, with those that are left.
pub data Thread : Type 0 where
  elsewhere : Thread
  listing : String → Thread
  dropping : String → GoMap TokenData → Thread

pub record Threads : Type 0 where
  pub world : World
  pub thread : ℕ → Thread

abbrev pub moved_to : Threads → ℕ → Database → Thread → Threads
moved_to s n d t = record s { world = on_database s.world d; thread = update s.thread n t }

pub data Step (m : TunnelManager) (s : Threads) : Threads → Type 0 where
  call : (c : Call) → Step m s (record s { world = perform m c s.world })
  -- a.db.DeleteUser(username)
  begin :
      (n : ℕ) (name : String)
      → s.thread n ≡ elsewhere
      → Step m s (moved_to s n (delete_user name s.world.db) (listing name))
  -- range a.db.GetTokens()
  list :
      (n : ℕ) (name : String)
      → s.thread n ≡ listing name
      → Step m s (moved_to s n s.world.db (dropping name (get_tokens s.world.db)))
  -- one turn of the loop
  turn :
      (n : ℕ) (name token : String) (t : TokenData) (rest : GoMap TokenData)
      → s.thread n ≡ dropping name ((token, t) ∷ rest)
      → Step m s (moved_to s n (drop_if (t.owner == name) token s.world.db) (dropping name rest))
  finish :
      (n : ℕ) (name : String)
      → s.thread n ≡ dropping name []
      → Step m s (moved_to s n s.world.db elsewhere)

pub data Run (m : TunnelManager) (s : Threads) : Threads → Type 0 where
  here : Run m s s
  next : {t u : Threads} → Run m s t → Step m t u → Run m s u
