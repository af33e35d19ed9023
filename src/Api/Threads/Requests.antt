-- ===== src/Api/Threads/Requests.antt =====
-- A request, served with no other beside it, is a run of the calls that its handler makes.
use boringproxy.Prelude.{
  ℕ, ◌≡◌, refl, String, Option, none, some, [], ◌∷◌, ◌==◌, true, arith, eqb, update,
}
use boringproxy.Prelude.GoMap.{GoMap}
use boringproxy.Prelude.Result.{Result, ok, err, panic}
use boringproxy.Http.{Request, Values, get, parse_form}
use boringproxy.Outside.{Outside}
use boringproxy.Database.Types.{TokenData, DbClient, User, Tunnel}
use boringproxy.Database.Store.{get_tokens, delete_user}
use boringproxy.TunnelManager.Manager.{TunnelManager, World}
use boringproxy.Api.Tunnels.{
  tunnel_request, requested, api_create_tunnel, may_delete_tunnel, deleted, api_delete_tunnel,
}
use boringproxy.Api.Tokens.{
  token_client, issued, api_create_token, may_delete_token, revoked, api_delete_token,
}
use boringproxy.Api.Users.{
  may_create_user, enrolled, api_create_user, may_delete_user, delete_tokens_of, drop_if, expelled,
  api_delete_user,
}
use boringproxy.Api.Clients.{
  may_manage, owner_of, client_set, set_if, api_set_client, delete_if, api_delete_client,
}
use boringproxy.Api.Handlers.{on_db, serve_http}
use boringproxy.Api.Rule.{serve_http-Keeps}
use boringproxy.Api.Threads
use boringproxy.Api.Threads.{
  Call, new_token, drop_token, put_user, new_tunnel, drop_tunnel, on_database, perform, Thread,
  elsewhere, listing, dropping, Threads, moved_to, Step, call, begin, list, turn, finish, Run, here,
  next,
}

at_self : (f : ℕ → Thread) (n : ℕ) (x : Thread) → update f n x n ≡ x
at_self f n x = let itself : eqb n n ≡ true = ground arith in rw itself refl

-- A goroutine that is in no DeleteUser can go on, with no other beside it, to this state, and is in
-- none again.
module _ (m : TunnelManager) (s : Threads) (n : ℕ) where
  abbrev pub Reaches : World → Type 0
  Reaches w = (t : Threads) × Run m s t × (t.world ≡ w) × (t.thread n ≡ elsewhere)

  -- The loop of DeleteUser.
  drops :
      (name : String) (toks : GoMap TokenData) (t : Threads)
      → Run m s t
      → t.thread n ≡ dropping name toks
      → Reaches (on_database t.world (delete_tokens_of name toks t.world.db))
  unfolding delete_tokens_of
  drops name [] t run e =
      (moved_to t n t.world.db elsewhere, next run (finish n name e), refl, at_self t.thread n _)
  drops name ((token, u) ∷ rest) t run e =
      drops name rest
        (moved_to t n (drop_if (u.owner == name) token t.world.db) (dropping name rest))
        (next run (turn n name token u rest e)) (at_self t.thread n _)

  module _ (e : s.thread n ≡ elsewhere) where
    pub nothing : Reaches s.world
    nothing = (s, here, refl, e)

    one_call : (c : Call) → Reaches (perform m c s.world)
    one_call c = (record s { world = perform m c s.world }, next here (call c), refl, e)

    deletes : (name : String) → Reaches (on_db s.world (expelled name s.world.db (ok tt))).0
    deletes name =
        let begun = moved_to s n (delete_user name s.world.db) (listing name) in
        let at_list = at_self s.thread n (listing name) in
        drops name (get_tokens begun.world.db)
          (moved_to begun n begun.world.db (dropping name (get_tokens begun.world.db)))
          (next (next here (begin n name e)) (list n name at_list)) (at_self begun.thread n _)

    module _ (o : Outside) (td : TokenData) (params : Values) where
      pub api_create_tunnel-Reaches : Reaches (api_create_tunnel m o td params s.world).0
      unfolding api_create_tunnel perform
      api_create_tunnel-Reaches = go (tunnel_request m.config td params s.world.db)
        where
          go : (r : Result Tunnel) → Reaches (requested m o s.world r).0
          go (ok req) = one_call (new_tunnel o req)
          go (err x) = nothing
          go panic = nothing

      pub api_delete_tunnel-Reaches : Reaches (api_delete_tunnel m o td params s.world).0
      unfolding api_delete_tunnel perform
      api_delete_tunnel-Reaches = go (may_delete_tunnel td params s.world.db)
        where
          go : (r : Result (Unit {0})) → Reaches (deleted m o (get "domain" params) s.world r).0
          go (ok u) = one_call (drop_tunnel o (get "domain" params))
          go (err x) = nothing
          go panic = nothing

      pub api_create_token-Reaches :
          Reaches (on_db s.world (api_create_token o.random td params s.world.db)).0
      unfolding api_create_token perform
      api_create_token-Reaches = go (token_client td params s.world.db)
        where
          go :
              (r : Result String)
              → Reaches (on_db s.world (issued o.random (get "owner" params) s.world.db r)).0
          go (ok client) = one_call (new_token o.random (get "owner" params) client)
          go (err x) = nothing
          go panic = nothing

    module _ (td : TokenData) (params : Values) where
      pub api_delete_token-Reaches :
          Reaches (on_db s.world (api_delete_token td params s.world.db)).0
      unfolding api_delete_token perform
      api_delete_token-Reaches = go (may_delete_token td params s.world.db)
        where
          go :
              (r : Result (Unit {0}))
              → Reaches (on_db s.world (revoked (get "token" params) s.world.db r)).0
          go (ok u) = one_call (drop_token (get "token" params))
          go (err x) = nothing
          go panic = nothing

      pub api_create_user-Reaches : Reaches (on_db s.world (api_create_user td params s.world.db)).0
      unfolding api_create_user perform
      api_create_user-Reaches = go (may_create_user td params s.world.db)
        where
          go : (r : Result (Unit {0})) → Reaches (on_db s.world (enrolled params s.world.db r)).0
          go (ok u) =
              one_call (Threads.new_user (get "username" params) (get "is-admin" params == "on"))
          go (err x) = nothing
          go panic = nothing

      pub api_delete_user-Reaches : Reaches (on_db s.world (api_delete_user td params s.world.db)).0
      unfolding api_delete_user
      api_delete_user-Reaches = go (may_delete_user td params s.world.db)
        where
          go :
              (r : Result (Unit {0}))
              → Reaches (on_db s.world (expelled (get "username" params) s.world.db r)).0
          go (ok u) = deletes (get "username" params)
          go (err x) = nothing
          go panic = nothing

    module _ (td : TokenData) (owner_id client_id : String) where
      set-Reaches :
          (owner : User) (clients : Option (GoMap DbClient))
          → Reaches (on_db s.world (client_set owner_id client_id s.world.db owner clients)).0
      unfolding perform
      set-Reaches owner none = nothing
      set-Reaches owner (some clients) = one_call (put_user owner_id _)

      pub api_set_client-Reaches :
          Reaches (on_db s.world (api_set_client td owner_id client_id s.world.db)).0
      unfolding api_set_client
      api_set_client-Reaches = go (may_manage td owner_id s.world.db)
        where
          go :
              (r : Result (Unit {0}))
              → Reaches (on_db s.world (set_if owner_id client_id s.world.db r)).0
          go (ok u) =
              set-Reaches (owner_of owner_id s.world.db) (owner_of owner_id s.world.db).clients
          go (err x) = nothing
          go panic = nothing

      pub api_delete_client-Reaches :
          Reaches (on_db s.world (api_delete_client td owner_id client_id s.world.db)).0
      unfolding api_delete_client perform
      api_delete_client-Reaches = go (may_manage td owner_id s.world.db)
        where
          go :
              (r : Result (Unit {0}))
              → Reaches (on_db s.world (delete_if owner_id client_id s.world.db r)).0
          go (ok u) = one_call (put_user owner_id _)
          go (err x) = nothing
          go panic = nothing

    pub serve_http-Reaches : (o : Outside) (r : Request) → Reaches (serve_http m o r s.world).0
    serve_http-Reaches o r = serve_http-Keeps Reaches m o r s.world (record {
      start = nothing;
      create_tunnel = λ t _ _. api_create_tunnel-Reaches o t (parse_form r);
      delete_tunnel = λ t _ _. api_delete_tunnel-Reaches o t (parse_form r);
      create_user = λ t _ _. api_create_user-Reaches t (parse_form r);
      create_token = λ t _ _. api_create_token-Reaches o t (parse_form r);
      set_client = λ t user client _ _. api_set_client-Reaches t user client;
      delete_client = λ t user client _ _. api_delete_client-Reaches t user client;
    })
