-- ===== src/Api/Isolation/Requests.antt =====
-- A whole request of a caller that is no admin.
use boringproxy.Prelude.{◌≡◌, false}
use boringproxy.Http.{Request, parse_form}
use boringproxy.Outside.{Outside}
use boringproxy.Database.Types.{TokenData}
use boringproxy.TunnelManager.Manager.{TunnelManager, World}
use boringproxy.TunnelManager.Invariant.{IsConsistent}
use boringproxy.Api.Tunnels.{caller}
use boringproxy.Api.Handlers.{serve_http}
use boringproxy.Api.Rule.{IsCaller, IsCaller-unique, Keeps, serve_http-Keeps}
use boringproxy.Api.Isolation.{Isolated, Isolated-refl, IsFresh}
use boringproxy.Api.Isolation.Tunnels.{api_create_tunnel-Isolated, api_delete_tunnel-Isolated}
use boringproxy.Api.Isolation.Tokens.{api_create_token-Isolated, api_create_user-refused}
use boringproxy.Api.Isolation.Clients.{api_set_client-Isolated, api_delete_client-Isolated}

-- Whatever a user that is no admin sends to the API, and whatever fails outside, nothing in the
-- database changes but what is the user's own: the tunnels and tokens of others are all there and no
-- new ones appear, other users are as they were, and the user has become no admin. The table of tunnels
-- is taken to be consistent, and the code of a new token to be unused. The file authorized_keys is not
-- covered.
pub serve_http-Isolated :
    (m : TunnelManager) (o : Outside) (r : Request) (w : World) (token_data : TokenData)
    → IsCaller r w token_data
    → (caller token_data w.db).is_admin ≡ false
    → IsConsistent w.db.tunnels
    → IsFresh o.random w.db
    → Isolated token_data.owner w.db (serve_http m o r w).0.db
serve_http-Isolated m o r w token_data me low c new =
    serve_http-Keeps (λ w'. Isolated token_data.owner w.db w'.db) m o r w keep
  where
    keep : Keeps (λ w'. Isolated token_data.owner w.db w'.db) m o r w
    keep = record {
      start = Isolated-refl token_data.owner w.db;
      create_tunnel = λ t k _.
          rw (IsCaller-unique r w t token_data k me)
            (api_create_tunnel-Isolated m o token_data (parse_form r) w low c);
      delete_tunnel = λ t k _.
          rw (IsCaller-unique r w t token_data k me)
            (api_delete_tunnel-Isolated m o token_data (parse_form r) w low);
      create_user = λ t k _.
          rw
            (
              IsCaller-unique r w t token_data k me,
              api_create_user-refused token_data (parse_form r) w.db low,
            )
            (Isolated-refl token_data.owner w.db);
      create_token = λ t k _.
          rw (IsCaller-unique r w t token_data k me)
            (api_create_token-Isolated token_data (parse_form r) o.random w.db low new);
      set_client = λ t user client k _.
          rw (IsCaller-unique r w t token_data k me)
            (api_set_client-Isolated token_data user client w.db low);
      delete_client = λ t user client k _.
          rw (IsCaller-unique r w t token_data k me)
            (api_delete_client-Isolated token_data user client w.db low);
    }
