-- ===== src/WebUi/Isolation.antt =====
-- What a request to the web interface may change for a caller that is no admin.
use boringproxy.Prelude.{◌≡◌, false}
use boringproxy.Http.{Request, parse_form}
use boringproxy.Outside.{Outside}
use boringproxy.Database.Types.{TokenData}
use boringproxy.TunnelManager.Manager.{TunnelManager, World}
use boringproxy.Api.Tunnels.{caller}
use boringproxy.Api.Rule.{IsCaller, IsCaller-unique}
use boringproxy.Api.Isolation.{Isolated, Isolated-refl, IsFresh}
use boringproxy.Api.Isolation.Tunnels.{api_delete_tunnel-Isolated}
use boringproxy.Api.Isolation.Tokens.{
  api_create_token-Isolated, api_delete_token-Isolated, api_create_user-refused,
  api_delete_user-refused,
}
use boringproxy.Api.Isolation.Clients.{api_set_client-Isolated, api_delete_client-Isolated}
use boringproxy.WebUi.Reply.{Assets, Outcome, answered, creating, loading}
use boringproxy.WebUi.Handler.{handle_web_ui_request}
use boringproxy.WebUi.Rule.{UiKeeps, IsAsked, handle_web_ui_request-Leads}

-- A creation that is started is one of this caller and of the request's form.
abbrev pub IsOfCaller : TokenData → Request → Outcome → Type 0
IsOfCaller token_data r (answered reply) = Unit
IsOfCaller token_data r (creating stale pending_id t form reply) =
    (t ≡ token_data) × (form ≡ parse_form r)
IsOfCaller token_data r (loading pending_id reply) = Unit

IsAsked-IsOfCaller :
    (r : Request) (w : World) (token_data : TokenData) (out : Outcome)
    → IsCaller r w token_data
    → IsAsked r w out
    → IsOfCaller token_data r out
IsAsked-IsOfCaller r w token_data (answered reply) me h = tt
IsAsked-IsOfCaller r w token_data (creating stale i t form reply) me (c, _, e) =
    (IsCaller-unique r w t token_data c me, e)
IsAsked-IsOfCaller r w token_data (loading i reply) me h = tt

-- Whatever a user that is no admin sends to the web interface, and whatever fails outside, if the
-- code of a new token is unused: up to where the request waits, nothing in the database changes but
-- what is the user's own, and the user has become no admin; and a creation that is started carries the
-- user's own token and the request's form. What that creation does later, and the file
-- authorized_keys, are not covered.
pub handle_web_ui_request-Isolated :
    (a : Assets) (m : TunnelManager) (o : Outside) (r : Request) (w : World)
    (token_data : TokenData)
    → IsCaller r w token_data
    → (caller token_data w.db).is_admin ≡ false
    → IsFresh o.random w.db
    → Isolated token_data.owner w.db (handle_web_ui_request a m o r w).0.db
      × IsOfCaller token_data r (handle_web_ui_request a m o r w).1
handle_web_ui_request-Isolated a m o r w token_data me low new =
    let led = handle_web_ui_request-Leads P a m o r w keep in
    (led.held, IsAsked-IsOfCaller r w token_data _ me led.asked)
  where
    P : World → Type 0
    P w' = Isolated token_data.owner w.db w'.db

    same : (t : TokenData) → IsCaller r w t → t ≡ token_data
    same t k = IsCaller-unique r w t token_data k me

    keep : UiKeeps P m o r w
    keep = record {
      start = Isolated-refl token_data.owner w.db;
      delete_tunnel =
          λ t k. rw (same t k) (api_delete_tunnel-Isolated m o token_data (parse_form r) w low);
      create_user = λ t k.
          rw (same t k, api_create_user-refused token_data (parse_form r) w.db low)
            (Isolated-refl token_data.owner w.db);
      delete_user = λ t k.
          rw (same t k, api_delete_user-refused token_data (parse_form r) w.db low)
            (Isolated-refl token_data.owner w.db);
      create_token = λ t k.
          rw (same t k) (api_create_token-Isolated token_data (parse_form r) o.random w.db low new);
      delete_token =
          λ t k. rw (same t k) (api_delete_token-Isolated token_data (parse_form r) w.db low);
      set_client = λ t user client k.
          rw (same t k) (api_set_client-Isolated token_data user client w.db low);
      delete_client = λ t user client k.
          rw (same t k) (api_delete_client-Isolated token_data user client w.db low);
    }
