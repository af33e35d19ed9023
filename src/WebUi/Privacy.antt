-- ===== src/WebUi/Privacy.antt =====
-- What the web interface shows, from the request on.
use boringproxy.Prelude.{◌≡◌, refl, none, some}
use boringproxy.Prelude.GoMap.{lookup}
use boringproxy.Prelude.Result.{ok}
use boringproxy.Http.{Request, page, fresh_writer, get, parse_form, write}
use boringproxy.Pages.{add_token_client_page}
use boringproxy.Outside.{Outside}
use boringproxy.Database.Types.{TokenData, User}
use boringproxy.TunnelManager.Manager.{TunnelManager, World}
use boringproxy.Api.Rule.{IsCaller}
use boringproxy.WebUi.Reply.{Assets, answered, execute, show}
use boringproxy.WebUi.Tunnels.{add_token_client}
use boringproxy.WebUi.Handler.{pages, account_pages, handle_web_ui_request}

-- Where the templates work, the page /add-token-client holds the clients and the rank of any user
-- that exists and that the request names, for every caller whose token is limited to no client.
pub add_token_client-shows :
    (a : Assets) (m : TunnelManager) (o : Outside) (r : Request) (w : World) (t : TokenData)
    (user : User)
    → IsCaller r w t
    → t.client ≡ ""
    → r.path ≡ "/add-token-client"
    → lookup (get "owner" (parse_form r)) w.db.users ≡ some user
    → a.parse ≡ none
    → a.fault (add_token_client_page (get "owner" (parse_form r)) user) ≡ none
    → handle_web_ui_request a m o r w ≡ (
      w,
      answered (
          ok (write (page (add_token_client_page (get "owner" (parse_form r)) user)) fresh_writer)),
    )
unfolding handle_web_ui_request
add_token_client-shows a m o r w t user me free path found parses runs =
    rw (parses, me.carried, me.stored, free)
      (unfold pages account_pages add_token_client show execute in rw (path, found, runs) refl)
