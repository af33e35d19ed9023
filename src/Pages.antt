-- ===== src/Pages.antt =====
-- The pages of the web interface (ui_handler.go): the template that is executed and what it is given.
-- `Head` is left out, since no code sets it.
use boringproxy.Prelude.{String}
use boringproxy.Prelude.GoMap.{GoMap}
use boringproxy.Database.Types.{TokenData, DbClient, User, Tunnel}

pub data Page : Type 0 where
  login_page : Page
  -- the message and where it leads
  alert_page : String → String → Page
  -- the message, and where a confirmation and a cancellation lead
  confirm_page : String → String → String → Page
  -- where the page leads when the work is done
  loading_page : String → Page
  -- the domain, the caller's name and data, and the users to choose from
  edit_tunnel_page : String → String → User → GoMap User → Page
  tunnels_page : User → GoMap Tunnel → Page
  tunnel_page : User → Tunnel → Page
  -- the tokens, the caller, the users, and the QR code of each token
  tokens_page : GoMap TokenData → User → GoMap User → GoMap String → Page
  clients_page : User → GoMap User → GoMap DbClient → Page
  users_page : User → GoMap User → Page
  -- the owner of the new token and its data
  add_token_client_page : String → User → Page
