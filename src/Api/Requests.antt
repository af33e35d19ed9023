-- ===== src/Api/Requests.antt =====
-- What a request for a tunnel has passed when CreateTunnel hands it on.
use boringproxy.Prelude.{◌≡◌, ◌≢◌, ◌⊎◌, String, Bool, true, not, ◌==◌, ◌!=◌, ◌&&◌, arith, eq_iff}
use boringproxy.Prelude.Int.{pos}
use boringproxy.Prelude.Result.{ok, fail_if, >>=-eq-ok}
use boringproxy.Http.{Values, get}
use boringproxy.Database.Types.{TokenData, Tunnel}
use boringproxy.Database.Store.{Database}
use boringproxy.TunnelManager.Manager.{Config}
use boringproxy.Api.Tunnels.{
  caller, int_param, tunnel_port_param, credential, is_tls_termination, tunnel_request,
}

pub record IsGranted (token_data : TokenData) (params : Values) (d : Database) (req : Tunnel)
    : Type 0 where
  pub domain : req.domain ≡ get "domain" params
  pub has_domain : req.domain ≢ ""
  pub owner : req.owner ≡ get "owner" params
  pub has_owner : req.owner ≢ ""
  pub allowed : (req.owner ≡ token_data.owner) ⊎ ((caller token_data d).is_admin ≡ true)
  pub tls : is_tls_termination req.tls_termination ≡ true
  pub client_name : req.client_name ≡ get "client-name" params
  -- with password protection there is a user name and a password, without it neither
  pub protected :
      ((get "password-protect" params ≡ "on") × (req.auth_username ≢ "") × (req.auth_password ≢ ""))
      ⊎ ((get "password-protect" params ≢ "on")
          × (req.auth_username ≡ "")
          × (req.auth_password ≡ ""))

ne_of_passed : (s e : String) (u : Unit {0}) → fail_if (s == "") e ≡ ok u → s ≢ ""
ne_of_passed s e u h = ground (arith, eq_iff s "")

true_of_passed : (b : Bool) (e : String) (u : Unit {0}) → fail_if (not b) e ≡ ok u → b ≡ true
true_of_passed b e u h = ground arith

allowed_of_passed :
    (me owner : String) (admin : Bool) (e : String) (u : Unit {0})
    → fail_if (me != owner && not admin) e ≡ ok u
    → (owner ≡ me) ⊎ (admin ≡ true)
allowed_of_passed me owner admin e u h = ground (arith, eq_iff me owner)

protected_of_passed :
    (switch user password e f x y u p : String)
    → credential (switch == "on") user e ≡ ok x
    → credential (switch == "on") password f ≡ ok y
    → u ≡ x
    → p ≡ y
    → ((switch ≡ "on") × (u ≢ "") × (p ≢ "")) ⊎ ((switch ≢ "on") × (u ≡ "") × (p ≡ ""))
protected_of_passed switch user password e f x y u p h k i j =
    ground (arith, eq_iff switch "on", eq_iff user "", eq_iff password "")

-- A request that CreateTunnel hands to the tunnel manager has the domain, the owner and the client of
-- the parameters, none of the first two empty; its owner is the caller unless the caller is an admin;
-- its TLS termination is one of the five; and where a password is asked for, it has a user name and a
-- password, and where none is, neither.
pub tunnel_request-IsGranted :
    (config : Config) (token_data : TokenData) (params : Values) (d : Database) (req : Tunnel)
    → tunnel_request config token_data params d ≡ ok req
    → IsGranted token_data params d req
unfolding tunnel_request
tunnel_request-IsGranted config token_data params d req h =
    let value = λ (k : String). get k params in
    let protect : Bool = value "password-protect" == "on" in
    let (u₁, a, h₁) = >>=-eq-ok (fail_if (value "domain" == "") _) _ h in
    let (u₂, b, h₂) = >>=-eq-ok (fail_if (value "owner" == "") _) _ h₁ in
    let (u₃, c, h₃) =
      >>=-eq-ok
        (fail_if (token_data.owner != value "owner" && not (caller token_data d).is_admin) _) _
        h₂ in
    let (client_port, _, h₄) = >>=-eq-ok (int_param (pos 0) (value "client-port") _) _ h₃ in
    let (tunnel_port, _, h₅) = >>=-eq-ok (tunnel_port_param (value "tunnel-port")) _ h₄ in
    let (username, n, h₆) = >>=-eq-ok (credential protect (value "username") _) _ h₅ in
    let (password, p, h₇) = >>=-eq-ok (credential protect (value "password") _) _ h₆ in
    let (u₈, q, h₈) =
      >>=-eq-ok (fail_if (not (is_tls_termination (value "tls-termination"))) _) _ h₇ in
    let (ssh_server_port, _, h₉) =
      >>=-eq-ok (int_param config.ssh_server_port (value "ssh-server-port") _) _ h₈ in
    let req_domain : req.domain ≡ value "domain" = cc h₉ in
    let req_owner : req.owner ≡ value "owner" = cc h₉ in
    let req_tls : req.tls_termination ≡ value "tls-termination" = cc h₉ in
    let req_user : req.auth_username ≡ username = cc h₉ in
    let req_password : req.auth_password ≡ password = cc h₉ in
    record {
      domain = req_domain;
      has_domain = rw req_domain (ne_of_passed (value "domain") _ u₁ a);
      owner = req_owner;
      has_owner = rw req_owner (ne_of_passed (value "owner") _ u₂ b);
      allowed = rw req_owner (allowed_of_passed token_data.owner (value "owner") _ _ u₃ c);
      tls = rw req_tls (true_of_passed _ _ u₈ q);
      client_name = cc h₉;
      protected =
          protected_of_passed (value "password-protect") (value "username") (value "password")
            "Username required" "Password required" username password req.auth_username
            req.auth_password n p req_user req_password;
    }
