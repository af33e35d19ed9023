-- ===== src/Api/Visibility.antt =====
-- Which tunnels and tokens a caller is sent.
use boringproxy.Prelude.{◌≡◌, String, Bool, not, ◌==◌, ◌!=◌, ◌&&◌, ◌||◌, arith, if◌then◌else◌}
use boringproxy.Prelude.GoMap.{
  lookup, filter, keep_if, option_map, lookup-filter, lookup-map_values,
}
use boringproxy.Prelude.Int.{ℤ}
use boringproxy.Database.Types.{TokenData, Tunnel}
use boringproxy.Database.Store.{Database}
use boringproxy.Api.Tunnels.{caller, api_get_tunnels}
use boringproxy.Api.Tokens.{api_get_tokens}
use boringproxy.Api.Handlers.{sent_tunnels}

-- The caller may see the tunnel: it is an admin or the owner.
abbrev pub sees : TokenData → Database → Tunnel → Bool
sees token_data d tun = (caller token_data d).is_admin || token_data.owner == tun.owner

pub lookup-api_get_tunnels :
    (token_data : TokenData) (d : Database) (k : String)
    → lookup k (api_get_tunnels token_data d) ≡ keep_if (sees token_data d) (lookup k d.tunnels)
unfolding api_get_tunnels
lookup-api_get_tunnels token_data d k = ground (
  arith,
  lookup-filter (λ (domain : String) (tun : Tunnel). token_data.owner == tun.owner) k d.tunnels,
)

-- A token limited to a client, and a client that is asked for, each leave only that client's tunnels.
abbrev pub wanted : TokenData → String → Tunnel → Bool
wanted token_data client_name tun =
    (token_data.client == "" || token_data.client == tun.client_name)
    && (client_name == "" || tun.client_name == client_name)

abbrev pub with_ssh_port : ℤ → String → Tunnel → Tunnel
with_ssh_port ssh_server_port client_name tun =
    if client_name == "" then tun else record tun { server_port = ssh_server_port }

-- GET /tunnels sends exactly the stored tunnels that the caller may see and that belong to the
-- token's client and to the client asked for, where there is one; with a client asked for, each has
-- the server's SSH port.
pub lookup-sent_tunnels :
    (ssh_server_port : ℤ) (token_data : TokenData) (client_name : String) (d : Database)
    (k : String)
    → lookup k (sent_tunnels ssh_server_port token_data client_name d)
      ≡ option_map (with_ssh_port ssh_server_port client_name) (
          keep_if
            (λ tun. sees token_data d tun && wanted token_data client_name tun)
            (lookup k d.tunnels))
unfolding sent_tunnels
lookup-sent_tunnels ssh_server_port token_data client_name d k =
    let all = api_get_tunnels token_data d in
    let of_token = λ (k : String) (tun : Tunnel). not (token_data.client != tun.client_name) in
    let of_query = λ (k : String) (tun : Tunnel). not (tun.client_name != client_name) in
    let set_port = λ (tun : Tunnel). record tun { server_port = ssh_server_port } in
    ground (
      arith,
      lookup-api_get_tunnels token_data d k,
      lookup-filter of_token k all,
      lookup-filter of_query k all,
      lookup-filter of_query k (filter of_token all),
      lookup-map_values set_port k (filter of_query all),
      lookup-map_values set_port k (filter of_query (filter of_token all)),
    )

-- GET /tokens sends all tokens to an admin, and to another caller exactly its own.
pub lookup-api_get_tokens :
    (token_data : TokenData) (d : Database) (k : String)
    → lookup k (api_get_tokens token_data d)
      ≡ keep_if
          (λ t. (caller token_data d).is_admin || t.owner == token_data.owner)
          (lookup k d.tokens)
unfolding api_get_tokens
lookup-api_get_tokens token_data d k = ground (
  arith,
  lookup-filter
      (λ (key : String) (tok : TokenData).
        not (not (caller token_data d).is_admin && tok.owner != token_data.owner))
      k d.tokens,
)
