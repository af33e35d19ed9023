-- ===== src/Server/Callback.antt =====
-- boringproxy.go: the callback of TakingNames.io, which makes a DNS record and, on a server that has no
-- admin domain yet, sets it.
use boringproxy.Prelude.{
  ℕ, String, Bool, Option, none, some, List, [], ◌∷◌, ◌==◌, ◌!=◌, ◌&&◌, not, if◌then◌else◌, ltb,
}
use boringproxy.Prelude.Text.{◌⧺◌, count}
use boringproxy.Prelude.GoMap.{GoMap}
use boringproxy.Prelude.Result.{Result, ok, err, panic}
use boringproxy.Http.{Request, Writer, fresh_writer, get, parse_form, refuse}
use boringproxy.Outside.{Outside}
use boringproxy.Database.Types.{TokenData}
use boringproxy.Database.Store.{get_admin_domain, set_admin_domain, get_tokens}
use boringproxy.Database.Dns.{delete_dns_request}
use boringproxy.TunnelManager.Manager.{TunnelManager, World}
use boringproxy.WebUi.Reply.{redirect}

-- namedrop.Scope and namedrop.Record
pub record Scope : Type 0 where
  pub domain : String
  pub host : String

pub record Record : Type 0 where
  pub domain : String
  pub host : String
  pub type : String
  pub value : String
  pub ttl : ℕ

-- The client of package namedrop, which keeps its requests in the database: GetToken, with what it
-- leaves of the requests and the scopes of the token, and CreateRecord's error, if it is not nil.
pub record Namedrop (Dns : Type 0) : Type 0 where
  pub get_token : String → String → GoMap Dns → GoMap Dns × Result (List Scope)
  pub create_record : Record → Option String

-- What a request has the server do: answer, or end the process by log.Fatal.
pub data CallbackReply : Type 0 where
  sent : Result Writer → CallbackReply
  fatal : CallbackReply

-- IsIPv4
unfoldable pub is_ipv4 : String → Bool
unfolding count
is_ipv4 address = ltb (count b':' address) 2

abbrev pub record_for : String → Scope → Record
record_for public_ip scope = record {
  domain = scope.domain;
  host = scope.host;
  type = if is_ipv4 public_ip then "A" else "AAAA";
  value = public_ip;
  ttl = 300;
}

-- The loop over the tokens: the first one of the admin is put into the link, also one that is limited
-- to a client.
unfoldable pub with_login : String → GoMap TokenData → String
with_login url [] = url
with_login url ((token, token_data) ∷ tokens) =
    let rest = with_login url tokens in
    if token_data.owner == "admin" then url ⧺ "/login?access_token=" ⧺ token else rest

abbrev pub first_domain : TunnelManager → Outside → String → World → World × CallbackReply
first_domain m o fqdn w =
    let d = set_admin_domain fqdn w.db in
    if m.config.auto_certs && not (o.manage_sync fqdn) then (record w { db = d }, fatal) else (
      record w { db = d },
      sent (ok (redirect (with_login ("https://" ⧺ fqdn) (get_tokens d)) fresh_writer)),
    )

abbrev pub fqdn_of : Scope → String
fqdn_of scope = scope.host ⧺ "." ⧺ scope.domain

abbrev pub recorded :
    TunnelManager → Outside → Scope → World → Option String → World × CallbackReply
recorded m o scope w (some e) = (w, sent (ok (refuse 500 e fresh_writer)))
recorded m o scope w none =
    if get_admin_domain w.db == "" then first_domain m o (fqdn_of scope) w else (
      w,
      sent (
          ok (
            redirect ("https://" ⧺ get_admin_domain w.db ⧺ "/edit-tunnel?domain=" ⧺ fqdn_of scope)
              fresh_writer)),
    )

module _ {Dns : Type 0} (n : Namedrop Dns) (m : TunnelManager) (o : Outside) where
  -- What is done with the token: its first scope is read, which a token without scopes has not.
  abbrev pub granted_scopes : World → Result (List Scope) → World × CallbackReply
  granted_scopes w (ok []) = (w, sent panic)
  granted_scopes w (ok (scope ∷ scopes)) =
      recorded m o scope w (n.create_record (record_for m.config.public_ip scope))
  granted_scopes w (err e) = (w, sent (ok (refuse 500 e fresh_writer)))
  granted_scopes w panic = (w, sent panic)

  abbrev pub with_scopes :
      World → GoMap Dns × Result (List Scope) → (World × GoMap Dns) × CallbackReply
  with_scopes w (dns, scopes) = let (w', reply) = granted_scopes w scopes in ((w', dns), reply)

  -- The handler of /namedrop/callback
  unfoldable pub namedrop_callback :
      Request → World × GoMap Dns → (World × GoMap Dns) × CallbackReply
  unfolding parse_form get refuse redirect set_admin_domain with_login is_ipv4 delete_dns_request
  namedrop_callback r (w, dns) =
      if get "error" (parse_form r) != ""
      then (
        (w, delete_dns_request (get "state" (parse_form r)) dns),
        sent (ok (redirect "/alert?message=Domain request failed" fresh_writer)),
      )
      else with_scopes w (n.get_token (get "state" (parse_form r)) (get "code" (parse_form r)) dns)
