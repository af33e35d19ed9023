-- ===== src/Server/Listen/Guard.antt =====
-- The admin domain guards the state of the server.
use boringproxy.Prelude.{
  ◌≡◌, refl, sym, ap, ◌∙◌, ◌≢◌, String, true, Option, none, some, List, [], ◌∷◌, ◌==◌, ◌!=◌, not,
  if◌then◌else◌, Bool-cases, inl, inr, eq_refl, test_of_ne,
}
use boringproxy.Prelude.Text.{has_prefix}
use boringproxy.Prelude.GoMap.{GoMap}
use boringproxy.Prelude.Result.{Result, ok, err, panic}
use boringproxy.Http.{Request, get, parse_form}
use boringproxy.Outside.{Outside}
use boringproxy.Database.Store.{Database, set_admin_domain, persist}
use boringproxy.TunnelManager.Manager.{TunnelManager, World}
use boringproxy.Server.{
  HttpRoute, bad_address, callback, to_api, to_web_ui, to_tunnel, no_tunnel, by_host, host_domain,
  route,
}
use boringproxy.Server.Routes.{IsRouted, route-IsRouted}
use boringproxy.Server.Callback.{
  Scope, Namedrop, first_domain, recorded, record_for, fqdn_of, granted_scopes, namedrop_callback,
}
use boringproxy.Server.Listen.{Incoming, Parts, by_route, serve}

-- A server with an admin domain keeps its database in a callback.
recorded-keeps :
    (m : TunnelManager) (o : Outside) (scope : Scope) (w : World) (e : Option String)
    → w.db.admin_domain ≢ ""
    → (recorded m o scope w e).0 ≡ w
recorded-keeps m o scope w (some e) h = refl
recorded-keeps m o scope w none h = rw (test_of_ne w.db.admin_domain "" h) refl

module _ {Dns : Type 0} (n : Namedrop Dns) (m : TunnelManager) (o : Outside) (w : World)
    (set : w.db.admin_domain ≢ "") where
  granted-keeps : (scopes : Result (List Scope)) → (granted_scopes n m o w scopes).0 ≡ w
  granted-keeps (ok []) = refl
  granted-keeps (ok (scope ∷ scopes)) =
      recorded-keeps m o scope w (n.create_record (record_for m.config.public_ip scope)) set
  granted-keeps (err e) = refl
  granted-keeps panic = refl

  callback-keeps : (r : Request) (dns : GoMap Dns) → (namedrop_callback n m o r (w, dns)).0.0 ≡ w
  unfolding namedrop_callback
  callback-keeps r dns = elim (Bool-cases (get "error" (parse_form r) != "")) [
    | inl e ↦ rw e refl
    | inr e ↦
        rw e (
          granted-keeps
            (n.get_token (get "state" (parse_form r)) (get "code" (parse_form r)) dns).1)
  ]

module _ {Dns : Type 0} (parts : Parts Dns) (m : TunnelManager) (o : Outside) (r : Incoming)
    (w : World) (dns : GoMap Dns) (set : w.db.admin_domain ≢ "")
    (elsewhere : host_domain r.request.host ≢ w.db.admin_domain) where
  routed-keeps :
      (to : HttpRoute) → IsRouted r.request w.db to → (by_route parts m o r w dns (ok to)).0.0 ≡ w
  routed-keeps (bad_address e) h = refl
  routed-keeps callback h = callback-keeps parts.namedrop m o w set r.request dns
  routed-keeps to_api h = absurd (elsewhere h.0)
  routed-keeps to_web_ui h = absurd (elsewhere h.0)
  routed-keeps (to_tunnel t) h = refl
  routed-keeps (no_tunnel message) h = refl

  routed-dns :
      (to : HttpRoute)
      → IsRouted r.request w.db to
      → r.request.path ≢ "/namedrop/callback"
      → (by_route parts m o r w dns (ok to)).0.1 ≡ dns
  routed-dns (bad_address e) h n = refl
  routed-dns callback h n = absurd (n h)
  routed-dns to_api h n = refl
  routed-dns to_web_ui h n = refl
  routed-dns (to_tunnel t) h n = refl
  routed-dns (no_tunnel message) h n = refl

  split-dns :
      (address : Result String)
      → r.request.path ≢ "/namedrop/callback"
      → (by_route parts m o r w dns (route address r.request w.db)).0.1 ≡ dns
  unfolding route
  split-dns (ok ip) n =
      let (to, e, h) = route-IsRouted ip r.request w.db in rw e (routed-dns to h n)
  split-dns (err e) n = refl
  split-dns panic n = refl

  split-keeps :
      (address : Result String)
      → (by_route parts m o r w dns (route address r.request w.db)).0.0 ≡ w
  unfolding route
  split-keeps (ok ip) =
      let (to, e, h) = route-IsRouted ip r.request w.db in rw e (routed-keeps to h)
  split-keeps (err e) = refl
  split-keeps panic = refl

  -- On a server that has an admin domain, a request under any other host leaves what is persisted of
  -- the database and the authorized keys as they were, whatever its path, the callback of
  -- TakingNames.io included; and all but that callback leave the pending DNS requests, too.
  pub serve-keeps :
      ((serve parts m o r w dns).0.0 ≡ w)
      × (r.request.path ≢ "/namedrop/callback" → (serve parts m o r w dns).0.1 ≡ dns)
  unfolding serve
  serve-keeps = (
    split-keeps (parts.network.split_host_port r.request.remote_addr),
    split-dns (parts.network.split_host_port r.request.remote_addr),
  )

first_domain-sets :
    (m : TunnelManager) (o : Outside) (fqdn : String) (w : World)
    → o.manage_sync fqdn ≡ true
    → (first_domain m o fqdn w).0 ≡ record w { db = set_admin_domain fqdn w.db }
first_domain-sets m o fqdn w h = elim (Bool-cases m.config.auto_certs) [
  | inl e ↦ rw (e, h) refl
  | inr e ↦ rw e refl
]

test_of_eq : (a b : String) → a ≡ b → (a == b) ≡ true
test_of_eq a b h = rw h (eq_refl b)

recorded-sets :
    (m : TunnelManager) (o : Outside) (scope : Scope) (w : World) (e : Option String)
    → w.db.admin_domain ≡ ""
    → e ≡ none
    → o.manage_sync (fqdn_of scope) ≡ true
    → (recorded m o scope w e).0 ≡ record w { db = set_admin_domain (fqdn_of scope) w.db }
recorded-sets m o scope w (some e) h none_left sync = absurd (cc none_left)
recorded-sets m o scope w none h e sync =
    rw (test_of_eq w.db.admin_domain "" h) (first_domain-sets m o (fqdn_of scope) w sync)

callback-sets :
    {Dns : Type 0} (n : Namedrop Dns) (m : TunnelManager) (o : Outside) (r : Request) (w : World)
    (dns dns' : GoMap Dns) (scope : Scope) (scopes : List Scope)
    → w.db.admin_domain ≡ ""
    → get "error" (parse_form r) ≡ ""
    → n.get_token (get "state" (parse_form r)) (get "code" (parse_form r)) dns
      ≡ (dns', ok (scope ∷ scopes))
    → n.create_record (record_for m.config.public_ip scope) ≡ none
    → o.manage_sync (fqdn_of scope) ≡ true
    → (namedrop_callback n m o r (w, dns)).0
      ≡ (record w { db = set_admin_domain (fqdn_of scope) w.db }, dns')
unfolding namedrop_callback
callback-sets n m o r w dns dns' scope scopes bare fine grant made sync =
    rw (ap not (test_of_eq (get "error" (parse_form r)) "" fine), grant)
      (rw
        (recorded-sets m o scope w (n.create_record (record_for m.config.public_ip scope)) bare made
          sync)
        refl)

by_host-here :
    (r : Request) (d : Database)
    → r.path ≢ "/namedrop/callback"
    → host_domain r.host ≡ d.admin_domain
    → by_host r d ≡ (if has_prefix r.path "/api/" then to_api else to_web_ui)
by_host-here r d path host =
    rw (test_of_ne r.path "/namedrop/callback" path, host, eq_refl d.admin_domain) refl

domain-set : (domain : String) (d : Database) → (set_admin_domain domain d).admin_domain ≡ domain
unfolding set_admin_domain persist
domain-set domain d = refl

-- On a server without an admin domain, a callback that reports no error, whose token has a scope,
-- and whose record and certificate are made, changes the admin domain alone, to the scope's; and
-- from then on a request for that host, but for another callback, is served by the API or the web
-- interface, as its path says.
pub namedrop_callback-first :
    {Dns : Type 0} (n : Namedrop Dns) (m : TunnelManager) (o : Outside) (r later : Request)
    (w : World) (dns dns' : GoMap Dns) (scope : Scope) (scopes : List Scope)
    → w.db.admin_domain ≡ ""
    → get "error" (parse_form r) ≡ ""
    → n.get_token (get "state" (parse_form r)) (get "code" (parse_form r)) dns
      ≡ (dns', ok (scope ∷ scopes))
    → n.create_record (record_for m.config.public_ip scope) ≡ none
    → o.manage_sync (fqdn_of scope) ≡ true
    → host_domain later.host ≡ fqdn_of scope
    → later.path ≢ "/namedrop/callback"
    → (namedrop_callback n m o r (w, dns)).0
        ≡ (record w { db = set_admin_domain (fqdn_of scope) w.db }, dns')
      × (by_host later (namedrop_callback n m o r (w, dns)).0.0.db
          ≡ (if has_prefix later.path "/api/" then to_api else to_web_ui))
namedrop_callback-first n m o r later w dns dns' scope scopes bare fine grant made sync host path =
    let set = callback-sets n m o r w dns dns' scope scopes bare fine grant made sync in
    (
      set,
      by_host-here later (namedrop_callback n m o r (w, dns)).0.0.db path
          (host ∙ sym (ap (λ s. s.0.db.admin_domain) set ∙ domain-set (fqdn_of scope) w.db)),
    )
