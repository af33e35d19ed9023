-- ===== src/Client/Permit.antt =====
-- BoreTunnel and the key that the server wrote for its tunnel.
use text.Mathlib.TextLemmas.{append_assoc}
use boringproxy.Prelude.{◌≡◌, sym, ap, ◌∙◌, String, some}
use boringproxy.Prelude.Text.{◌⧺◌, trim_space}
use boringproxy.Prelude.Result.{Result, ok, err, panic, >>=-eq-ok}
use boringproxy.Outside.{Outside}
use boringproxy.Database.Types.{Tunnel}
use boringproxy.TunnelManager.Keys.{
  make_ssh_key_pair, restrictions, key_options, key_line, tunnel_id, add_to_authorized_keys,
}
use boringproxy.TunnelManager.KeyFile.{FileWorks, add_to_authorized_keys_lem}
use boringproxy.TunnelManager.Manager.{
  TunnelManager, World, completed, stored, created, request_create_tunnel,
}
use boringproxy.Client.Bore.{Ssh, Bored, bore_tunnel, no_error, tunnel_address}

bore_tunnel-address :
    (ssh : Ssh) (t : Tunnel) (b : Bored) → bore_tunnel ssh t ≡ ok b → b.address ≡ tunnel_address t
unfolding bore_tunnel
bore_tunnel-address ssh t b h =
    let (_, _, dialled_in) =
      >>=-eq-ok (no_error _ (ssh.parse_private_key t.tunnel_private_key)) _ h in
    let (_, _, listening) = >>=-eq-ok (no_error _ (ssh.dial _ t.username)) _ dialled_in in
    let (_, _, served) = >>=-eq-ok (no_error _ (ssh.listen (tunnel_address t))) _ listening in
    cc served

key_options-address :
    (t : Tunnel)
    → key_options t.allow_external_tcp t.tunnel_port ≡ restrictions ⧺ tunnel_address t ⧺ "\""
unfolding key_options
key_options-address t = simp append_assoc

stored-key :
    (m : TunnelManager) (u t : Tunnel) (w : World) (old pub_key priv_key : String)
    → (stored m u w (
      some (old ⧺ key_line u.domain u.tunnel_port u.allow_external_tcp pub_key ⧺ "\n"),
      ok priv_key,
    )).1
      ≡ ok t
    → (t.tunnel_private_key ≡ priv_key)
      × ((stored m u w (
        some (old ⧺ key_line u.domain u.tunnel_port u.allow_external_tcp pub_key ⧺ "\n"),
        ok priv_key,
      )).0.authorized_keys
          ≡ some (old ⧺ key_line t.domain t.tunnel_port t.allow_external_tcp pub_key ⧺ "\n"))
stored-key m u t w old pub_key priv_key h =
    let same : completed m u priv_key ≡ t = cc h in
    (
      ap (λ (v : Tunnel). v.tunnel_private_key) (sym same),
      ap
          (λ (v : Tunnel).
            some (old ⧺ key_line v.domain v.tunnel_port v.allow_external_tcp pub_key ⧺ "\n"))
          same,
    )

module _ (m : TunnelManager) (o : Outside) (w : World) (old pub_key priv_key : String) (t : Tunnel)
    (works : FileWorks o) (pair : make_ssh_key_pair o ≡ ok (pub_key, priv_key))
    (there : w.authorized_keys ≡ some old) where
  added :
      (u : Tunnel)
      → add_to_authorized_keys o u.domain u.tunnel_port u.allow_external_tcp w.authorized_keys ≡ (
        some (old ⧺ key_line u.domain u.tunnel_port u.allow_external_tcp pub_key ⧺ "\n"),
        ok priv_key,
      )
  added u =
      ap (add_to_authorized_keys o u.domain u.tunnel_port u.allow_external_tcp) there
      ∙ add_to_authorized_keys_lem o u.domain u.tunnel_port u.allow_external_tcp old pub_key
          priv_key works pair

  created-key :
      (r : Result Tunnel)
      → (created m o w r).1 ≡ ok t
      → (t.tunnel_private_key ≡ priv_key)
        × ((created m o w r).0.authorized_keys
            ≡ some (old ⧺ key_line t.domain t.tunnel_port t.allow_external_tcp pub_key ⧺ "\n"))
  created-key (ok u) h =
      let stored_so = ap (stored m u w) (added u) in
      let (key, file) =
        stored-key m u t w old pub_key priv_key (ap (λ s. s.1) (sym stored_so) ∙ h) in
      (key, ap (λ s. s.0.authorized_keys) stored_so ∙ file)
  created-key (err e) h = absurd (cc h)
  created-key panic h = absurd (cc h)

-- A successful creation whose file calls work, on a file authorized_keys that exists, leaves in the file
-- what it held, and directly behind that one text that ends in a line end: the restrictions with the
-- address at which a client that bores the tunnel asks to listen as permitlisten, the public key of the
-- pair whose private one the tunnel gets, and the tunnel's identifier.
pub request_create_tunnel-permits :
    (m : TunnelManager) (o : Outside) (req t : Tunnel) (w : World) (old pub_key priv_key : String)
    (ssh : Ssh) (b : Bored)
    → FileWorks o
    → make_ssh_key_pair o ≡ ok (pub_key, priv_key)
    → w.authorized_keys ≡ some old
    → (request_create_tunnel m o req w).1 ≡ ok t
    → bore_tunnel ssh t ≡ ok b
    → (t.tunnel_private_key ≡ priv_key)
      × ((request_create_tunnel m o req w).0.authorized_keys
          ≡ some (
              old
              ⧺ ((restrictions ⧺ b.address ⧺ "\"")
                  ⧺ " "
                  ⧺ trim_space pub_key
                  ⧺ " "
                  ⧺ tunnel_id t.domain t.tunnel_port)
              ⧺ "\n"))
unfolding request_create_tunnel key_line
request_create_tunnel-permits m o req t w old pub_key priv_key ssh b works pair there h bored =
    let (key, file) = created-key m o w old pub_key priv_key t works pair there _ h in
    let options =
      key_options-address t
      ∙ ap (λ s. restrictions ⧺ s ⧺ "\"") (sym (bore_tunnel-address ssh t b bored)) in
    (
      key,
      file
          ∙ ap
              (λ s. some (
                old
                ⧺ (s ⧺ " " ⧺ trim_space pub_key ⧺ " " ⧺ tunnel_id t.domain t.tunnel_port)
                ⧺ "\n"))
              options,
    )
