-- ===== src/Tests/Tunnels.antt =====
-- The tunnel manager: its theorems at concrete inputs.
use boringproxy.Prelude.{
  ◌≡◌, refl, ◌≢◌, ◌⊎◌, String, true, false, none, some, [], ◌∷◌, ◌==◌, if◌then◌else◌, arith, eq_iff,
  is_some,
}
use boringproxy.Prelude.Result.{ok, err}
use boringproxy.Prelude.Int.{pos, itoa}
use boringproxy.Prelude.GoMap.{lookup}
use boringproxy.Prelude.Text.{◌⧺◌, split, contains, trim_space, Lacks, unlines}
use boringproxy.Prelude.Text.Lines.{lists}
use boringproxy.Database.Types.{Tunnel}
use boringproxy.TunnelManager.Keys.{
  make_ssh_key_pair, tunnel_id, add_to_authorized_keys, remove_from_authorized_keys,
}
use boringproxy.TunnelManager.Manager.{request_create_tunnel, remove_tunnel}
use boringproxy.TunnelManager.Outcome.{IsAtomic, request_create_tunnel-IsAtomic, remove_tunnel_lem}
use boringproxy.TunnelManager.Invariant.{IsConsistent, request_create_tunnel-taken}
use boringproxy.TunnelManager.KeyFile.{FileWorks, remove-add_to_authorized_keys}
use boringproxy.TunnelManager.Revocation.{IsRevoked, remove_from_authorized_keys-IsRevoked}
use boringproxy.TunnelManager.ForeignLines.{
  remove-add_to_authorized_keys-loses, add_to_authorized_keys-lists,
}
use boringproxy.Examples.{works, site, database, manager, world}

site_only :
    (k : String) (t : Tunnel)
    → lookup k database.tunnels ≡ some t
    → (k ≡ "a.example.com") × (t ≡ site)
unfolding lookup
site_only k t h = ground (arith, eq_iff "a.example.com" k)

pub database-IsConsistent : IsConsistent database.tunnels
database-IsConsistent = record {
  keyed = λ k t h. let (a, b) = site_only k t h in rw (a, b);
  owned = λ k t h. let (a, b) = site_only k t h in rw b (ground (arith, eq_iff "admin" ""));
  distinct =
      λ j k s t h i e. let (a, _) = site_only j s h in let (b, _) = site_only k t i in rw (a, b);
}

file_works : FileWorks works
file_works = record {
  opens = refl;
  reads = refl;
  truncates = refl;
  seeks = refl;
  writes = λ s. refl;
}

abbrev wanted : Tunnel
wanted = record site { domain = "b.example.com"; tunnel_port = pos 0; owner = "bob" }

request_create_tunnel-IsAtomic_example :
    IsAtomic manager wanted world
      (request_create_tunnel manager works wanted world).0
      (request_create_tunnel manager works wanted world).1
request_create_tunnel-IsAtomic_example = request_create_tunnel-IsAtomic manager works wanted world

remove_tunnel_lem_example :
    (lookup "a.example.com" (remove_tunnel manager works "a.example.com" world).0.db.tunnels ≡ (
      if "a.example.com" == "a.example.com" then none else lookup "a.example.com" world.db.tunnels))
    × ((remove_tunnel manager works "a.example.com" world).0.db.admin_domain
        ≡ world.db.admin_domain)
    × ((remove_tunnel manager works "a.example.com" world).0.db.tokens ≡ world.db.tokens)
    × ((remove_tunnel manager works "a.example.com" world).0.db.users ≡ world.db.users)
    × ((is_some (lookup "a.example.com" world.db.tunnels) ≡ true)
        ⊎ (remove_tunnel manager works "a.example.com" world ≡ (world, err "Tunnel doesn't exist")))
remove_tunnel_lem_example = remove_tunnel_lem manager works "a.example.com" "a.example.com" world

abbrev again : Tunnel
again = record wanted { domain = "a.example.com" }

stored_site : lookup again.domain world.db.tunnels ≡ some site
unfolding lookup
stored_site = refl

request_create_tunnel-taken_example :
    ((request_create_tunnel manager works again world).0.db ≡ world.db)
    × ((u : Tunnel) → (request_create_tunnel manager works again world).1 ≢ ok u)
request_create_tunnel-taken_example =
    request_create_tunnel-taken manager works again world site database-IsConsistent stored_site

pair : make_ssh_key_pair works ≡ ok ("ssh-rsa AAAA\n", "PEM")
unfolding make_ssh_key_pair
pair = refl

domain-Lacks : Lacks b'\n' "b.example.com"
domain-Lacks = omega arith

key-Lacks : Lacks b'\n' (trim_space "ssh-rsa AAAA\n")
unfolding trim_space
key-Lacks = omega arith

old-Lacks : Lacks b'\n' "ssh-rsa OLD me"
old-Lacks = omega arith

old-Free : contains "ssh-rsa OLD me" (tunnel_id "b.example.com" (pos 5002)) ≡ false
unfolding contains tunnel_id itoa
old-Free = refl

remove-add_to_authorized_keys_example :
    remove_from_authorized_keys works "/k" "b.example.com"
      (pos 5002)
      (add_to_authorized_keys works "b.example.com"
        (pos 5002)
        false
        (some (unlines ("ssh-rsa OLD me" ∷ [])))).0
    ≡ (some (unlines ("ssh-rsa OLD me" ∷ [])), ok tt)
remove-add_to_authorized_keys_example =
    remove-add_to_authorized_keys works works "/k" "b.example.com" (pos 5002) false
      ("ssh-rsa OLD me" ∷ []) "ssh-rsa AAAA\n" "PEM" file_works file_works pair domain-Lacks
      key-Lacks (old-Lacks, tt) (old-Free, tt)

remove-add_to_authorized_keys-loses_example :
    remove_from_authorized_keys works "/k" "b.example.com"
      (pos 5002)
      (add_to_authorized_keys works "b.example.com"
        (pos 5002)
        false
        (some (unlines [] ⧺ "ssh-rsa OLD me"))).0
    ≡ (some (unlines []), ok tt)
remove-add_to_authorized_keys-loses_example =
    remove-add_to_authorized_keys-loses works works "/k" "b.example.com" (pos 5002) false []
      "ssh-rsa OLD me" "ssh-rsa AAAA\n" "PEM" file_works file_works pair domain-Lacks key-Lacks tt
      old-Lacks tt

remove_from_authorized_keys-IsRevoked_example :
    (new : String) × (remove_from_authorized_keys works "/k" "a.example.com"
        (pos 5001)
        (some "ssh-rsa OLD me\n")
      ≡ (some new, ok tt))
    × IsRevoked (tunnel_id "a.example.com" (pos 5001)) "ssh-rsa OLD me\n" new
remove_from_authorized_keys-IsRevoked_example =
    remove_from_authorized_keys-IsRevoked works "/k" "a.example.com" (pos 5001) "ssh-rsa OLD me\n"
      file_works

add_to_authorized_keys-lists_example :
    (new : String) × (add_to_authorized_keys works
        ("x" ⧺ "\n" ⧺ "ssh-rsa EVIL" ⧺ "\n" ⧺ "y")
        (pos 5002)
        false
        (some "old\n")
      ≡ (some new, ok "PEM"))
    × (lists "ssh-rsa EVIL" (split b'\n' new) ≡ true)
add_to_authorized_keys-lists_example =
    add_to_authorized_keys-lists works "x" "ssh-rsa EVIL" "y" (pos 5002) false "old\n"
      "ssh-rsa AAAA\n" "PEM" file_works pair (omega arith)
