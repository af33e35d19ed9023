-- ===== src/Examples.antt =====
-- Concrete data for the tests: a server with two users, three tokens and one tunnel, and an outside
-- where everything works.
use boringproxy.Prelude.{String, true, false, none, some, [], ◌∷◌}
use boringproxy.Prelude.Int.{pos}
use boringproxy.Prelude.Text.{◌⧺◌}
use boringproxy.Prelude.Result.{ok}
use boringproxy.Http.{Request, Values}
use boringproxy.Outside.{Outside}
use boringproxy.Database.Types.{TokenData, Tunnel, zero_tunnel}
use boringproxy.Database.Store.{Disk, missing, document, Database}
use boringproxy.TunnelManager.Manager.{TunnelManager, World}

abbrev pub healthy_disk : Disk
healthy_disk = record { file = missing; write = λ doc old. (true, document doc) }

abbrev pub works : Outside
works = record {
  random = λ i max. ok 0;
  listen = ok "127.0.0.1:40001";
  manage_sync = λ domain. true;
  generate_key = ok "key";
  encode_pem = λ key. ok "PEM";
  new_public_key = λ key. ok "pub";
  marshal_authorized_key = λ key. "ssh-rsa AAAA\n";
  digest = λ doc. "d41d8cd9";
  open_file = none;
  read_file = none;
  truncate_file = none;
  seek_file = none;
  write_file = λ s. (s, none);
}

abbrev pub admin_token : TokenData
admin_token = record { owner = "admin"; client = "" }

abbrev pub bob_token : TokenData
bob_token = record { owner = "bob"; client = "" }

abbrev pub laptop_token : TokenData
laptop_token = record { owner = "bob"; client = "laptop" }

abbrev pub site : Tunnel
site = record zero_tunnel {
  domain = "a.example.com";
  tunnel_port = pos 5001;
  owner = "admin";
  tls_termination = "server";
}

abbrev pub database : Database
database = record {
  admin_domain = "bp.example.com";
  tokens = ("ta", admin_token) ∷ ("tb", bob_token) ∷ ("tl", laptop_token) ∷ [];
  tunnels = ("a.example.com", site) ∷ [];
  users =
      ("admin", record { is_admin = true; clients = some [] })
      ∷ ("bob", record { is_admin = false; clients = some (("laptop", record {}) ∷ []) })
      ∷ [];
  disk = healthy_disk;
}

abbrev pub manager : TunnelManager
manager = record {
  config = record { ssh_server_port = pos 22; public_ip = "192.0.2.1"; auto_certs = true };
  user = record { username = "bp"; home_dir = "/home/bp" };
}

abbrev pub world : World
world = record { db = database; authorized_keys = some "ssh-rsa OLD me\n" }

-- A request with a token in its query.
abbrev pub ask : String → String → String → Values → Request
ask method path token form = record {
  method = method;
  host = "bp.example.com";
  path = path;
  raw_query = "access_token=" ⧺ token;
  query = ("access_token", token ∷ []) ∷ [];
  post_form = form;
  headers = [];
  cookies = [];
  remote_addr = "198.51.100.7:1234";
}

-- The form that asks for a tunnel.
abbrev pub tunnel_form : String → String → Values
tunnel_form domain owner =
    ("domain", domain ∷ []) ∷ ("owner", owner ∷ []) ∷ ("tls-termination", "client" ∷ []) ∷ []
