-- ===== src/TunnelManager/Keys.antt =====
-- The file authorized_keys: the line that a tunnel adds to it, and its removal. The file is its
-- content, or `none` where it does not exist.
use boringproxy.Prelude.{String, Bool, Option, none, some, List, [], ◌∷◌, if◌then◌else◌, or_zero}
use boringproxy.Prelude.Int.{ℤ, itoa}
use boringproxy.Prelude.Text.{◌⧺◌, split, join, contains, trim_space}
use boringproxy.Prelude.Result.{Result, ok, err, panic, ◌>>=◌}
use boringproxy.Outside.{Outside}

-- MakeSSHKeyPair: the public and the private key
unfoldable pub make_ssh_key_pair : Outside → Result (String × String)
make_ssh_key_pair o = do
  private_key ← o.generate_key
  priv_key ← o.encode_pem private_key
  pub_key ← o.new_public_key private_key
  ok (o.marshal_authorized_key pub_key, priv_key)

unfoldable pub tunnel_id : String → ℤ → String
tunnel_id domain port = "boringproxy-" ⧺ domain ⧺ "-" ⧺ itoa port

abbrev pub bind_addr : Bool → String
bind_addr allow_external_tcp = if allow_external_tcp then "0.0.0.0" else "127.0.0.1"

abbrev pub restrictions : String
restrictions =
    "command=\"echo This key permits tunnels only\",permitopen=\"fakehost:1\",permitlisten=\""

unfoldable pub key_options : Bool → ℤ → String
key_options allow_external_tcp port =
    restrictions ⧺ bind_addr allow_external_tcp ⧺ ":" ⧺ itoa port ⧺ "\""

-- The line of a tunnel, without its end.
unfoldable pub key_line : String → ℤ → Bool → String → String
key_line domain port allow pub_key =
    key_options allow port ⧺ " " ⧺ trim_space pub_key ⧺ " " ⧺ tunnel_id domain port

abbrev or_else {ℓ} : {A : Type ℓ} → Option String → A → (String → A) → A
or_else none a f = a
or_else (some e) a f = f e

abbrev written : String → String × Option String → Option String × Result String
written priv_key (file, none) = (some file, ok priv_key)
written priv_key (file, some e) = (some file, err e)

-- The file is emptied, rewound and written.
unfoldable pub rewrite : Outside → String → String → String → Option String × Result String
rewrite o old new priv_key =
    or_else o.truncate_file
      (or_else o.seek_file (written priv_key (o.write_file new)) (λ e. (some "", err e)))
      (λ e. (some old, err e))

abbrev with_key :
    Outside → String → ℤ → Bool → String → Result (String × String) → Option String × Result String
with_key o domain port allow ak_str (ok (pub_key, priv_key)) =
    rewrite o ak_str (ak_str ⧺ key_line domain port allow pub_key ⧺ "\n") priv_key
with_key o domain port allow ak_str (err e) = (some ak_str, err e)
with_key o domain port allow ak_str panic = (some ak_str, panic)

abbrev opened : Outside → String → ℤ → Bool → String → Option String × Result String
opened o domain port allow ak_str =
    or_else o.read_file (with_key o domain port allow ak_str (make_ssh_key_pair o))
      (λ e. (some ak_str, err e))

-- addToAuthorizedKeys: opening creates the file where it does not exist
unfoldable pub add_to_authorized_keys :
    Outside → String → ℤ → Bool → Option String → Option String × Result String
unfolding rewrite
add_to_authorized_keys o domain port allow file =
    or_else o.open_file (opened o domain port allow (or_zero "" file)) (λ e. (file, err e))

-- The loop of DeleteTunnel: the lines that do not name the tunnel.
unfoldable pub other_lines : String → List String → List String
other_lines id [] = []
other_lines id (line ∷ lines) =
    let rest = other_lines id lines in if contains line id then rest else line ∷ rest

unfoldable pub without_lines : String → String → String
without_lines id ak_str = join "\n" (other_lines id (split b'\n' ak_str))

abbrev outcome : String × Option String → Option String × Result (Unit {0})
outcome (file, none) = (some file, ok tt)
outcome (file, some e) = (some file, err e)

abbrev read : Outside → String → Option String → Result String
read o path none = or_else o.read_file (err ("open " ⧺ path ⧺ ": no such file or directory")) err
read o path (some ak_str) = or_else o.read_file (ok ak_str) err

abbrev filtered :
    Outside → String → Option String → Result String → Option String × Result (Unit {0})
filtered o id file (ok ak_str) = outcome (o.write_file (without_lines id ak_str))
filtered o id file (err e) = (file, err e)
filtered o id file panic = (file, panic)

-- The part of DeleteTunnel that edits the file.
unfoldable pub remove_from_authorized_keys :
    Outside → String → String → ℤ → Option String → Option String × Result (Unit {0})
remove_from_authorized_keys o path domain port file =
    filtered o (tunnel_id domain port) file (read o path file)
