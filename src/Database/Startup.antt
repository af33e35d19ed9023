-- ===== src/Database/Startup.antt =====
-- NewDatabase: reading the file that an earlier run wrote, and writing it back.
use boringproxy.Prelude.{◌≡◌, ◌∙◌, Option, none, some, [], true, ap}
use boringproxy.Prelude.Json.{
  Json, null, object, Members, end, field, as_text, decode_map, decode_map-encode_map, ◌>>=◌,
}
use boringproxy.Prelude.Result.{Result, ok, panic}
use boringproxy.Database.Codec.{
  encode_token_data, encode_user, encode_tunnel, decode_token_data, decode_user, decode_tunnel,
  decode_map_field, decode_token_data-encode_token_data, decode_user-encode_user,
  decode_tunnel-encode_tunnel,
}
use boringproxy.Database.Store.{
  DbFile, missing, malformed, document, Disk, Database, marshal, marshal_members, save_json,
  persist,
}

-- `&Database{}`, with its maps made
abbrev pub empty_database : Disk → Database
empty_database disk = record {
  admin_domain = "";
  tokens = [];
  tunnels = [];
  users = [];
  disk = disk;
}

unfoldable pub unmarshal : Disk → Members → Option Database
unfolding field decode_map decode_token_data decode_tunnel decode_user
unmarshal disk ms = do
  admin_domain ← as_text (field "admin_domain" ms)
  tokens ← decode_map_field decode_token_data (field "tokens" ms)
  tunnels ← decode_map_field decode_tunnel (field "tunnels" ms)
  users ← decode_map_field decode_user (field "users" ms)
  some (record {
    admin_domain = admin_domain;
    tokens = tokens;
    tunnels = tunnels;
    users = users;
    disk = disk;
  })

abbrev or_empty : Disk → Option Database → Database
or_empty disk none = empty_database disk
or_empty disk (some d) = d

-- A file that cannot be read counts as `{}`; one that does not decode is dropped. The document
-- `null` leaves the pointer nil, and the next line panics.
abbrev loaded : Disk → DbFile → Result Database
loaded disk missing = ok (or_empty disk (unmarshal disk end))
loaded disk malformed = ok (empty_database disk)
loaded disk (document null) = panic
loaded disk (document (object ms)) = ok (or_empty disk (unmarshal disk ms))
loaded disk (document _) = ok (empty_database disk)

abbrev persisted : Result Database → Result Database
persisted (ok d) = ok (persist d)
persisted r = r

-- NewDatabase
unfoldable pub new_database : Disk → Result Database
unfolding unmarshal persist
new_database disk = persisted (loaded disk disk.file)

-- The disk takes every write.
abbrev pub IsHealthy : Disk → Type 0
IsHealthy disk = (doc : Json) (old : DbFile) → disk.write doc old ≡ (true, document doc)

-- Reading back what was marshalled gives the database, with the disk that is at hand.
unmarshal-marshal_members :
    (d : Database) (disk : Disk)
    → unmarshal disk (marshal_members d) ≡ some (record d { disk = disk })
unfolding unmarshal marshal_members
unmarshal-marshal_members d disk = rw (
  decode_map-encode_map encode_token_data decode_token_data decode_token_data-encode_token_data
      d.tokens,
  decode_map-encode_map encode_tunnel decode_tunnel decode_tunnel-encode_tunnel d.tunnels,
  decode_map-encode_map encode_user decode_user decode_user-encode_user d.users,
)

loaded-marshal :
    (d : Database) (disk : Disk)
    → loaded disk (document (marshal d)) ≡ ok (record d { disk = disk })
unfolding marshal
loaded-marshal d disk = rw unmarshal-marshal_members

-- What `persist` leaves in the file of a disk that takes writes.
file-persist : (d : Database) → IsHealthy d.disk → (persist d).disk.file ≡ document (marshal d)
unfolding persist save_json
file-persist d healthy = rw healthy

persist-persist : (d : Database) → IsHealthy d.disk → persist (persist d) ≡ persist d
unfolding persist save_json marshal marshal_members
persist-persist d healthy = simp healthy

-- When the disk takes writes, a restart after any persisted state whose texts are valid UTF-8, as those
-- of the model are, comes back with that state: admin domain, tokens, tunnels and users, and the file
-- is left as it was.
pub new_database-persist :
    (d : Database) → IsHealthy d.disk → new_database (persist d).disk ≡ ok (persist d)
unfolding new_database
new_database-persist d healthy =
    ap (λ file. persisted (loaded (persist d).disk file)) (file-persist d healthy)
    ∙ ap persisted (loaded-marshal d (persist d).disk)
    ∙ ap ok (persist-persist d healthy)
