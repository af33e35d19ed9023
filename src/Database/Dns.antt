-- ===== src/Database/Dns.antt =====
-- The DNS requests of the database: a map in memory only. A request's type is that of the namedrop
-- library, so the methods take any type for it.
use boringproxy.Prelude.{◌≡◌, String, Option, none, some, if◌then◌else◌, ◌==◌, arith}
use boringproxy.Prelude.GoMap.{GoMap, lookup, insert, delete, lookup-insert, lookup-delete}
use boringproxy.Prelude.Result.{Result, ok, err}

module _ {ℓ} {Request : Type ℓ} where
  abbrev found : Option Request → Result Request
  found none = err "No such DNS Request"
  found (some r) = ok r

  unfoldable pub set_dns_request : String → Request → GoMap Request → GoMap Request
  set_dns_request id request m = insert id request m

  unfoldable pub get_dns_request : String → GoMap Request → Result Request
  get_dns_request id m = found (lookup id m)

  unfoldable pub delete_dns_request : String → GoMap Request → GoMap Request
  delete_dns_request id m = delete id m

  -- A request that is set is found under its identifier, one that is deleted is not, and requests
  -- under other identifiers are as they were.
  pub get_dns_request_laws :
      (id j : String) (r : Request) (m : GoMap Request)
      → (get_dns_request j (set_dns_request id r m)
          ≡ (if id == j then ok r else get_dns_request j m))
        × (get_dns_request j (delete_dns_request id m)
            ≡ (if id == j then err "No such DNS Request" else get_dns_request j m))
  unfolding get_dns_request set_dns_request delete_dns_request
  get_dns_request_laws id j r m =
      (ground (arith, lookup-insert id j r m), ground (arith, lookup-delete id j m))
