-- ===== src/Tests/Database.antt =====
-- The database and the random codes: the theorems at concrete inputs.
use boringproxy.Prelude.{◌≡◌, refl, String, some, [], ◌∷◌, false}
use boringproxy.Prelude.Result.{ok}
use boringproxy.Prelude.GoMap.{GoMap}
use Prim.Native.String.{count}
use boringproxy.Utils.{gen_random_code}
use boringproxy.Utils.RandomCode.{Draws, gen_random_code-count}
use boringproxy.Database.Types.{User}
use boringproxy.Database.Store.{persist}
use boringproxy.Database.Startup.{new_database, IsHealthy, new_database-persist}
use boringproxy.Examples.{works, database}

zeros : Draws works.random
zeros = record { index = λ i max. 0; drawn = λ i max h. refl; below = λ i max h. h }

gen_random_code-count_example :
    (s : String) × (gen_random_code works.random 32 ≡ ok s) × (count s ≡ 32)
gen_random_code-count_example = gen_random_code-count works.random 32 zeros

abbrev laptop_user : User
laptop_user = record { is_admin = false; clients = some (("laptop", record {}) ∷ []) }

healthy : IsHealthy database.disk
healthy = λ doc old. refl

new_database-persist_example : new_database (persist database).disk ≡ ok (persist database)
new_database-persist_example = new_database-persist database healthy

abbrev newer : String
newer = "new"

abbrev requests : GoMap String
requests = ("a", "old") ∷ []
