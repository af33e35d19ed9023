-- ===== src/Tests/Threads.antt =====
-- Goroutines that work on one database: runs, and the theorems there.
use boringproxy.Prelude.{◌≡◌, refl}
use boringproxy.Prelude.GoMap.{lookup, delete}
use boringproxy.Database.Store.{add_token, delete_user, persist, save_json, get_tokens}
use boringproxy.Api.Threads.{
  elsewhere, listing, dropping, Threads, new_token, perform, moved_to, Run, here, next, call, begin,
  list,
}
use boringproxy.Api.Threads.Safety.{IsGuarded, Run-IsGuarded}
use boringproxy.Tests.Api.{two_users_IsSound}
use boringproxy.Examples.{works, database, manager, world}

-- A DeleteUser of bob, between whose calls another goroutine asks for a token for bob.
abbrev start : Threads
start = record { world = world; thread = λ n. elsewhere }

abbrev without_bob : Threads
without_bob = moved_to start 0 (delete_user "bob" database) (listing "bob")

abbrev asked : Threads
asked = record without_bob {
  world = perform manager (new_token works.random "bob" "") without_bob.world;
}

abbrev listed : Threads
listed = moved_to asked 0 asked.world.db (dropping "bob" (get_tokens asked.world.db))

tokens_as_before : asked.world.db.tokens ≡ database.tokens
unfolding perform add_token delete_user persist save_json delete lookup
tokens_as_before = refl

listed-Run : Run manager start listed
listed-Run =
    next (next (next here (begin 0 "bob" refl)) (call (new_token works.random "bob" "")))
      (list 0 "bob" refl)

Run-IsGuarded_example : IsGuarded listed
Run-IsGuarded_example = Run-IsGuarded listed-Run two_users_IsSound (λ n. refl)
