-- ===== src/Api/ClientLists.antt =====
-- SetClient and DeleteClient for a caller that may manage the user.
use boringproxy.Prelude.{
  ◌≡◌, refl, ◌⊎◌, inl, inr, String, true, Option, none, some, eq_refl, is_some,
}
use boringproxy.Prelude.GoMap.{GoMap, lookup, insert, lookup-insert}
use boringproxy.Prelude.Result.{ok, panic}
use boringproxy.Database.Types.{TokenData, DbClient, User, zero_user}
use boringproxy.Database.Store.{Database, set_user, persist}
use boringproxy.Api.Clients.{may_manage, owner_of, client_set, api_set_client, api_delete_client}
use boringproxy.Api.Tokens.{has_client}

abbrev client_added : String → User → GoMap DbClient → User
client_added client_id owner clients = record owner {
  clients = some (insert client_id (record {}) clients);
}

client_set_cases :
    (owner_id client_id : String) (d : Database) (owner : User) (clients : Option (GoMap DbClient))
    → ((clients ≡ none) × (client_set owner_id client_id d owner clients ≡ (d, panic)))
      ⊎ ((is_some clients ≡ true)
          × ((client_set owner_id client_id d owner clients).1 ≡ ok tt)
          × (has_client client_id
                (owner_of owner_id (client_set owner_id client_id d owner clients).0)
              ≡ true))
unfolding set_user persist
client_set_cases owner_id client_id d owner none = inl (refl, refl)
client_set_cases owner_id client_id d owner (some clients) = inr (
  refl,
  refl,
  rw (
    lookup-insert owner_id owner_id (client_added client_id owner clients) d.users,
    eq_refl owner_id,
    lookup-insert client_id client_id (record {}) clients,
    eq_refl client_id,
  ),
)

-- SetClient by a caller that may manage the user: with a client map the client is in it afterwards;
-- with none, as for a user that does not exist, the handler panics and nothing is stored.
pub api_set_client_cases :
    (t : TokenData) (owner_id client_id : String) (d : Database)
    → may_manage t owner_id d ≡ ok tt
    → (((owner_of owner_id d).clients ≡ none)
        × (api_set_client t owner_id client_id d ≡ (d, panic)))
      ⊎ ((is_some (owner_of owner_id d).clients ≡ true)
          × ((api_set_client t owner_id client_id d).1 ≡ ok tt)
          × (has_client client_id (owner_of owner_id (api_set_client t owner_id client_id d).0)
              ≡ true))
unfolding api_set_client
api_set_client_cases t owner_id client_id d h =
    rw h (client_set_cases owner_id client_id d (owner_of owner_id d) (owner_of owner_id d).clients)

-- DeleteClient by a caller that may manage the name reports success for a user that does not exist,
-- and creates that user: without rank, and with no client map, so that SetClient panics for it.
pub api_delete_client-creates :
    (t : TokenData) (owner_id client_id : String) (d : Database)
    → may_manage t owner_id d ≡ ok tt
    → lookup owner_id d.users ≡ none
    → ((api_delete_client t owner_id client_id d).1 ≡ ok tt)
      × (lookup owner_id (api_delete_client t owner_id client_id d).0.users ≡ some zero_user)
unfolding api_delete_client set_user persist
api_delete_client-creates t owner_id client_id d h e =
    rw (h, e) (refl, rw (lookup-insert owner_id owner_id zero_user d.users, eq_refl owner_id))
