-- ===== src/Api/Soundness/Expulsion.antt =====
-- DeleteUser takes the user's tokens with it.
use boringproxy.Prelude.{
  ◌≡◌, ◌≢◌, ◌⊎◌, ◌&&◌, refl, ◌∙◌, ◌!=◌, String, Bool, true, false, Option, none, some, [], ◌∷◌,
  ◌==◌, arith, eq_iff, if◌then◌else◌, eq_of_test, ne_of_test, Bool-cases, inl, inr,
}
use boringproxy.Prelude.GoMap.{GoMap, IsMap, keep_if, lookup, lookup-delete}
use boringproxy.Prelude.Result.{Result, ok, err, panic}
use boringproxy.Http.{Values, get}
use boringproxy.Database.Types.{TokenData}
use boringproxy.Database.Store.{Database, persist, delete_user, delete_token_data}
use boringproxy.Api.Users.{may_delete_user, delete_tokens_of, drop_if, expelled, api_delete_user}
use boringproxy.Api.Soundness.{IsSound}

pub drop_if-rest :
    (b : Bool) (j : String) (d : Database)
    → ((drop_if b j d).users ≡ d.users)
      × ((drop_if b j d).tunnels ≡ d.tunnels)
      × ((drop_if b j d).admin_domain ≡ d.admin_domain)
unfolding drop_if delete_token_data persist
drop_if-rest true j d = (refl, refl, refl)
drop_if-rest false j d = (refl, refl, refl)

pub lookup-drop_if :
    (b : Bool) (j k : String) (d : Database)
    → lookup k (drop_if b j d).tokens ≡ (if b && j == k then none else lookup k d.tokens)
unfolding drop_if delete_token_data persist
lookup-drop_if true j k d = lookup-delete j k d.tokens
lookup-drop_if false j k d = refl

module _ (name : String) where
  -- The loop deletes tokens alone.
  pub delete_tokens_of-rest :
      (toks : GoMap TokenData) (d : Database)
      → ((delete_tokens_of name toks d).users ≡ d.users)
        × ((delete_tokens_of name toks d).tunnels ≡ d.tunnels)
        × ((delete_tokens_of name toks d).admin_domain ≡ d.admin_domain)
  unfolding delete_tokens_of
  delete_tokens_of-rest [] d = (refl, refl, refl)
  delete_tokens_of-rest ((j, s) ∷ toks) d =
      let (a, b, c) = delete_tokens_of-rest toks (drop_if (s.owner == name) j d) in
      let (x, y, z) = drop_if-rest (s.owner == name) j d in (a ∙ x, b ∙ y, c ∙ z)

  delete_tokens_of-absent :
      (toks : GoMap TokenData) (d : Database) (k : String)
      → lookup k d.tokens ≡ none
      → lookup k (delete_tokens_of name toks d).tokens ≡ none
  unfolding delete_tokens_of
  delete_tokens_of-absent [] d k h = h
  delete_tokens_of-absent ((j, s) ∷ toks) d k h =
      delete_tokens_of-absent toks _ k (ground (arith, lookup-drop_if (s.owner == name) j k d))

  pub delete_tokens_of-kept :
      (toks : GoMap TokenData) (d : Database) (k : String) (t : TokenData)
      → lookup k (delete_tokens_of name toks d).tokens ≡ some t
      → lookup k d.tokens ≡ some t
  unfolding delete_tokens_of
  delete_tokens_of-kept [] d k t h = h
  delete_tokens_of-kept ((j, s) ∷ toks) d k t h = ground (
    arith,
    delete_tokens_of-kept toks (drop_if (s.owner == name) j d) k t h,
    lookup-drop_if (s.owner == name) j k d,
  )

  -- A token of the user that the loop comes to is gone.
  pub delete_tokens_of-gone :
      (toks : GoMap TokenData) (d : Database) (k : String) (t : TokenData)
      → lookup k toks ≡ some t
      → t.owner ≡ name
      → lookup k (delete_tokens_of name toks d).tokens ≡ none
  unfolding delete_tokens_of lookup
  delete_tokens_of-gone [] d k t h own = cc
  delete_tokens_of-gone ((j, s) ∷ toks) d k t h own = elim (Bool-cases (j == k)) [
    | inl e ↦
        delete_tokens_of-absent toks (drop_if (s.owner == name) j d) k
          (ground (arith, lookup-drop_if (s.owner == name) j k d, eq_iff s.owner name))
    | inr e ↦ delete_tokens_of-gone toks (drop_if (s.owner == name) j d) k t (ground arith) own
  ]

  -- A token of another user stays, where no key is in the map twice.
  delete_tokens_of-stays :
      (toks : GoMap TokenData) (d : Database) (k : String) (t : TokenData)
      → IsMap toks
      → (lookup k toks ≡ none) ⊎ (lookup k toks ≡ some t)
      → t.owner ≢ name
      → lookup k d.tokens ≡ some t
      → lookup k (delete_tokens_of name toks d).tokens ≡ some t
  unfolding delete_tokens_of lookup
  delete_tokens_of-stays [] d k t u a n h = h
  delete_tokens_of-stays ((j, s) ∷ toks) d k t (fresh, u) a n h =
      delete_tokens_of-stays toks (drop_if (s.owner == name) j d) k t u (ground (arith, eq_iff j k))
        n (ground (arith, lookup-drop_if (s.owner == name) j k d, eq_iff j k, eq_iff s.owner name))

-- The user is gone with its tokens; other users and their tokens stay, and so do all tunnels.
pub record IsExpelled (name : String) (d e : Database) : Type 0 where
  pub users : (k : String) → lookup k e.users ≡ (if name == k then none else lookup k d.users)
  pub tokens : (k : String) → lookup k e.tokens ≡ keep_if (λ t. t.owner != name) (lookup k d.tokens)
  pub tunnels : e.tunnels ≡ d.tunnels
  pub admin_domain : e.admin_domain ≡ d.admin_domain

abbrev after_user : String → Database → Database
after_user name d = delete_tokens_of name d.tokens (delete_user name d)

token-expelled :
    (name k : String) (d : Database) (found : Option TokenData)
    → IsMap d.tokens
    → lookup k d.tokens ≡ found
    → lookup k (after_user name d).tokens ≡ keep_if (λ t. t.owner != name) found
unfolding delete_user persist
token-expelled name k d none u h = delete_tokens_of-absent name d.tokens (delete_user name d) k h
token-expelled name k d (some t) u h = elim (Bool-cases (t.owner == name)) [
  | inl e ↦
      rw e
        (delete_tokens_of-gone name d.tokens (delete_user name d) k t h (eq_of_test t.owner name e))
  | inr e ↦ rw e (
      delete_tokens_of-stays name d.tokens (delete_user name d) k t u (inr h)
        (ne_of_test t.owner name e) h)
]

after_user-IsExpelled :
    (name : String) (d : Database) → IsMap d.tokens → IsExpelled name d (after_user name d)
unfolding delete_user persist
after_user-IsExpelled name d u =
    let (a, b, c) = delete_tokens_of-rest name d.tokens (delete_user name d) in
    record {
      users = λ k. rw a (lookup-delete name k d.users);
      tokens = λ k. token-expelled name k d (lookup k d.tokens) u refl;
      tunnels = b;
      admin_domain = c;
    }

-- A DeleteUser that succeeds removes that user and all of its tokens, and nothing else: other users,
-- the tokens of others and all tunnels stay, also the tunnels of the user that is gone.
pub api_delete_user-IsExpelled :
    (t : TokenData) (params : Values) (d : Database)
    → IsMap d.tokens
    → (api_delete_user t params d).1 ≡ ok tt
    → IsExpelled (get "username" params) d (api_delete_user t params d).0
unfolding api_delete_user
api_delete_user-IsExpelled t params d u = go (may_delete_user t params d)
  where
    go :
        (r : Result (Unit {0}))
        → (expelled (get "username" params) d r).1 ≡ ok tt
        → IsExpelled (get "username" params) d (expelled (get "username" params) d r).0
    go (ok _) h = unfold delete_user persist in after_user-IsExpelled (get "username" params) d u
    go (err e) h = cc
    go panic h = cc

after_user-IsSound : (name : String) (d : Database) → IsSound d → IsSound (after_user name d)
unfolding delete_user persist
after_user-IsSound name d s =
    let (a, b, c) = delete_tokens_of-rest name d.tokens (delete_user name d) in
    record {
      consistent = rw b s.consistent;
      owned = λ k t h.
          let before = delete_tokens_of-kept name d.tokens (delete_user name d) k t h in
          rw a (
            ground (
              arith,
              before,
              lookup-delete name t.owner d.users,
              eq_iff name t.owner,
              s.owned k t before,
              delete_tokens_of-gone name d.tokens (delete_user name d) k t before,
            ));
    }

-- DeleteUser, whether it succeeds or not, keeps every tunnel under its own domain with an owner, no
-- port in use twice, and every token with a user that exists.
pub api_delete_user-IsSound :
    (t : TokenData) (params : Values) (d : Database)
    → IsSound d
    → IsSound (api_delete_user t params d).0
unfolding api_delete_user
api_delete_user-IsSound t params d s = go (may_delete_user t params d)
  where
    name : String
    name = get "username" params

    go : (r : Result (Unit {0})) → IsSound (expelled name d r).0
    go (ok _) = unfold delete_user persist in after_user-IsSound name d s
    go (err e) = s
    go panic = s
