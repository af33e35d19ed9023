-- ===== src/Api/Threads/Safety.antt =====
-- What holds of the database through any interleaving of the calls of goroutines.
use boringproxy.Prelude.{
  ℕ, ◌≡◌, refl, sym, String, Bool, true, some, [], ◌∷◌, ◌==◌, ◌⊎◌, inl, inr, arith, eq_iff, is_some,
  eqb, update, Bool-cases, eq_of_test,
}
use boringproxy.Prelude.GoMap.{GoMap, lookup, lookup-delete}
use boringproxy.Database.Types.{TokenData}
use boringproxy.Database.Store.{Database, persist, get_tokens, delete_user}
use boringproxy.TunnelManager.Manager.{TunnelManager}
use boringproxy.TunnelManager.Invariant.{IsConsistent}
use boringproxy.Api.Users.{drop_if}
use boringproxy.Api.Soundness.{IsSound}
use boringproxy.Api.Soundness.Expulsion.{drop_if-rest, lookup-drop_if}
use boringproxy.Api.Threads.{
  Call, perform, Thread, elsewhere, listing, dropping, Threads, moved_to, Step, call, begin, list,
  turn, finish, Run, here, next,
}
use boringproxy.Api.Threads.Growth.{Grows, perform-Grows, perform-IsConsistent}

-- This goroutine is going to delete this token, for whose owner DeleteUser was called.
abbrev pub WillDrop : Thread → String → TokenData → Type 0
WillDrop elsewhere k t = ⊥
WillDrop (listing name) k t = t.owner ≡ name
WillDrop (dropping name rest) k t = (t.owner ≡ name) × (lookup k rest ≡ some t)

-- The tunnels are consistent; and every token belongs to a user that exists, or a goroutine is going
-- to delete it.
pub record IsGuarded (s : Threads) : Type 0 where
  pub consistent : IsConsistent s.world.db.tunnels
  pub owned :
      (k : String) (t : TokenData)
      → lookup k s.world.db.tokens ≡ some t
      → (is_some (lookup t.owner s.world.db.users) ≡ true) ⊎ ((n : ℕ) × WillDrop (s.thread n) k t)

call-IsGuarded :
    (m : TunnelManager) (s : Threads) (c : Call)
    → IsGuarded s
    → IsGuarded (record s { world = perform m c s.world })
call-IsGuarded m s c g = record {
  consistent = perform-IsConsistent m c s.world g.consistent;
  owned = λ k t h. elim (grown.tokens k t h) [
    | inl old ↦ elim (g.owned k t old) [
      | inl user ↦ inl (grown.users t.owner user)
      | inr doomed ↦ inr doomed
    ]
    | inr user ↦ inl user
  ];
}
  where
    grown : Grows s.world.db (perform m c s.world).db
    grown = perform-Grows m c s.world

-- What a goroutine is at after a step of this or of another one.
other-WillDrop :
    (f : ℕ → Thread) (n i : ℕ) (new : Thread) (k : String) (t : TokenData)
    → (WillDrop (f n) k t → WillDrop new k t)
    → WillDrop (f i) k t
    → WillDrop (update f n new i) k t
other-WillDrop f n i new k t same h = elim (Bool-cases (eqb n i)) [
  | inl e ↦ let at_n : n ≡ i = ground arith in rw e (same (rw (← at_n) at h))
  | inr e ↦ rw e h
]

its-WillDrop :
    (f : ℕ → Thread) (n : ℕ) (new : Thread) (k : String) (t : TokenData)
    → WillDrop new k t
    → WillDrop (update f n new n) k t
its-WillDrop f n new k t h = let itself : eqb n n ≡ true = ground arith in rw itself h

-- A goroutine goes on: the users stay, no token is new, and what it was to delete it is to delete
-- still, if it is there.
goes_on :
    (s : Threads) (n : ℕ) (d : Database) (new : Thread)
    → IsGuarded s
    → d.users ≡ s.world.db.users
    → d.tunnels ≡ s.world.db.tunnels
    → ((k : String) (t : TokenData)
        → lookup k d.tokens ≡ some t
        → (lookup k s.world.db.tokens ≡ some t) × (WillDrop (s.thread n) k t → WillDrop new k t))
    → IsGuarded (moved_to s n d new)
goes_on s n d new g users tunnels still = record {
  consistent = rw tunnels g.consistent;
  owned = λ k t h.
      let (old, same) = still k t h in
      elim (g.owned k t old) [
        | inl user ↦ inl (rw users user)
        | inr (i, doomed) ↦ inr (i, other-WillDrop s.thread n i new k t same doomed)
      ];
}

begin-IsGuarded :
    (s : Threads) (n : ℕ) (name : String)
    → s.thread n ≡ elsewhere
    → IsGuarded s
    → IsGuarded (moved_to s n (delete_user name s.world.db) (listing name))
unfolding delete_user persist
begin-IsGuarded s n name e g = record {
  consistent = g.consistent;
  owned = λ k t h. elim (g.owned k t h) [
    | inl user ↦ elim (Bool-cases (name == t.owner)) [
      | inl own ↦
          inr (n, its-WillDrop s.thread n (listing name) k t (sym (eq_of_test name t.owner own)))
      | inr other ↦ inl (rw (lookup-delete name t.owner s.world.db.users, other) user)
    ]
    | inr (i, doomed) ↦ inr (
      i,
      other-WillDrop s.thread n i (listing name) k t
          (λ x. let none_left : ⊥ = rw e at x in absurd none_left) doomed,
    )
  ];
}

turn-still :
    (name token k : String) (u t : TokenData) (rest : GoMap TokenData) (d : Database)
    → lookup k (drop_if (u.owner == name) token d).tokens ≡ some t
    → (t.owner ≡ name)
    → lookup k ((token, u) ∷ rest) ≡ some t
    → lookup k rest ≡ some t
unfolding lookup
turn-still name token k u t rest d there own listed =
    ground (arith, lookup-drop_if (u.owner == name) token k d, eq_iff u.owner name)

turn-old :
    (b : Bool) (token k : String) (t : TokenData) (d : Database)
    → lookup k (drop_if b token d).tokens ≡ some t
    → lookup k d.tokens ≡ some t
turn-old b token k t d h = ground (arith, lookup-drop_if b token k d)

not_listed : (k : String) (t : TokenData) → lookup k [] ≡ some t → ⊥
unfolding lookup
not_listed k t h = cc

Step-IsGuarded : {m : TunnelManager} {s t : Threads} → Step m s t → IsGuarded s → IsGuarded t
Step-IsGuarded {m} {s} (call c) g = call-IsGuarded m s c g
Step-IsGuarded {m} {s} (begin n name e) g = begin-IsGuarded s n name e g
Step-IsGuarded {m} {s} (list n name e) g =
    goes_on s n s.world.db (dropping name (get_tokens s.world.db)) g refl refl
      (λ k t h. (h, λ x. let own : t.owner ≡ name = rw e at x in (own, h)))
Step-IsGuarded {m} {s} (turn n name token u rest e) g =
    let (users, tunnels, _) = drop_if-rest (u.owner == name) token s.world.db in
    goes_on s n (drop_if (u.owner == name) token s.world.db) (dropping name rest) g users tunnels
      (λ k t h. (
        turn-old (u.owner == name) token k t s.world.db h,
        λ x.
            let listed : WillDrop (dropping name ((token, u) ∷ rest)) k t = rw e at x in
            (listed.0, turn-still name token k u t rest s.world.db h listed.0 listed.1),
      ))
Step-IsGuarded {m} {s} (finish n name e) g = goes_on s n s.world.db elsewhere g refl refl (λ k t h.
    (h, λ x. let listed : WillDrop (dropping name []) k t = rw e at x in not_listed k t listed.1))

-- From a database where tunnels stand under their own domains with owners and distinct ports, and
-- every token belongs to a user that exists, with no DeleteUser under way: however the goroutines'
-- calls of the methods of Database and of the tunnel manager interleave, with whatever arguments and
-- whatever fails outside, the tunnels stay so; and each token belongs to a user that exists, or to one
-- that a DeleteUser under way has removed, and that DeleteUser has still to come to the token.
pub Run-IsGuarded :
    {m : TunnelManager} {s t : Threads}
    → Run m s t
    → IsSound s.world.db
    → ((n : ℕ) → s.thread n ≡ elsewhere)
    → IsGuarded t
Run-IsGuarded here sound quiet = record {
  consistent = sound.consistent;
  owned = λ k t h. inl (sound.owned k t h);
}
Run-IsGuarded (next run step) sound quiet = Step-IsGuarded step (Run-IsGuarded run sound quiet)

-- Where no DeleteUser is under way any more, every token belongs to a user that exists.
Run-IsSound :
    {m : TunnelManager} {s t : Threads}
    → Run m s t
    → IsSound s.world.db
    → ((n : ℕ) → s.thread n ≡ elsewhere)
    → ((n : ℕ) → t.thread n ≡ elsewhere)
    → IsSound t.world.db
Run-IsSound run sound quiet done =
    let g = Run-IsGuarded run sound quiet in
    record {
      consistent = g.consistent;
      owned = λ k t h. elim (g.owned k t h) [
        | inl user ↦ user
        | inr (n, doomed) ↦ let none_left : ⊥ = rw (done n) at doomed in absurd none_left
      ];
    }
