-- ===== src/Boot.antt =====
-- cmd/engine/main.go: the roles of a process, its address, and the user that it creates at start.
pub mod Activities
pub mod Process
use Prim.Native.String.{[], ◌∷◌, ◌++◌}
use flowscale.Prelude.{
  ℕ, suc, ◌≡◌, refl, inl, inr, Bool-cases, String, Option, none, some, List, [], ◌∷◌, Bool, true,
  false, any, find, ◌==◌, ◌||◌, arith, if◌then◌else◌,
}
use flowscale.Models.{User}
use flowscale.Strings.{has_prefix, cut_prefix}
use flowscale.Runtime.{Env, World, Db, unique_violation, Result, ok, err, query, tx, tick, ◌>>=◌}
use flowscale.Repository.UserRepo.{insert_user, create_user, get_user_by_username}

-- strings.Contains
unfoldable pub contains : String → String → Bool
contains [] t = has_prefix "" t
contains (c ∷ s) t = has_prefix (c ∷ s) t || contains s t

-- The role of a process without the variable ROLE is "all".
abbrev role_of : String → String
role_of variable = if variable == "" then "all" else variable

-- isAPI, isEngine, isScheduler and isWorker.
unfoldable pub has_role : String → String → Bool
has_role variable name = role_of variable == "all" || contains (role_of variable) name

-- A process without the API listens for the probes alone.
unfoldable pub address : String → String → String
address variable port = if has_role variable "api" then ":" ++ port else ":8081"

module _ (env : Env) (hash : String) where
  abbrev admin : String → User
  admin id = record { id = id; username = "admin"; password_hash = hash; created_at = 0 }

  -- The error of CreateUser is ignored.
  unfoldable pub create_admin : World → World
  create_admin w = (create_user env (admin (env.uuid w.calls)) (tick w)).1

  abbrev pub when_missing : Result (Option User) → World → World
  when_missing (ok (some user)) w = w
  when_missing (ok none) w = create_admin w
  when_missing (err e) w = create_admin w

  unfoldable pub seed_admin : World → World
  seed_admin w = let (r, w') = get_user_by_username env "admin" w in when_missing r w'

any_of_found :
    (id : String) (users : List User) (u : User)
    → find (λ v. v.username == "admin") users ≡ some u
    → any (λ v. v.id == id || v.username == "admin") users ≡ true
unfolding find any
any_of_found id [] u h = ground (arith, h)
any_of_found id (v ∷ vs) u h = elim (Bool-cases (v.username == "admin")) [
  | inl e ↦ elim (Bool-cases (v.id == id)) [ inl i ↦ rw i refl | inr i ↦ rw (i, e) refl ]
  | inr e ↦ elim (Bool-cases (v.id == id)) [
    | inl i ↦ rw i refl
    | inr i ↦ rw (i, e) (any_of_found id vs u (ground (arith, h, e)))
  ]
]

tx-refused :
    (env : Env) (body : ℕ → Db → Result Db) (w : World)
    → body (env.now w.calls) w.db ≡ err unique_violation
    → (tx env body w).1.db ≡ w.db
unfolding tx
tx-refused env body w h = elim (Bool-cases (env.db_fails w.calls)) [
  | inl d ↦ rw d refl
  | inr d ↦ rw (d, h) refl
]

insert_user-refused :
    (user u : User) (db : Db)
    → user.username ≡ "admin"
    → find (λ v. v.username == "admin") db.users ≡ some u
    → insert_user user db ≡ err unique_violation
unfolding insert_user
insert_user-refused user u db n h = rw (n, any_of_found user.id db.users u h) refl

create_admin-kept :
    (env : Env) (hash : String) (w : World) (u : User)
    → find (λ v. v.username == "admin") w.db.users ≡ some u
    → (create_admin env hash w).db ≡ w.db
unfolding create_admin create_user ◌>>=◌
create_admin-kept env hash w u h =
    let user = record (admin env hash (env.uuid w.calls)) { created_at = env.now (suc w.calls) } in
    tx-refused env (λ t db. insert_user user db) (tick (tick w))
      (insert_user-refused user u w.db refl h)

-- A process that starts where there is a user "admin" changes no table, also where the look-up of that
-- user fails: the user keeps the password that it has.
pub seed_admin-kept :
    (env : Env) (hash : String) (w : World) (u : User)
    → find (λ v. v.username == "admin") w.db.users ≡ some u
    → (seed_admin env hash w).db ≡ w.db
unfolding seed_admin get_user_by_username query
seed_admin-kept env hash w u h = elim (Bool-cases (env.db_fails w.calls)) [
  | inl d ↦ rw d (create_admin-kept env hash (tick w) u h)
  | inr d ↦ rw (d, h) refl
]

api_alone :
    (has_role "api,worker" "api" ≡ true)
    × (has_role "api,worker" "engine" ≡ false)
    × (has_role "" "engine" ≡ true)
unfolding has_role contains cut_prefix
api_alone = (refl, refl, refl)
