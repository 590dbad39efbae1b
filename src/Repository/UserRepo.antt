-- ===== src/Repository/UserRepo.antt =====
-- internal/repository/user_repo.go: the table `users`, whose id and username are unique.
use flowscale.Prelude.{String, Option, [], ◌∷◌, ◌++◌, ◌==◌, any, find, ◌||◌, if◌then◌else◌}
use flowscale.Models.{User}
use flowscale.Runtime.{Env, Db, Result, M, ◌>>=◌, ok, err, tx, query, time_now, unique_violation}

unfoldable pub insert_user : User → Db → Result Db
insert_user user db =
    if any (λ u. u.id == user.id || u.username == user.username) db.users
    then err unique_violation
    else ok (record db { users = db.users ++ user ∷ [] })

-- `user.CreatedAt` is set before the INSERT.
unfoldable pub create_user : Env → User → M Unit
create_user env user = do
  now ← time_now env
  tx env λ t db. insert_user (record user { created_at = now }) db

-- No row is no error.
unfoldable pub get_user_by_username : Env → String → M (Option User)
get_user_by_username env username = query env λ db. ok (find (λ u. u.username == username) db.users)
