-- ===== src/Api/Auth.antt =====
-- internal/api/auth_handler.go
use flowscale.Prelude.{ℕ, ◌+◌, ◌*◌, ◌/◌, ◌^◌, String, Option, none, some, ◌==◌, if◌then◌else◌}
use flowscale.Models.{User, AuthRequest}
use flowscale.Runtime.{Env, Result, ok, err}
use flowscale.Repository.UserRepo.{get_user_by_username}
use flowscale.Api.{
  Request, Claims, Outside, text, token, Response, respond, Serving, stop, asking, decoded,
}

-- `exp` is the Unix time a day from now.
unfoldable pub claims_of : User → ℕ → Claims
claims_of user now = record {
  sub = user.id;
  username = user.username;
  exp = (now + 24 * 3600 * 10 ^ 9) / 10 ^ 9;
}

abbrev pub signed : User → Option String → Response
signed user none = respond 500 (text "failed to generate token")
signed user (some s) = respond 200 (token record { token = s; user = user })

module _ (env : Env) (out : Outside) where
  unfoldable pub give_token : User → Serving
  give_token user = asking env.now λ now. stop (signed user (out.sign (claims_of user now)))

  -- Once the user is read: the password is checked, and the token is signed.
  abbrev pub checked : AuthRequest → Result (Option User) → Serving
  checked req (err e) = stop (respond 500 (text "internal server error"))
  checked req (ok none) = stop (respond 401 (text "invalid credentials"))
  checked req (ok (some user)) =
      if out.password_matches user.password_hash req.password
      then give_token user
      else stop (respond 401 (text "invalid credentials"))

  unfoldable pub login : AuthRequest → Serving
  login req w = let (r, w') = get_user_by_username env req.username w in checked req r w'

  unfoldable pub auth_handler : Request → Serving
  auth_handler r =
      if r.method == "POST"
      then decoded (out.decode_auth r.body) "invalid request body" login
      else stop (respond 405 (text "method not allowed"))
