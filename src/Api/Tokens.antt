-- ===== src/Api/Tokens.antt =====
-- Logging in, and the token that it gives.
use Prim.Native.String.{◌++◌ as ◌+++◌}
use package.text.Mathlib.TextLemmas.{nil-append}
use flowscale.Prelude.{
  ℕ, suc, ◌+◌, ◌*◌, ◌/◌, ◌^◌, ◌<◌, ◌≡◌, refl, if◌then◌else◌, subst, ap, ◌⊎◌, inl, inr, Bool-cases,
  Option, none, some, String, Bool, true, false, find, ◌==◌, ◌||◌, arith,
}
use flowscale.Models.{User, AuthRequest}
use flowscale.Runtime.{Env, World, Db, Result, ok, err, query, tick}
use flowscale.Repository.UserRepo.{get_user_by_username}
use flowscale.Strings.{split, lowers_to}
use flowscale.Strings.Laws.{==-never_equal, never_equal}
use flowscale.Strings.Splits.{NoChar, split-NoChar, split-weld}
use flowscale.Api.{Request, Outside, Claims, Handler, Response, respond, token, text, stop, asking}
use flowscale.Api.Auth.{claims_of, signed, give_token, checked, login}
use flowscale.Api.Middleware.{bearer, is_public, auth}

-- The response of a successful login.
abbrev pub logged_in : User → String → Response
logged_in user t = respond 200 (token record { token = t; user = user })

query-ok :
    {A : Type 0} (env : Env) (a : Db → A) {b : A} (w : World)
    → (query env (λ db. ok (a db)) w).0 ≡ ok b
    → a w.db ≡ b
unfolding query
query-ok env a w h = elim (Bool-cases (env.db_fails w.calls)) [
  | inl e ↦ ground (arith, h, e)
  | inr e ↦ ground (arith, h, e)
]

query-calls :
    {A : Type 0} (env : Env) (q : Db → Result A) (w : World) → (query env q w).1.calls ≡ suc w.calls
unfolding query
query-calls env q w = elim (Bool-cases (env.db_fails w.calls)) [
  | inl e ↦ rw e refl
  | inr e ↦ rw e refl
]

-- What lies behind a token that was given.
pub record IsIssued (env : Env) (out : Outside) (req : AuthRequest) (w : World) (user : User)
    (t : String) : Type 0 where
  pub stored : find (λ u. u.username == req.username) w.db.users ≡ some user
  pub matched : out.password_matches user.password_hash req.password ≡ true
  pub signature : out.sign (claims_of user (env.now (suc w.calls))) ≡ some t

signed-logged_in :
    (user user' : User) (o : Option String) (t : String)
    → signed user o ≡ logged_in user' t
    → (user ≡ user') × (o ≡ some t)
signed-logged_in user user' none t e = ground (arith, e)
signed-logged_in user user' (some s) t e = ground (arith, e)

module _ (env : Env) (out : Outside) where
  gives :
      (b : Bool) (u user : User) (w : World) (t : String)
      → ((if b then give_token env out u else stop (respond 401 (text "invalid credentials"))) w).0
        ≡ logged_in user t
      → (b ≡ true) × (u ≡ user) × (out.sign (claims_of u (env.now w.calls)) ≡ some t)
  unfolding give_token asking
  gives false u user w t e = ground (arith, e)
  gives true u user w t e =
      let (same, signature) = signed-logged_in u user _ t e in (refl, same, signature)

  checked-logged_in :
      (req : AuthRequest) (o : Result (Option User)) (w : World) (user : User) (t : String)
      → (checked env out req o w).0 ≡ logged_in user t
      → (o ≡ ok (some user))
        × (out.password_matches user.password_hash req.password ≡ true)
        × (out.sign (claims_of user (env.now w.calls)) ≡ some t)
  checked-logged_in req (err x) w user t e = ground (arith, e)
  checked-logged_in req (ok none) w user t e = ground (arith, e)
  checked-logged_in req (ok (some u)) w user t e =
      let (m, same, signature) =
        gives (out.password_matches u.password_hash req.password) u user w t e in
      (
        ap (λ x. ok (some x)) same,
        subst (λ x. out.password_matches x.password_hash req.password ≡ true) same m,
        subst (λ x. out.sign (claims_of x (env.now w.calls)) ≡ some t) same signature,
      )

  -- A login that answers with a token has found the user of that name in the table, the password
  -- matches the stored hash, and the token is the signature of claims that end a day later.
  pub login-IsIssued :
      (req : AuthRequest) (w : World) (user : User) (t : String)
      → (login env out req w).0 ≡ logged_in user t
      → IsIssued env out req w user t
  unfolding login get_user_by_username
  login-IsIssued req w user t e =
      let found = get_user_by_username env req.username w in
      let (here, matched, signature) = checked-logged_in req found.0 found.1 user t e in
      record {
        stored = query-ok env _ w here;
        matched = matched;
        signature =
            subst (λ n. out.sign (claims_of user (env.now n)) ≡ some t) (query-calls env _ w)
              signature;
      }

-- What the documents of golang-jwt say of tokens signed with HMAC: one that was signed with the
-- secret is accepted, with its claims, until it expires; and a token has no space.
pub record VerifiesOwn (out : Outside) : Type 0 where
  pub accepted :
      (c : Claims) (t : String) (now : ℕ)
      → out.sign c ≡ some t
      → now / 10 ^ 9 < c.exp
      → out.parse_token t now ≡ some c
  pub one_word : (c : Claims) (t : String) → out.sign c ≡ some t → NoChar b' ' t

bearer-token : (t : String) → NoChar b' ' t → bearer ("Bearer " +++ t) ≡ some t
unfolding bearer split lowers_to
bearer-token t h = rw (split-weld b' ' "Bearer " t, split-NoChar b' ' t h, nil-append) refl

-- The token of a login lets each request through that carries it as its bearer token, until a day
-- after the login: AuthMiddleware hands the request to the next handler, having asked the clock
-- once or, on a public path, not at all.
pub auth-login :
    (env : Env) (out : Outside) (req : AuthRequest) (w : World) (user : User) (t : String)
    (next : Handler) (r : Request) (w' : World)
    → VerifiesOwn out
    → (login env out req w).0 ≡ logged_in user t
    → r.authorization ≡ "Bearer " +++ t
    → env.now w'.calls / 10 ^ 9 < (env.now (suc w.calls) + 24 * 3600 * 10 ^ 9) / 10 ^ 9
    → (auth env out next r w' ≡ next r w') ⊎ (auth env out next r w' ≡ next r (tick w'))
unfolding auth never_equal claims_of asking
auth-login env out req w user t next r w' v e a before =
    let issued = login-IsIssued env out req w user t e in
    let signature = issued.signature in
    elim (Bool-cases (r.method == "OPTIONS" || is_public r.path)) [
      | inl p ↦ inl (rw p refl)
      | inr p ↦ inr (
          rw
            (
              p,
              a,
              ==-never_equal "Bearer " "" t refl,
              bearer-token t (v.one_word _ t signature),
              v.accepted _ t (env.now w'.calls) signature before,
            )
            refl)
    ]
