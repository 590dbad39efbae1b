-- ===== src/Api/Calls.antt =====
-- The API as a client of the system: what a handler does to the world is a sequence of calls of
-- `System`, of which at most so many write. There is one rule for each way to build a handler.
pub mod Executions
pub mod Handlers
pub mod Seeding
pub mod Server
use flowscale.Prelude.{
  ℕ, suc, ◌+◌, ◌≤◌, ◌≡◌, refl, sym, subst, ◌∙◌, ap, List, [], ◌∷◌, ◌++◌, Bool, true, false, inl,
  inr, Bool-cases, Option, none, some, String, arith, if◌then◌else◌,
}
use flowscale.Runtime.{Env, Db, World, M, Result, ok, err, Error, query, tick}
use flowscale.System.{Call, on_ask, perform}
use flowscale.Api.{Response, Serving, stop, reply, replying, asking, decoded}

-- Only a question to the outside writes nothing.
abbrev is_write : Call → Bool
is_write on_ask = false
is_write _ = true

unfoldable pub writes : List Call → ℕ
writes [] = 0
writes (c ∷ cs) = (if is_write c then 1 else 0) + writes cs

unfoldable pub perform_all : Env → List Call → World → World
perform_all env [] w = w
perform_all env (c ∷ cs) w = perform_all env cs (perform env c w)

-- The calls that lead from one world to another, with at most `n` writes among them.
pub record Called (env : Env) (n : ℕ) (w w' : World) : Type 0 where
  pub calls : List Call
  pub same : perform_all env calls w ≡ w'
  pub few : writes calls ≤ n

module _ (env : Env) where
  pub Called-refl : (n : ℕ) (w : World) → Called env n w w
  unfolding perform_all writes
  Called-refl n w = record { calls = []; same = refl; few = omega arith }

  perform_all-append :
      (cs ds : List Call) (w : World)
      → perform_all env (cs ++ ds) w ≡ perform_all env ds (perform_all env cs w)
  unfolding perform_all
  perform_all-append [] ds w = refl
  perform_all-append (c ∷ cs) ds w = perform_all-append cs ds (perform env c w)

  writes-append : (cs ds : List Call) → writes (cs ++ ds) ≡ writes cs + writes ds
  unfolding writes
  writes-append [] ds = omega arith
  writes-append (c ∷ cs) ds = omega (arith, writes-append cs ds)

  pub Called-trans :
      (m n : ℕ) (w w' w'' : World)
      → Called env m w w'
      → Called env n w' w''
      → Called env (m + n) w w''
  Called-trans m n w w' w'' c d = record {
    calls = c.calls ++ d.calls;
    same = perform_all-append c.calls d.calls w ∙ ap (perform_all env d.calls) c.same ∙ d.same;
    few = omega (arith, writes-append c.calls d.calls, c.few, d.few);
  }

  pub Called-call : (c : Call) (w : World) → Called env 1 w (perform env c w)
  unfolding perform_all writes
  Called-call on_ask w = record { calls = on_ask ∷ []; same = refl; few = omega arith }
  Called-call c w = record { calls = c ∷ []; same = refl; few = omega arith }

  pub Called-tick : (n : ℕ) (w w' : World) → Called env n (tick w) w' → Called env n w w'
  unfolding perform_all writes perform
  Called-tick n w w' c = record {
    calls = on_ask ∷ c.calls;
    same = c.same;
    few = omega (arith, c.few);
  }

  pub Called-weaken : (m n : ℕ) (w w' : World) → m ≤ n → Called env m w w' → Called env n w w'
  Called-weaken m n w w' le c = record {
    calls = c.calls;
    same = c.same;
    few = omega (arith, c.few, le);
  }

-- A handler that makes at most `n` writing calls, whatever world it finds.
pub record Within (env : Env) (n : ℕ) (f : Serving) : Type 0 where
  pub at : (w : World) → Called env n w (f w).1

module _ {env : Env} {n : ℕ} where
  pub Within-stop : (r : Response) → Within env n (stop r)
  Within-stop r = record { at = λ w. Called-refl env n w }

  pub Within-if :
      (b : Bool) (f g : Serving)
      → Within env n f
      → Within env n g
      → Within env n (if b then f else g)
  Within-if true f g kf kg = kf
  Within-if false f g kf kg = kg

  pub Within-asking :
      {A : Type 0} (q : ℕ → A) (f : A → Serving)
      → ((a : A) → Within env n (f a))
      → Within env n (asking q f)
  unfolding asking
  Within-asking q f k = record { at = λ w. Called-tick env n w _ ((k (q w.calls)).at (tick w)) }

  pub Within-decoded :
      {A : Type 0} (o : Option A) (bad : String) (f : A → Serving)
      → ((a : A) → Within env n (f a))
      → Within env n (decoded o bad f)
  Within-decoded none bad f k = Within-stop _
  Within-decoded (some a) bad f k = k a

reply-world :
    {A : Type 0} (good : A → Response) (bad : Error → Response) (p : Result A × World)
    → (reply good bad p).1 ≡ p.1
reply-world good bad (ok a, w) = refl
reply-world good bad (err e, w) = refl

module _ {env : Env} {A : Type 0} (good : A → Response) (bad : Error → Response) where
  pub Within-replying :
      (c : Call) (m : M A)
      → ((w : World) → perform env c w ≡ (m w).1)
      → Within env 1 (replying good bad m)
  unfolding replying
  Within-replying c m k = record {
    at = λ w. subst (Called env 1 w) (k w ∙ sym (reply-world good bad (m w))) (Called-call env c w);
  }

  -- Reading writes nothing.
  pub Within-reading :
      {n : ℕ} (m : M A)
      → ((w : World) → Called env n w (m w).1)
      → Within env n (replying good bad m)
  unfolding replying
  Within-reading {n} m k = record {
    at = λ w. subst (Called env n w) (sym (reply-world good bad (m w))) (k w);
  }

pub query-Called :
    {A : Type 0} (env : Env) (q : Db → Result A) (n : ℕ) (w : World)
    → Called env n w (query env q w).1
unfolding query
query-Called env q n w = elim (Bool-cases (env.db_fails w.calls)) [
  | inl e ↦ rw e (Called-tick env n w _ (Called-refl env n _))
  | inr e ↦ rw e (Called-tick env n w _ (Called-refl env n _))
]

pub ruleset within_rules = (Within-stop, Within-if, Within-asking, Within-decoded)
