-- ===== src/Runtime/Keeps.antt =====
-- Invariants of the tables and of the published messages: one rule for each way to build an
-- action. An action keeps `Q` whether it returns or fails.
use flowscale.Prelude.{
  ℕ, ◌≡◌, refl, inl, inr, Bool-cases, Bool, true, false, Option, none, some, List, if◌then◌else◌,
  arith,
}
use flowscale.Runtime.{
  Env, Db, Published, World, Metrics, Error, Result, ok, err, M, ◌>>=◌, pure, raise, or_raise,
  new_id, time_now, query, tx, count_metric, commit, tick, continue,
}

pub record Keeps {A : Type 0} (Q : Db → List Published → Type 0) (m : M A) : Type 0 where
  pub at : (w : World) → Q w.db w.broker → Q (m w).1.db (m w).1.broker

module _ {A : Type 0} {Q : Db → List Published → Type 0} where
  pub Keeps-pure : (a : A) → Keeps Q (pure a)
  unfolding pure
  Keeps-pure a = record { at = λ w h. h }

  pub Keeps-raise : (e : Error) → Keeps Q (raise {A = A} e)
  unfolding raise
  Keeps-raise e = record { at = λ w h. h }

  pub Keeps-or_raise : (o : Option A) (e : Error) → Keeps Q (or_raise o e)
  unfolding or_raise
  Keeps-or_raise none e = record { at = λ w h. h }
  Keeps-or_raise (some a) e = record { at = λ w h. h }

  pub Keeps-query : (env : Env) (q : Db → Result A) → Keeps Q (query env q)
  unfolding query
  Keeps-query env q = record { at = λ w h. ground (arith, h) }

  pub Keeps-if : (b : Bool) (m n : M A) → Keeps Q m → Keeps Q n → Keeps Q (if b then m else n)
  Keeps-if true m n km kn = km
  Keeps-if false m n km kn = kn

module _ (Q : Db → List Published → Type 0) where
  commit-keeps :
      (r : Result Db) (w : World)
      → ((db' : Db) → r ≡ ok db' → Q db' w.broker)
      → Q w.db w.broker
      → Q (commit r w).1.db (commit r w).1.broker
  commit-keeps (ok db') w k h = k db' refl
  commit-keeps (err e) w k h = h

  continue-keeps :
      {A B : Type 0} (r : Result A) (f : A → M B) (w : World)
      → ((a : A) → Keeps Q (f a))
      → Q w.db w.broker
      → Q (continue r f w).1.db (continue r f w).1.broker
  continue-keeps (ok a) f w k h = (k a).at w h
  continue-keeps (err e) f w k h = h

module _ {Q : Db → List Published → Type 0} where
  pub Keeps-new_id : (env : Env) → Keeps Q (new_id env)
  unfolding new_id
  Keeps-new_id env = record { at = λ w h. h }

  pub Keeps-time_now : (env : Env) → Keeps Q (time_now env)
  unfolding time_now
  Keeps-time_now env = record { at = λ w h. h }

  pub Keeps-count_metric : (f : Metrics → Metrics) → Keeps Q (count_metric f)
  unfolding count_metric
  Keeps-count_metric f = record { at = λ w h. h }

  -- A transaction keeps what its body keeps when it succeeds.
  pub Keeps-tx :
      (env : Env) (body : ℕ → Db → Result Db)
      → ((now : ℕ) (db db' : Db) (b : List Published) → body now db ≡ ok db' → Q db b → Q db' b)
      → Keeps Q (tx env body)
  unfolding tx
  Keeps-tx env body k = record {
    at = λ w h. elim (Bool-cases (env.db_fails w.calls)) [
      | inl down ↦ rw down h
      | inr up ↦ rw up (
          commit-keeps Q (body (env.now w.calls) w.db) (tick w)
            (λ db' e. k (env.now w.calls) w.db db' w.broker e h) h)
    ];
  }

module _ {A B : Type 0} {Q : Db → List Published → Type 0} where
  pub Keeps-bind :
      (m : M A) (f : A → M B) → Keeps Q m → ((a : A) → Keeps Q (f a)) → Keeps Q (m >>= f)
  unfolding ◌>>=◌
  Keeps-bind m f km kf = record {
    at = λ w h. let (r, w') = m w in continue-keeps Q r f w' kf (km.at w h);
  }

pub ruleset keeps_rules = (
  Keeps-pure, Keeps-raise, Keeps-or_raise, Keeps-query, Keeps-if, Keeps-new_id, Keeps-time_now,
  Keeps-count_metric, Keeps-bind,
)

-- What an action returns when it does not fail.
pub record Ensures {A : Type 0} (R : A → Type 0) (m : M A) : Type 0 where
  pub at : (w : World) (a : A) → (m w).0 ≡ ok a → R a

module _ {A B : Type 0} {Q : Db → List Published → Type 0} where
  pub Keeps-bind_Ensures :
      (R : A → Type 0) (m : M A) (f : A → M B)
      → Ensures R m
      → Keeps Q m
      → ((a : A) → R a → Keeps Q (f a))
      → Keeps Q (m >>= f)
  unfolding ◌>>=◌
  Keeps-bind_Ensures R m f em km kf = record {
    at = λ w h. let (r, w') = m w in go r w' (em.at w) (km.at w h);
  }
    where
      go :
          (r : Result A) (w' : World)
          → ((a : A) → r ≡ ok a → R a)
          → Q w'.db w'.broker
          → Q (continue r f w').1.db (continue r f w').1.broker
      go (ok a) w' e h = (kf a (e a refl)).at w' h
      go (err x) w' e h = h
