-- ===== src/Engine/Consumers/Fresh.antt =====
-- An activity whose worker sends heartbeats is not timed out.
use flowscale.Prelude.{
  ℕ, suc, ◌-◌, ◌≤◌, ◌≡◌, refl, inl, inr, true, false, Bool-cases, some, List, [], ◌∷◌, arith,
  select,
}
use flowscale.Prelude.Predicates.{All}
use flowscale.Models.{is_pending}
use flowscale.Runtime.{Env, World, ActivityExecutionRow, query}
use flowscale.Engine.Consumers.{
  timeout_duration, is_stale, stale_in, fail_all, reap_stale, reap_timeouts,
}
use flowscale.Engine.Reports.{Unchanged}

-- A PENDING activity has been heard of since.
abbrev pub IsFresh : ℕ → ActivityExecutionRow → Type 0
IsFresh since r =
    is_pending r.act.status ≡ true → (t : ℕ) × (r.last_heartbeat_at ≡ some t) × (since ≤ t)

not_stale : (since : ℕ) (r : ActivityExecutionRow) → IsFresh since r → is_stale since r ≡ false
not_stale since r f = elim (Bool-cases (is_pending r.act.status)) [
  | inl p ↦ let (t, h, le) = f p in rw (p, h) (ground arith)
  | inr e ↦ rw e refl
]

stale_in-fresh :
    (since : ℕ) (rows : List ActivityExecutionRow)
    → All (IsFresh since) rows
    → stale_in since rows ≡ []
unfolding stale_in select
stale_in-fresh since [] h = refl
stale_in-fresh since (r ∷ rows) h = rw (not_stale since r h.0) (stale_in-fresh since rows h.1)

-- If every PENDING activity was heard of in the five minutes before the reaper reads the clock, a
-- round of the reaper changes no table and sends nothing.
pub reap_timeouts-fresh :
    (env : Env) (w : World)
    → All (IsFresh (env.now (suc w.calls) - timeout_duration)) w.db.activity_executions
    → Unchanged w (reap_timeouts env w)
unfolding reap_timeouts reap_stale query fail_all
reap_timeouts-fresh env w h =
    ground
      (arith, stale_in-fresh (env.now (suc w.calls) - timeout_duration) w.db.activity_executions h)
