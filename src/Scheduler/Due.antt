-- ===== src/Scheduler/Due.antt =====
-- What the scheduler writes of a schedule that it has run, and when that schedule is due by it.
use flowscale.Prelude.{
  ℕ, suc, ◌<◌, ◌≡◌, refl, ◌≢◌, inl, inr, ◌⊎◌, Bool, true, false, Bool-cases, Option, none, some,
  List, [], ◌∷◌, String, arith, ◌==◌, update, eq_iff,
}
use flowscale.Prelude.Predicates.{All}
use flowscale.Models.{ℤ, pos, Schedule, ScheduleType, once, delayed, recurring, active, finished}
use flowscale.Runtime.{Env, World, tx}
use flowscale.Repository.ScheduleRepo.{has_schedule_id, is_due, set_state, update_schedule_state}
use flowscale.Scheduler.{
  next_interval_run, next_cron_run, Next, finish, run_at, leave, next_run, apply_next,
  advance_schedule,
}

All-updated :
    {A : Type 0} (P : A → Type 0) (p : A → Bool) (f : A → A) (xs : List A)
    → ((x : A) → p (f x) ≡ p x)
    → ((x : A) → P (f x))
    → All (λ x. p x ≡ true → P x) (update p f xs)
unfolding update
All-updated P p f [] k h = tt
All-updated P p f (x ∷ xs) k h = elim (Bool-cases (p x)) [
  | inl e ↦ rw e ((λ _. h x), All-updated P p f xs k h)
  | inr e ↦ rw e ((λ t. absurd (true-false (rw (← t, e) refl))), All-updated P p f xs k h)
]
  where
    true-false : true ≢ false
    true-false h = cc

-- At this time the next run is still to come, or there is none.
abbrev IsLater : Next → ℕ → Type 0
IsLater finish t = Unit
IsLater (run_at u) t = t < u
IsLater leave t = ⊥

-- No row of this schedule is due at the time.
abbrev pub NotDue : String → ℕ → World → Type 0
NotDue id t w = All (λ r. has_schedule_id id r ≡ true → is_due t r ≡ false) w.db.schedules

apply_next-NotDue :
    (env : Env) (id : String) (n : Next) (t : ℕ) (w : World)
    → env.db_fails w.calls ≡ false
    → IsLater n t
    → NotDue id t (apply_next env id n w)
unfolding update_schedule_state tx
apply_next-NotDue env id finish t w up l =
    rw (apply_next, up)
      (All-updated (λ r. is_due t r ≡ false) (has_schedule_id id)
        (set_state none finished (env.now w.calls)) w.db.schedules (λ r. refl) (λ r. ground arith))
apply_next-NotDue env id (run_at u) t w up l =
    rw (apply_next, up)
      (All-updated (λ r. is_due t r ≡ false) (has_schedule_id id)
        (set_state (some u) active (env.now w.calls)) w.db.schedules (λ r. refl)
        (λ r. ground arith))
apply_next-NotDue env id leave t w up l = absurd l

abbrev IsOnce : ScheduleType → Type 0
IsOnce t = (t ≡ once) ⊎ (t ≡ delayed)

one_time-next :
    (env : Env) (s : Schedule) (now : ℕ) → IsOnce s.schedule_type → next_run env s now ≡ finish
unfolding next_run
one_time-next env s now k = ground arith

-- In the tables as they are right after the scheduler has written the state of a one-time schedule
-- that it has run, the schedule is due at no time, if the write does not fail.
pub advance_schedule-one_time :
    (env : Env) (s : Schedule) (now later : ℕ) (w : World)
    → env.db_fails w.calls ≡ false
    → (s.schedule_type ≡ once) ⊎ (s.schedule_type ≡ delayed)
    → NotDue s.id later (advance_schedule env s now w)
unfolding advance_schedule
advance_schedule-one_time env s now later w up k =
    rw (one_time-next env s now k) (apply_next-NotDue env s.id finish later w up tt)

eq_of : (a b : String) → (a == b) ≡ true → a ≡ b
eq_of a b h = ground (arith, h, eq_iff a b)

ne_of : (a b : String) → (a == b) ≡ false → a ≢ b
ne_of a b h e = ground (arith, h, e, eq_iff a b)

recurring-next :
    (env : Env) (s : Schedule) (now : ℕ)
    → s.schedule_type ≡ recurring
    → (s.cron_expression ≡ ""
        → (d : ℤ) → env.parse_duration s.interval ≡ some d
        → (k : ℕ) × (d ≡ pos (suc k)))
    → (s.cron_expression ≢ ""
        → (next : ℕ → ℕ) → env.next_cron s.cron_expression ≡ some next
        → now < next now)
    → IsLater (next_run env s now) now
unfolding next_run
recurring-next env s now r interval cron = rw r (elim (Bool-cases (s.cron_expression == "")) [
  | inl no_cron ↦ rw no_cron (elim (Bool-cases (s.interval == "")) [
    | inl none_at_all ↦ rw none_at_all tt
    | inr timed ↦ rw timed (by_interval (eq_of _ _ no_cron) (env.parse_duration s.interval) refl)
  ])
  | inr has_cron ↦ rw has_cron (by_cron (ne_of _ _ has_cron) (env.next_cron s.cron_expression) refl)
])
  where
    by_interval :
        s.cron_expression ≡ ""
        → (o : Option ℤ) → env.parse_duration s.interval ≡ o
        → IsLater (next_interval_run now o) now
    by_interval ne none e = tt
    by_interval ne (some d) e = let (k, f) = interval ne d e in rw f (omega arith)

    by_cron :
        s.cron_expression ≢ ""
        → (o : Option (ℕ → ℕ)) → env.next_cron s.cron_expression ≡ o
        → IsLater (next_cron_run now o) now
    by_cron ne none e = tt
    by_cron ne (some next) e = cron ne next e

-- In the tables as they are right after the scheduler has written the state of a recurring schedule
-- that it has run, the schedule is not due at the time of that poll, if the write does not fail. A
-- cron expression that parses gives a later time; where there is no cron expression, an interval
-- that parses is positive.
pub advance_schedule-recurring :
    (env : Env) (s : Schedule) (now : ℕ) (w : World)
    → env.db_fails w.calls ≡ false
    → s.schedule_type ≡ recurring
    → (s.cron_expression ≡ ""
        → (d : ℤ) → env.parse_duration s.interval ≡ some d
        → (k : ℕ) × (d ≡ pos (suc k)))
    → (s.cron_expression ≢ ""
        → (next : ℕ → ℕ) → env.next_cron s.cron_expression ≡ some next
        → now < next now)
    → NotDue s.id now (advance_schedule env s now w)
unfolding advance_schedule
advance_schedule-recurring env s now w up r interval cron =
    apply_next-NotDue env s.id _ now w up (recurring-next env s now r interval cron)
