-- ===== src/Api/Pausing.antt =====
-- A schedule that is paused or resumed through the API, and the scheduler.
use flowscale.Prelude.Predicates.{All}
use flowscale.Prelude.{
  ℕ, ◌≡◌, refl, ◌≢◌, inl, inr, Bool-cases, none, String, List, [], ◌∷◌, false, leb, select, update,
  ◌==◌, arith, eq_iff,
}
use flowscale.Models.{Schedule, active, paused}
use flowscale.Runtime.{Env, World, tx}
use flowscale.Repository.ScheduleRepo.{
  has_schedule_id, is_due, due_in, set_state, update_schedule_state,
}
use flowscale.Api.{Outside, replying}
use flowscale.Api.Schedules.{handle_pause, handle_resume}

other_id : (s : Schedule) (id : String) → (s.id == id) ≡ false → s.id ≢ id
other_id s id e q = ground (arith, e, eq_iff s.id id, q)

paused-skipped :
    (id : String) (t now : ℕ) (ss : List Schedule)
    → All
        (λ s. s.id ≢ id)
        (select (is_due t) (update (has_schedule_id id) (set_state none paused now) ss))
unfolding select update
paused-skipped id t now [] = tt
paused-skipped id t now (s ∷ ss) = elim (Bool-cases (s.id == id)) [
  | inl e ↦ rw e (elim (Bool-cases (leb s.next_run_at t)) [
    | inl l ↦ rw l (paused-skipped id t now ss)
    | inr l ↦ rw l (paused-skipped id t now ss)
  ])
  | inr e ↦ rw e (elim (Bool-cases (is_due t s)) [
    | inl d ↦ rw d (other_id s id e, paused-skipped id t now ss)
    | inr d ↦ rw d (paused-skipped id t now ss)
  ])
]

resumed-active :
    (id : String) (now : ℕ) (ss : List Schedule)
    → All
        (λ s. (s.id ≡ id) → s.status ≡ active)
        (update (has_schedule_id id) (set_state none active now) ss)
unfolding update
resumed-active id now [] = tt
resumed-active id now (s ∷ ss) = elim (Bool-cases (s.id == id)) [
  | inl e ↦ rw e ((λ q. refl), resumed-active id now ss)
  | inr e ↦ rw e ((λ q. elim (other_id s id e q) [ ]), resumed-active id now ss)
]

-- A schedule that was paused, with an answer of 200, is due at no time, so no poll starts it; and
-- one that was resumed is active again.
pub pause-due_in :
    (env : Env) (out : Outside) (id : String) (w w' : World) (t : ℕ)
    → (handle_pause env out id w).0.status ≡ 200
    → (handle_resume env out id w').0.status ≡ 200
    → All (λ s. s.id ≢ id) (due_in t (handle_pause env out id w).1.db.schedules)
      × All (λ s. (s.id ≡ id) → s.status ≡ active) (handle_resume env out id w').1.db.schedules
unfolding handle_pause handle_resume replying update_schedule_state tx due_in
pause-due_in env out id w w' t h k = (
  elim (Bool-cases (env.db_fails w.calls)) [
    | inl d ↦ ground (arith, h, d)
    | inr d ↦ rw d (paused-skipped id t (env.now w.calls) w.db.schedules)
  ],
  elim (Bool-cases (env.db_fails w'.calls)) [
    | inl d ↦ ground (arith, k, d)
    | inr d ↦ rw d (resumed-active id (env.now w'.calls) w'.db.schedules)
  ],
)
