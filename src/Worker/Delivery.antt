-- ===== src/Worker/Delivery.antt =====
-- What becomes of a delivery of a task in the worker: the goroutine that Start spawns, in
-- internal/worker/worker.go.
use flowscale.Prelude.{
  ◌≡◌, refl, inl, inr, ◌⊎◌, ◌≢◌, sym, ◌∙◌, subst, Bool, true, false, ◌||◌, Bool-cases, Option, some,
  ◌∷◌, String, arith, if◌then◌else◌,
}
use flowscale.Models.{
  ActivityTaskMessage, ActivityExecution, ActivityStatus, pending, running, completed, failed,
  retrying, is_completed, is_failed,
}
use flowscale.Runtime.{Env, World, Error, Result, ok, err, to_results, query, publish, tick}
use flowscale.Repository.ExecutionQueries.{find_activity}
use flowscale.Engine.Consumers.{Answer, acked, requeued}
use flowscale.Engine.Reports.{Unchanged}
use flowscale.Worker.{GoError, Handler, result_of, run_task, is_duplicate, handle_delivery}

-- The function ended with `e` in the state `w`: its result is published and the delivery
-- acknowledged, or neither.
abbrev pub Reported :
    String → ActivityTaskMessage → Option GoError → World → Answer → World → Type 0
Reported name task e w a w' =
    (w'.db ≡ w.db)
    × (((a ≡ acked) × (w'.broker ≡ to_results (result_of name task e) ∷ w.broker))
        ⊎ ((a ≡ requeued) × (w'.broker ≡ w.broker)))

run_task-Reported :
    (env : Env) (name : String) (handler : Handler) (task : ActivityTaskMessage) (w : World)
    → (let (e, w') = handler task w in
        let (a, w'') = run_task env name handler task w in Reported name task e w' a w'')
unfolding run_task publish
run_task-Reported env name handler task w =
    elim (Bool-cases (env.mq_fails (handler task w).1.calls)) [
      | inl refused ↦ rw refused (refl, inr (refl, refl))
      | inr taken ↦ rw taken (refl, inl (refl, refl))
    ]

-- The attempt that the task is for can be read, and it is COMPLETED or FAILED.
pub record ReadsDone (env : Env) (task : ActivityTaskMessage) (w : World) : Type 0 where
  pub answers : env.db_fails w.calls ≡ false
  pub act : ActivityExecution
  pub found : find_activity task.activity_id w.db ≡ ok act
  pub done : (act.status ≡ completed) ⊎ (act.status ≡ failed)

done_cases :
    (s : ActivityStatus) → (is_completed s || is_failed s) ≡ true → (s ≡ completed) ⊎ (s ≡ failed)
done_cases completed h = inl refl
done_cases failed h = inr refl
done_cases pending h = ground (arith, h)
done_cases running h = ground (arith, h)
done_cases retrying h = ground (arith, h)

done_is_duplicate :
    (s : ActivityStatus) → (s ≡ completed) ⊎ (s ≡ failed) → (is_completed s || is_failed s) ≡ true
done_is_duplicate s (inl e) = rw e refl
done_is_duplicate s (inr e) = rw e refl

true-false : {b : Bool} → b ≡ true → b ≡ false → ⊥
true-false {b} t f = ground (arith, t, f)

err-ok : {e : Error} {act : ActivityExecution} → err e ≢ ok act
err-ok h = cc

ok-injective : {a b : ActivityExecution} → ok a ≡ ok b → a ≡ b
ok-injective h = cc

not_done :
    (env : Env) (task : ActivityTaskMessage) (w : World) (act : ActivityExecution)
    → find_activity task.activity_id w.db ≡ ok act
    → (is_completed act.status || is_failed act.status) ≡ false
    → ¬ (ReadsDone env task w)
not_done env task w act f d k =
    let same : k.act ≡ act = ok-injective (sym k.found ∙ f) in
    let done : (act.status ≡ completed) ⊎ (act.status ≡ failed) =
      subst (λ (x : ActivityExecution). (x.status ≡ completed) ⊎ (x.status ≡ failed)) same k.done in
    true-false (done_is_duplicate act.status done) d

-- A delivery of a task. If the attempt that it is for can be read and is COMPLETED or FAILED, the
-- delivery is acknowledged, and neither the tables nor the messages change. If it cannot be read or
-- has another status, the function is run, and then its result is published and the delivery
-- acknowledged, or the broker refuses the result and the delivery goes back to the queue.
pub handle_delivery-Outcome :
    (env : Env) (name : String) (handler : Handler) (task : ActivityTaskMessage) (w : World)
    → (let (a, w') = handle_delivery env name handler (some task) w in
        let (e, wₕ) = handler task (tick w) in
        (ReadsDone env task w × (a ≡ acked) × Unchanged w w')
        ⊎ ((¬ (ReadsDone env task w)) × Reported name task e wₕ a w'))
unfolding handle_delivery query
handle_delivery-Outcome env name handler task w = elim (Bool-cases (env.db_fails w.calls)) [
  | inl down ↦
      rw down
        (inr ((λ k. true-false down k.answers), run_task-Reported env name handler task (tick w)))
  | inr up ↦ rw up (go up (find_activity task.activity_id w.db) refl)
]
  where
    go :
        env.db_fails w.calls ≡ false
        → (r : Result ActivityExecution) → find_activity task.activity_id w.db ≡ r
        → (let (a, w') : Answer × World =
              if is_duplicate r then (acked, tick w) else run_task env name handler task (tick w) in
            let (e, wₕ) = handler task (tick w) in
            (ReadsDone env task w × (a ≡ acked) × Unchanged w w')
            ⊎ ((¬ (ReadsDone env task w)) × Reported name task e wₕ a w'))
    go up (err e) f =
        inr ((λ k. err-ok (sym f ∙ k.found)), run_task-Reported env name handler task (tick w))
    go up (ok act) f = elim (Bool-cases (is_duplicate (ok act))) [
      | inl d ↦ rw d (
          inl (
            record { answers = up; act = act; found = f; done = done_cases act.status d },
            refl,
            (refl, refl),
          ))
      | inr d ↦
          rw d (inr (not_done env task w act f d, run_task-Reported env name handler task (tick w)))
    ]
