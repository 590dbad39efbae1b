-- ===== src/Boot/Activities.antt =====
-- cmd/engine/main.go: the activities that a process registers with its worker. Each waits for a
-- second or three and writes to the log, which is left out.
use Prim.Native.String.{◌++◌}
use flowscale.Prelude.Dictionary.{value_at, assign, value_at-assign}
use flowscale.Prelude.{
  ℕ, zero, suc, ◌+◌, ◌≡◌, refl, Bool, false, String, Option, none, some, List, [], ◌∷◌, ltb, ◌==◌,
  eq_iff, arith, inl, inr, Bool-cases, if◌then◌else◌,
}
use flowscale.Format.{show}
use flowscale.Worker.{GoError, plain, Handler}

-- flakyAttempts: the runs of each execution so far. A process forgets them when it ends.
abbrev pub Attempts : Type 0
Attempts = List (String × ℕ)

abbrev or_zero : Option ℕ → ℕ
or_zero none = 0
or_zero (some n) = n

unfoldable pub attempts_of : String → Attempts → ℕ
attempts_of id m = or_zero (value_at id m)

-- What an activity is given beside its context: whether the file shipment_down.txt is there, and the
-- map under `flakyMu`.
abbrev pub DemoActivity : Type 0
DemoActivity = Bool → Attempts → String → Option GoError × Attempts

unfoldable pub succeed : DemoActivity
succeed down m id = (none, m)

unfoldable pub create_shipment : DemoActivity
create_shipment down m id =
    (if down then some (plain "simulated shipment failure (service down)") else none, m)

abbrev pub timeout_error : ℕ → GoError
timeout_error n = plain ("simulated network timeout (attempt " ++ (show n ++ ")"))

unfoldable pub flaky_api : DemoActivity
flaky_api down m id =
    let attempts = attempts_of id m in
    (
      if ltb attempts 3 then some (timeout_error (attempts + 1)) else none,
      assign id (attempts + 1) m,
    )

unfoldable pub always_fail : DemoActivity
always_fail down m id = (some (plain "fatal error (simulated)"), m)

-- RegisterActivity: the map of the worker.
unfoldable pub register_activity :
    String → DemoActivity → List (String × DemoActivity) → List (String × DemoActivity)
register_activity = assign

-- for i := 1; i <= 5; i++, with the rounds that are left
unfoldable pub register_chunks : ℕ → ℕ → List (String × DemoActivity) → List (String × DemoActivity)
register_chunks zero i m = m
register_chunks (suc rounds) i m =
    register_chunks rounds (i + 1) (register_activity ("process-chunk-" ++ show i) succeed m)

unfoldable pub demo_activities : List (String × DemoActivity)
demo_activities = register_chunks 5 1 (
    register_activity "load-data" succeed (
      register_activity "transform-data" succeed (
        register_activity "extract-data" succeed (
          register_activity "always-fail" always_fail (
            register_activity "flaky-api" flaky_api (
              register_activity "create-shipment" create_shipment (
                register_activity "cancel-shipment" succeed (
                  register_activity "refund-payment" succeed (
                    register_activity "release-inventory" succeed (
                      register_activity "charge-card" succeed
                        (register_activity "reserve-inventory" succeed [])))))))))))

-- An activity as the worker runs it on a task.
unfoldable pub handler_of : DemoActivity → Attempts → Handler
handler_of act m task w = ((act w.shipment_down m task.execution_id).0, w)

-- The map after runs of flaky-api for these executions, the last one first. The lock lets them
-- through one after the other.
unfoldable pub after_runs : List String → Attempts
after_runs [] = []
after_runs (id ∷ ids) = (flaky_api false (after_runs ids) id).1

unfoldable pub occurrences : String → List String → ℕ
occurrences id [] = 0
occurrences id (j ∷ js) = if j == id then suc (occurrences id js) else occurrences id js

attempts_of-assign :
    (k j : String) (n : ℕ) (m : Attempts)
    → attempts_of j (assign k n m) ≡ (if k == j then n else attempts_of j m)
unfolding attempts_of
attempts_of-assign k j n m = elim (Bool-cases (k == j)) [
  | inl e ↦ rw (value_at-assign k j n m, e) refl
  | inr e ↦ rw (value_at-assign k j n m, e) refl
]

attempts_of-after_runs :
    (id : String) (ids : List String) → attempts_of id (after_runs ids) ≡ occurrences id ids
unfolding after_runs occurrences flaky_api
attempts_of-after_runs id [] = unfold attempts_of value_at in refl
attempts_of-after_runs id (j ∷ js) = ground (
  arith,
  eq_iff j id,
  attempts_of-assign j id (attempts_of j (after_runs js) + 1) (after_runs js),
  attempts_of-after_runs id js,
  attempts_of-after_runs j js,
)

-- The activity flaky-api fails for an execution, with the number of the attempt, until it has run
-- three times for it, and succeeds from then on, whatever runs for other executions come between.
pub flaky_api-fourth :
    (down : Bool) (id : String) (ids : List String)
    → (flaky_api down (after_runs ids) id).0
      ≡ (if ltb (occurrences id ids) 3 then some (timeout_error (occurrences id ids + 1)) else none)
unfolding flaky_api
flaky_api-fourth down id ids = rw (attempts_of-after_runs id ids) refl
