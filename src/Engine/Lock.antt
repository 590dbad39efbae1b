-- ===== src/Engine/Lock.antt =====
-- LockWorkflow and UnlockWorkflow of internal/repository/execution_repo.go: a session advisory
-- lock under the FNV-1a hash of the execution id, and the `defer` that releases it.
pub mod Release
use Prim.Native.Char.{code}
use Prim.Native.Nat.{bit_xor}
use flowscale.Prelude.{
  ℕ, ◌+◌, ◌-◌, ◌*◌, ◌%◌, ◌^◌, String, List, [], ◌∷◌, Bool, true, false, ltb, ◌==◌, ◌&&◌,
  if◌then◌else◌, ◌≡◌, arith,
}
use flowscale.Models.{ℤ, pos, negsuc}
use flowscale.Runtime.{Env, World, M, Result, ok, err, db_error, tick}

-- hash/fnv, New64a: over the bytes of the id, which is ASCII.
fnv64a : ℕ → String → ℕ
fnv64a h String.[] = h
fnv64a h (String.◌∷◌ c s) = fnv64a (bit_xor h (code c) * 1099511628211 % 2 ^ 64) s

-- int64(h.Sum64())
to_int64 : ℕ → ℤ
to_int64 n = if ltb n (2 ^ 63) then pos n else negsuc (2 ^ 64 - n - 1)

unfoldable pub lock_key : String → ℤ
unfolding fnv64a to_int64
lock_key execution_id = to_int64 (fnv64a 14695981039346656037 execution_id)

abbrev pub same_key : ℤ → ℤ → Bool
same_key (pos m) (pos n) = ltb m (n + 1) && ltb n (m + 1)
same_key (negsuc m) (negsuc n) = ltb m (n + 1) && ltb n (m + 1)
same_key _ _ = false

-- A lock of this session that is held once more must be released once more.
unfoldable pub unlock_once : ℤ → List ℤ → List ℤ
unlock_once key [] = []
unlock_once key (k ∷ ks) = if same_key k key then ks else k ∷ unlock_once key ks

abbrev pub take_lock : Bool → ℤ → World → Result (Unit {0}) × World
take_lock true key w = (err db_error, w)
take_lock false key w = (ok tt, record w { locks = key ∷ w.locks })

-- It waits until no other session holds the key; handlers of one execution run one at a time.
unfoldable pub lock_workflow : Env → String → M Unit
lock_workflow env execution_id w = take_lock (env.db_fails w.calls) (lock_key execution_id) (tick w)

abbrev pub drop_lock : Bool → ℤ → World → World
drop_lock true key w = w
drop_lock false key w = record w { locks = unlock_once key w.locks }

-- The caller's `defer` drops its error.
unfoldable pub unlock_workflow : Env → String → World → World
unlock_workflow env execution_id w =
    drop_lock (env.db_fails w.calls) (lock_key execution_id) (tick w)

abbrev locked : {A : Type 0} → Env → String → Result (Unit {0}) → M A → M A
locked env execution_id (err e) body w = (err e, w)
locked env execution_id (ok _) body w =
    let (r, w') = body w in (r, unlock_workflow env execution_id w')

unfoldable pub with_lock : {A : Type 0} → Env → String → M A → M A
with_lock env execution_id body w =
    let (r, w') = lock_workflow env execution_id w in locked env execution_id r body w'

pub db-unlock_workflow :
    (env : Env) (execution_id : String) (w : World) → (unlock_workflow env execution_id w).db ≡ w.db
unfolding unlock_workflow
db-unlock_workflow env execution_id w = ground arith

pub broker-unlock_workflow :
    (env : Env) (execution_id : String) (w : World)
    → (unlock_workflow env execution_id w).broker ≡ w.broker
unfolding unlock_workflow
broker-unlock_workflow env execution_id w = ground arith
