-- ===== src/Scheduler/Cluster.antt =====
-- internal/scheduler/scheduler.go: several schedulers on one database. Each keeps the connection that
-- holds lock 1000 from one poll to the next; Stop gives the lock up. How PostgreSQL keeps sessions
-- and their advisory locks is a parameter with its documented laws.
pub mod Leaders
use Prim.Native.Nat.{compare, Ordering}
use flowscale.Prelude.{ℕ, suc, ◌<◌, ◌≡◌, ◌≢◌, Bool, true, false, Option, none, some, if◌then◌else◌}

-- The sessions of a database server, by number, as a client can use them: `connect` opens the session
-- of that number or fails, `ping` says whether a session is alive, and `try_lock` is
-- pg_try_advisory_lock, which may also fail. A session ends by `close`, or when it is lost.
pub record Sessions : Type 1 where
  pub State : Type 0
  pub ping : ℕ → State → Bool
  pub holds : ℕ → State → Bool
  pub connect : ℕ → State → Bool × State
  pub try_lock : ℕ → State → Option Bool × State
  pub unlock : ℕ → State → State
  pub close : ℕ → State → State
  pub lose : ℕ → State → State
  -- A lock has one holder.
  pub exclusive : (a b : ℕ) (s : State) → holds a s ≡ true → holds b s ≡ true → a ≡ b
  -- A session has the lock once it is granted.
  pub granted : (a : ℕ) (s : State) → (try_lock a s).0 ≡ some true → holds a (try_lock a s).1 ≡ true
  -- What one session does ends no other, revives none, and takes no lock away.
  pub connect_frame :
      (a b : ℕ) (s : State)
      → a ≢ b
      → ping b (connect a s).1 ≡ true
      → (ping b s ≡ true) × (holds b s ≡ true → holds b (connect a s).1 ≡ true)
  pub lock_frame :
      (a b : ℕ) (s : State)
      → a ≢ b
      → ping b (try_lock a s).1 ≡ true
      → (ping b s ≡ true) × (holds b s ≡ true → holds b (try_lock a s).1 ≡ true)
  pub unlock_frame :
      (a b : ℕ) (s : State)
      → a ≢ b
      → ping b (unlock a s) ≡ true
      → (ping b s ≡ true) × (holds b s ≡ true → holds b (unlock a s) ≡ true)
  pub close_frame :
      (a b : ℕ) (s : State)
      → a ≢ b
      → ping b (close a s) ≡ true
      → (ping b s ≡ true) × (holds b s ≡ true → holds b (close a s) ≡ true)
  pub lose_frame :
      (a b : ℕ) (s : State)
      → a ≢ b
      → ping b (lose a s) ≡ true
      → (ping b s ≡ true) × (holds b s ≡ true → holds b (lose a s) ≡ true)
  -- A session that is closed or lost is not alive.
  pub closed : (a : ℕ) (s : State) → ping a (close a s) ≡ false
  pub lost : (a : ℕ) (s : State) → ping a (lose a s) ≡ false

module _ (db : Sessions) where
  open db use {State, ping, connect, try_lock, unlock, close, lose}

  -- What a call of tryAcquireLock ends with: its answer, `leaderConn`, and the server.
  pub record Attempt : Type 0 where
    pub answer : Bool
    pub leader_conn : Option ℕ
    pub server : State

  abbrev attempt : Bool → Option ℕ → State → Attempt
  attempt b c s = record { answer = b; leader_conn = c; server = s }

  abbrev pub after_lock : ℕ → Option Bool × State → Attempt
  after_lock conn (none, s) = attempt false none (close conn s)
  after_lock conn (some true, s) = attempt true (some conn) s
  after_lock conn (some false, s) = attempt false none (close conn s)

  abbrev pub after_connect : ℕ → Bool × State → Attempt
  after_connect conn (false, s) = attempt false none s
  after_connect conn (true, s) = after_lock conn (try_lock conn s)

  -- `conn` is the number of the connection that is opened where there is none.
  unfoldable pub acquire_lock : ℕ → Option ℕ → State → Attempt
  acquire_lock conn (some c) s =
      if ping c s then attempt true (some c) s else attempt false none (close c s)
  acquire_lock conn none s = after_connect conn (connect conn s)

  -- releaseLock, which ignores the error of the unlock
  unfoldable pub release_lock : Option ℕ → State → State
  release_lock none s = s
  release_lock (some c) s = close c (unlock c s)

  -- The schedulers by number, the server, and how many connections have been opened.
  pub record Cluster : Type 0 where
    pub conns : ℕ → Option ℕ
    pub server : State
    pub opened : ℕ

  abbrev pub put : ℕ → Option ℕ → (ℕ → Option ℕ) → ℕ → Option ℕ
  put i c conns j = elim (compare i j) [ Ordering.eq ↦ c | _ ↦ conns j ]

  unfoldable pub poll_lock : ℕ → Cluster → Bool × Cluster
  poll_lock i k =
      let r = acquire_lock k.opened (k.conns i) k.server in
      (
        r.answer,
        record { conns = put i r.leader_conn k.conns; server = r.server; opened = suc k.opened },
      )

  unfoldable pub stop : ℕ → Cluster → Cluster
  stop i k = record k { conns = put i none k.conns; server = release_lock (k.conns i) k.server }

  unfoldable pub lose_session : ℕ → Cluster → Cluster
  lose_session c k = record k { server = lose c k.server }

  -- What happens to a cluster that starts with no scheduler connected.
  pub data ClusterHistory : Cluster → Type 0 where
    started : (s : State) → ClusterHistory (record { conns = λ i. none; server = s; opened = 0 })
    polled : (i : ℕ) {k : Cluster} → ClusterHistory k → ClusterHistory (poll_lock i k).1
    stopped : (i : ℕ) {k : Cluster} → ClusterHistory k → ClusterHistory (stop i k)
    lost_session : (c : ℕ) {k : Cluster} → ClusterHistory k → ClusterHistory (lose_session c k)
