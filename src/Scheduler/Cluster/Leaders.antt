-- ===== src/Scheduler/Cluster/Leaders.antt =====
-- No two schedulers lead at once: a scheduler that leads has a live session with the lock.
use native.Mathlib.Decide.{ℕ_discrete}
use flowscale.Prelude.{
  ℕ, suc, ◌<◌, ◌≤◌, ◌≡◌, ◌≢◌, refl, sym, ap, ◌∙◌, Bool, true, false, Option, none, some, arith, inl,
  inr, Bool-cases, Option-cases,
}
use flowscale.Scheduler.Cluster.{
  Sessions, Attempt, after_lock, after_connect, acquire_lock, release_lock, Cluster, put, poll_lock,
  stop, lose_session, ClusterHistory, started, polled, stopped, lost_session,
}

module _ (db : Sessions) where
  open db use {
    State, ping, holds, connect, try_lock, unlock, close, lose, exclusive, granted, connect_frame,
    lock_frame, unlock_frame, close_frame, lose_frame, closed, lost,
  }

  -- The scheduler `i` would find itself the leader at its next poll.
  abbrev pub Leads : Cluster db → ℕ → Type 0
  Leads k i = (c : ℕ) × (k.conns i ≡ some c) × (ping c k.server ≡ true)

  record Inv (k : Cluster db) : Type 0 where
    below : (i c : ℕ) → k.conns i ≡ some c → c < k.opened
    held : (i c : ℕ) → k.conns i ≡ some c → ping c k.server ≡ true → holds c k.server ≡ true
    own : (i j c : ℕ) → k.conns i ≡ some c → k.conns j ≡ some c → i ≡ j

  -- From `s` to `s'` no session but `a` has gained a life or lost the lock.
  abbrev Frame : ℕ → State → State → Type 0
  Frame a s s' =
      (b : ℕ)
      → a ≢ b
      → ping b s' ≡ true
      → (ping b s ≡ true) × (holds b s ≡ true → holds b s' ≡ true)

  Frame-refl : (a : ℕ) (s : State) → Frame a s s
  Frame-refl a s b n p = (p, λ h. h)

  Frame-trans : (a : ℕ) (s t u : State) → Frame a s t → Frame a t u → Frame a s u
  Frame-trans a s t u f g b n p =
      let (p', h') = g b n p in let (q, h) = f b n p' in (q, λ x. h' (h x))

  -- What a scheduler does to its own connection.
  record Change (i : ℕ) (k : Cluster db) (conn : Option ℕ) (s : State) (o : ℕ) : Type 0 where
    others : (j c : ℕ) → j ≢ i → k.conns j ≡ some c → ping c s ≡ true → holds c s ≡ true
    mine : (c : ℕ) → conn ≡ some c → (c < o) × (ping c s ≡ true → holds c s ≡ true)
    apart : (j c : ℕ) → j ≢ i → conn ≡ some c → k.conns j ≢ some c
    grows : k.opened ≤ o

  Change-Inv :
      (i : ℕ) (k : Cluster db) (conn : Option ℕ) (s : State) (o : ℕ)
      → Inv k
      → Change i k conn s o
      → Inv (record { conns = put db i conn k.conns; server = s; opened = o })
  Change-Inv i k conn s o v ch = record {
    below = λ j c e. ground (arith, v.below j c, ch.mine c, ch.grows);
    held = λ j c e p. ground (arith, ch.others j c, ch.mine c);
    own = λ j l c e f. ground (arith, v.own j l c, ch.apart j c, ch.apart l c);
  }

  -- A change of the server in which only the session `a` takes part, which no other scheduler has.
  others_lem :
      (i a : ℕ) (k : Cluster db) (s : State)
      → Inv k
      → Frame a k.server s
      → ((j : ℕ) → j ≢ i → k.conns j ≢ some a)
      → (j c : ℕ) → j ≢ i
      → k.conns j ≡ some c
      → ping c s ≡ true
      → holds c s ≡ true
  others_lem i a k s v f n j c ne e p =
      let (q, h) = f c (λ same. n j ne (rw same e)) p in h (v.held j c e q)

  -- The new connection belongs to no scheduler.
  new_lem : (k : Cluster db) → Inv k → (j : ℕ) → k.conns j ≢ some k.opened
  new_lem k v j e = absurd (omega (arith, v.below j k.opened e))

  -- The scheduler `i` gives its connection up.
  dropped :
      (i a : ℕ) (k : Cluster db) (s : State) (o : ℕ)
      → Inv k
      → k.opened ≤ o
      → Frame a k.server s
      → ((j : ℕ) → j ≢ i → k.conns j ≢ some a)
      → Change i k none s o
  dropped i a k s o v le f n = record {
    others = others_lem i a k s v f n;
    mine = λ c e. cc;
    apart = λ j c ne e. cc;
    grows = le;
  }

  apart_lem :
      (i c : ℕ) (k : Cluster db) → Inv k → k.conns i ≡ some c → (j : ℕ) → j ≢ i → k.conns j ≢ some c
  apart_lem i c k v e j ne f = ne (v.own j i c f e)

  abbrev Outcome : ℕ → Cluster db → Attempt db → Type 0
  Outcome i k r = Change i k r.leader_conn r.server (suc k.opened)

  after_lock-Change :
      (i : ℕ) (k : Cluster db) (s : State)
      → Inv k
      → Frame k.opened k.server s
      → Outcome i k (after_lock db k.opened (try_lock k.opened s))
  after_lock-Change i k s v f = go (try_lock k.opened s).0 refl
    where
      t : State
      t = (try_lock k.opened s).1

      f' : Frame k.opened k.server t
      f' = Frame-trans k.opened k.server s t f (λ b. lock_frame k.opened b s)

      gone : Change i k none (close k.opened t) (suc k.opened)
      gone =
          dropped i k.opened k (close k.opened t) (suc k.opened) v (omega arith)
            (Frame-trans k.opened k.server t (close k.opened t) f' (λ b. close_frame k.opened b t))
            (λ j ne. new_lem k v j)

      go :
          (r : Option Bool)
          → (try_lock k.opened s).0 ≡ r
          → Outcome i k (after_lock db k.opened (r, t))
      go none e = gone
      go (some false) e = gone
      go (some true) e = record {
        others = others_lem i k.opened k t v f' (λ j ne. new_lem k v j);
        mine = λ c q. ground (arith, granted k.opened s);
        apart = λ j c ne q h. new_lem k v j (h ∙ sym q);
        grows = omega arith;
      }

  acquire_lock-Change :
      (i : ℕ) (k : Cluster db) → Inv k → Outcome i k (acquire_lock db k.opened (k.conns i) k.server)
  unfolding acquire_lock
  acquire_lock-Change i k v = elim (Option-cases (k.conns i)) [
    | inl e ↦ rw e (fresh (connect k.opened k.server).0 refl)
    | inr (c, e) ↦ elim (Bool-cases (ping c k.server)) [
      | inl p ↦
          rw (e, p)
            (record {
              others = others_lem i c k k.server v (Frame-refl c k.server) (apart_lem i c k v e);
              mine = λ d q. ground (arith, v.below i c, v.held i c);
              apart = λ j d ne q h. apart_lem i c k v e j ne (h ∙ sym q);
              grows = omega arith;
            })
      | inr p ↦
          rw (e, p)
            (dropped i c k (close c k.server) (suc k.opened) v (omega arith)
              (λ b. close_frame c b k.server) (apart_lem i c k v e))
    ]
  ]
    where
      f : Frame k.opened k.server (connect k.opened k.server).1
      f b = connect_frame k.opened b k.server

      fresh :
          (b : Bool)
          → (connect k.opened k.server).0 ≡ b
          → Outcome i k (after_connect db k.opened (b, (connect k.opened k.server).1))
      fresh true e = after_lock-Change i k (connect k.opened k.server).1 v f
      fresh false e =
          dropped i k.opened k (connect k.opened k.server).1 (suc k.opened) v (omega arith) f
            (λ j ne. new_lem k v j)

  poll_lock-Inv : (i : ℕ) (k : Cluster db) → Inv k → Inv (poll_lock db i k).1
  unfolding poll_lock
  poll_lock-Inv i k v =
      let r = acquire_lock db k.opened (k.conns i) k.server in
      Change-Inv i k r.leader_conn r.server (suc k.opened) v (acquire_lock-Change i k v)

  stop-Inv : (i : ℕ) (k : Cluster db) → Inv k → Inv (stop db i k)
  unfolding stop release_lock
  stop-Inv i k v = elim (Option-cases (k.conns i)) [
    | inl e ↦ rw e (
        Change-Inv i k none k.server k.opened v (
          dropped i k.opened k k.server k.opened v (omega arith) (Frame-refl k.opened k.server)
            (λ j ne. new_lem k v j)))
    | inr (c, e) ↦ rw e (
        let s = unlock c k.server in
        Change-Inv i k none (close c s) k.opened v (
          dropped i c k (close c s) k.opened v (omega arith)
            (Frame-trans c k.server s (close c s) (λ b. unlock_frame c b k.server)
              (λ b. close_frame c b s))
            (apart_lem i c k v e)))
  ]

  lose_session-Inv : (a : ℕ) (k : Cluster db) → Inv k → Inv (lose_session db a k)
  unfolding lose_session
  lose_session-Inv a k v = record {
    below = v.below;
    held = λ i c e p. elim (ℕ_discrete a c) [
      | yes same ↦ absurd (ground (arith, lost a k.server))
      | no differ ↦ let (q, h) = lose_frame a c k.server differ p in h (v.held i c e q)
    ];
    own = v.own;
  }

  ClusterHistory-Inv : {k : Cluster db} → ClusterHistory db k → Inv k
  ClusterHistory-Inv (started s) = record {
    below = λ i c e. cc;
    held = λ i c e. cc;
    own = λ i j c e. cc;
  }
  ClusterHistory-Inv (polled i {k} h) = poll_lock-Inv i k (ClusterHistory-Inv h)
  ClusterHistory-Inv (stopped i {k} h) = stop-Inv i k (ClusterHistory-Inv h)
  ClusterHistory-Inv (lost_session c {k} h) = lose_session-Inv c k (ClusterHistory-Inv h)

  -- Whatever polls, stops and losses of connections there have been: of the schedulers whose
  -- connections are alive at most one is the leader. Sessions of the server end for good, and a lock
  -- that is granted to a session stays with it while it lives and does not unlock.
  pub one_leader :
      {k : Cluster db} → ClusterHistory db k → (i j : ℕ) → Leads k i → Leads k j → i ≡ j
  one_leader h i j (c, ec, pc) (d, ed, pd) =
      let v = ClusterHistory-Inv h in
      v.own i j c ec (ed ∙ ap some (exclusive d c _ (v.held j d ed pd) (v.held i c ec pc)))
