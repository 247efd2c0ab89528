-- ===== src/Forwarder/Queue/Steps.antt =====
-- Every interleaving of callers of Enqueue and Drain with the workers.
use ot_collector.Prelude.{
  ℕ, suc, ◌+◌, ◌≤◌, ◌<◌, ◌≡◌, ap, List, [], ◌∷◌, ◌++◌, length, length-append, arith,
}
use ot_collector.Forwarder.Queue.{Task}

-- The shared state: the channel, the two atomic counters (`queued` is added_up - taken_off, and it
-- may be negative), and how many goroutines stand between a channel operation and its addition.
pub record Shared : Type 0 where
  pub capacity : ℕ
  pub pending : List Task
  pub added_up : ℕ
  pub taken_off : ℕ
  pub in_flight : ℕ
  pub enqueuing : ℕ
  pub dequeuing : ℕ
  pub draining : ℕ
  pub processing : ℕ

-- One action of one goroutine.
pub data Step : Shared → Shared → Type 0 where
  -- Enqueue: q.tasks <- task
  send :
      (s : Shared) (t : Task)
      → length s.pending < s.capacity
      → Step s (record s { pending = s.pending ++ t ∷ []; enqueuing = s.enqueuing + 1 })
  -- Enqueue: q.queued.Add(1)
  add_queued :
      (s : Shared) {n : ℕ}
      → s.enqueuing ≡ suc n
      → Step s (record s { added_up = s.added_up + 1; enqueuing = n })
  -- worker: task := <-q.tasks
  receive :
      (s : Shared) (t : Task) (ts : List Task)
      → s.pending ≡ t ∷ ts
      → Step s (record s { pending = ts; dequeuing = s.dequeuing + 1 })
  -- worker: q.queued.Add(-1), then q.inFlight.Add(1)
  take :
      (s : Shared) {n : ℕ}
      → s.dequeuing ≡ suc n
      → Step s
          (record s { taken_off = s.taken_off + 1; dequeuing = n; processing = s.processing + 1 })
  start :
      (s : Shared) → s.in_flight < s.processing → Step s (record s { in_flight = s.in_flight + 1 })
  -- worker: process returns, q.inFlight.Add(-1)
  finish :
      (s : Shared) {n m : ℕ}
      → s.in_flight ≡ suc n
      → s.processing ≡ suc m
      → Step s (record s { in_flight = n; processing = m })
  -- Drain: <-q.tasks
  discard :
      (s : Shared) (t : Task) (ts : List Task)
      → s.pending ≡ t ∷ ts
      → Step s (record s { pending = ts; draining = s.draining + 1 })
  -- Drain: q.queued.Add(-1)
  subtract :
      (s : Shared) {n : ℕ}
      → s.draining ≡ suc n
      → Step s (record s { taken_off = s.taken_off + 1; draining = n })

pub data Reach (s : Shared) : Shared → Type 0 where
  here : Reach s s
  next : {t u : Shared} → Reach s t → Step t u → Reach s u

-- A new queue.
abbrev pub start_of : ℕ → Shared
start_of capacity = record {
  capacity = capacity;
  pending = [];
  added_up = 0;
  taken_off = 0;
  in_flight = 0;
  enqueuing = 0;
  dequeuing = 0;
  draining = 0;
  processing = 0;
}

-- The channel is never above its capacity, and what was added less what was taken off differs
-- from its length by exactly the goroutines between the two actions.
pub record Accounts (capacity : ℕ) (s : Shared) : Type 0 where
  pub fixed : s.capacity ≡ capacity
  pub bounded : length s.pending ≤ capacity
  pub balanced :
      s.added_up + s.enqueuing ≡ s.taken_off + s.dequeuing + s.draining + length s.pending
  pub flying : s.in_flight ≤ s.processing

Step-Accounts : {capacity : ℕ} {s t : Shared} → Step s t → Accounts capacity s → Accounts capacity t
Step-Accounts (send s t room) a = record {
  fixed = a.fixed;
  bounded = omega (arith, length-append s.pending (t ∷ []));
  balanced = omega (arith, length-append s.pending (t ∷ []));
  flying = a.flying;
}
Step-Accounts (add_queued s e) a = omega arith
Step-Accounts (receive s t ts e) a =
    let l = ap {A = List Task} length e in
    record { fixed = a.fixed; bounded = omega arith; balanced = omega arith; flying = a.flying }
Step-Accounts (take s e) a = omega arith
Step-Accounts (start s h) a = omega arith
Step-Accounts (finish s e e') a = omega arith
Step-Accounts (discard s t ts e) a =
    let l = ap {A = List Task} length e in
    record { fixed = a.fixed; bounded = omega arith; balanced = omega arith; flying = a.flying }
Step-Accounts (subtract s e) a = omega arith

-- In every state that any interleaving of Enqueue, Drain and the workers reaches, the channel
-- holds at most its capacity, and QueuedCount is off from the number of waiting tasks by exactly
-- the goroutines that are between a channel operation and its counter.
pub Reach-Accounts : (capacity : ℕ) (s : Shared) → Reach (start_of capacity) s → Accounts capacity s
Reach-Accounts capacity _ here = omega arith
Reach-Accounts capacity _ (next {t} r step) = Step-Accounts step (Reach-Accounts capacity t r)
