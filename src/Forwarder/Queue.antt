-- ===== src/Forwarder/Queue.antt =====
-- internal/forwarder/queue.go. Between two states of the queue stands one action of one goroutine:
-- a channel operation or an atomic addition. So `queued` may run behind or ahead of the channel:
-- `enqueuing` counts the calls of Enqueue that have sent and not yet added, `dequeuing` the workers
-- and calls of Drain that have received and not yet subtracted, and `leaving` the workers that are
-- done with a task whose inFlight is still to be subtracted.
pub mod Steps
pub mod Process
pub mod Bounded
pub mod Quiet
use ot_collector.Prelude.{
  ℕ, ◌+◌, ◌-◌, ◌<◌, String, Bool, true, false, Option, none, some, List, [], ◌∷◌, ◌++◌, length, ltb,
  leb, ◌==◌, if◌then◌else◌, ◌&&◌, is_pos, pos_part, ℤ,
}
use ot_collector.Event.{Event}

-- ForwardTask
pub record Task : Type 0 where
  pub evt : Event
  pub ingestion_path : String
  pub enqueued_at : ℕ

-- The sizes that NewForwardQueue puts in place of those not above 0.
unfoldable pub worker_count : ℤ → ℕ
worker_count workers = if is_pos workers then pos_part workers else 4

unfoldable pub buffer_size : ℤ → ℕ
buffer_size buf_size = if is_pos buf_size then pos_part buf_size else 2048

-- The channel: what it holds, oldest first, and its capacity.
pub record Channel (A : Type 0) : Type 0 where
  pub capacity : ℕ
  pub pending : List A

-- select { case ch <- a: true; default: false }
unfoldable pub try_send : {A : Type 0} → A → Channel A → Channel A × Bool
try_send a c =
    if ltb (length c.pending) c.capacity
    then (record c { pending = c.pending ++ a ∷ [] }, true)
    else (c, false)

-- The queue when every call has returned: Enqueue and Drain, with their counts.
pub record Queue : Type 0 where
  pub tasks : Channel Task
  pub queued : ℕ

-- NewForwardQueue
unfoldable pub new_queue : ℤ → Queue
new_queue buf_size = record {
  tasks = record { capacity = buffer_size buf_size; pending = [] };
  queued = 0;
}

-- Enqueue
unfoldable pub enqueue : Task → Queue → Queue × Bool
enqueue task q =
    let (tasks, sent) = try_send task q.tasks in
    if sent then (record { tasks = tasks; queued = q.queued + 1 }, true) else (q, false)

-- The loop of Drain, and the number that it returns.
unfoldable pub drain_loop : List Task → ℕ → ℕ → ℕ × ℕ
drain_loop [] queued n = (queued, n)
drain_loop (t ∷ ts) queued n = drain_loop ts (queued - 1) (n + 1)

-- Drain
unfoldable pub drain : Queue → Queue × ℕ
drain q =
    let (queued, n) = drain_loop q.tasks.pending q.queued 0 in
    (record { tasks = record q.tasks { pending = [] }; queued = queued }, n)
