-- ===== src/Tests/Queues.antt =====
-- Runs of the queue, the sends and the hub.
use ot_collector.Prelude.{ℕ, ◌+◌, ◌-◌, ◌≡◌, ◌⊎◌, inr, String, [], ◌∷◌, ◌++◌, arith, take, length}
use ot_collector.Event.{Event}
use ot_collector.Forwarder.Queue.{Task, Queue}
use ot_collector.Forwarder.Queue.Quiet.{IsQuiet, Reach-IsQuiet}
use ot_collector.Forwarder.Queue.Steps.{
  Reach, Shared, send, here, next, start_of, Accounts, Reach-Accounts,
}
use ot_collector.Forwarder.Queue.Bounded.{enqueue_all, enqueue_all-take}
use ot_collector.Forwarder.Queue.Process.{Forwarder, Reply, response}
use ot_collector.Stream.{StreamHub, new_hub}
use ot_collector.Stream.Delivery.{subscribing, calls}
use ot_collector.Tests.{pump}

abbrev job : ℕ → Task
job n = record { evt = pump; ingestion_path = "api"; enqueued_at = n }

abbrev two_places : Queue
two_places = record { tasks = record { capacity = 2; pending = job 1 ∷ [] }; queued = 1 }

enqueue_all-take_example : enqueue_all (job 2 ∷ job 3 ∷ []) two_places ≡ record {
  tasks = record { capacity = 2; pending = (job 1 ∷ []) ++ take (2 - 1) (job 2 ∷ job 3 ∷ []) };
  queued = 1 + length (take (2 - 1) (job 2 ∷ job 3 ∷ []));
}
enqueue_all-take_example = enqueue_all-take (job 2 ∷ job 3 ∷ []) two_places (omega arith)

-- One task is sent to a queue with two places, and not counted yet.
abbrev sent : Shared
sent = record (start_of 2) { pending = job 1 ∷ []; enqueuing = 1 }

Reach-Accounts_example : Accounts 2 sent
Reach-Accounts_example = Reach-Accounts 2 sent (next here (send (start_of 2) (job 1) (omega arith)))

Reach-IsQuiet_example : (t : Shared) × Reach sent t × IsQuiet t
Reach-IsQuiet_example = Reach-IsQuiet 2 sent (next here (send (start_of 2) (job 1) (omega arith)))

abbrev collector : Forwarder
collector = record { url = "http://dmz"; timeout_secs = 10 }

abbrev body_of : Event → String ⊎ String
body_of e = inr "body"

abbrev accepts : String → String → Reply
accepts url body = response 202

abbrev one_client : StreamHub
one_client = calls (subscribing ∷ []) new_hub
