-- ===== src/Collector/Sound.antt =====
-- What holds of the whole collector in every state that it reaches.
use ot_collector.Prelude.{ℕ, ◌≡◌, ◌≤◌, sym, some, List, [], ◌∷◌, length, length-append, arith}
use ot_collector.Forwarder.Queue.{Task, Queue, try_send, enqueue, drain}
use ot_collector.Storage
use ot_collector.Stats.Totals.{IsSplit, call-IsSplit}
use ot_collector.Stream.Delivery
use ot_collector.Stream.Delivery.{
  IsValid, IsServed, AreDistinct, subscribing, unsubscribing, publishing, call-IsValid,
}
use ot_collector.Processor.{Processor}
use ot_collector.Collector.{take_task}
use ot_collector.Collector.Received.{receive_first-IsValid}
use ot_collector.Collector.Stepwise.{IsStepwise}

-- No more tasks wait than the channel has places, and it has as many as it was made with.
pub record IsWithin (places : ℕ) (q : Queue) : Type 0 where
  pub sized : q.tasks.capacity ≡ places
  pub bounded : length q.tasks.pending ≤ places

pub record IsSound (places : ℕ) (p : Processor) : Type 0 where
  pub split : IsSplit p.stats
  pub valid : IsValid p.stream_hub
  pub queues : (q : Queue) → p.forward_queue ≡ some q → IsWithin places q

enqueue-IsWithin :
    (places : ℕ) (t : Task) (q : Queue) → IsWithin places q → IsWithin places (enqueue t q).0
unfolding enqueue try_send
enqueue-IsWithin places t q h = ground (arith, length-append q.tasks.pending (t ∷ []))

drain-IsWithin : (places : ℕ) (q : Queue) → IsWithin places q → IsWithin places (drain q).0
unfolding drain
drain-IsWithin places q h = record { sized = h.sized; bounded = omega arith }

take_task-IsWithin :
    (places : ℕ) (busy : List Task) (q : Queue)
    → IsWithin places q
    → IsWithin places (take_task busy q).0
unfolding take_task
take_task-IsWithin places busy q h = ground (arith)

-- The one queue that there is.
pub only :
    (places : ℕ) (q : Queue) → IsWithin places q → (r : Queue) → some q ≡ some r → IsWithin places r
only places q h r e = let same : q ≡ r = cc in rw (sym same) h

pub IsSound-IsStepwise : (places : ℕ) (codec : Storage.Codec) → IsStepwise codec (IsSound places)
unfolding Delivery.call
IsSound-IsStepwise places codec = record {
  decides = λ e p h. record { split = h.split; valid = h.valid; queues = h.queues };
  appends = λ d evt p h. record { split = h.split; valid = h.valid; queues = h.queues };
  publishes = λ evt p h. record {
    split = h.split;
    valid = call-IsValid (publishing evt) p.stream_hub h.valid;
    queues = h.queues;
  };
  counts = λ c p h. record {
    split = call-IsSplit c p.stats h.split;
    valid = h.valid;
    queues = h.queues;
  };
  enqueues = λ t q p e h. record {
    split = h.split;
    valid = h.valid;
    queues = only places (enqueue t q).0 (enqueue-IsWithin places t q (h.queues q e));
  };
  drains = λ q p e h. record {
    split = h.split;
    valid = h.valid;
    queues = only places (drain q).0 (drain-IsWithin places q (h.queues q e));
  };
  takes = λ busy q p e h. record {
    split = h.split;
    valid = h.valid;
    queues = only places (take_task busy q).0 (take_task-IsWithin places busy q (h.queues q e));
  };
  sets = λ s fw p h. record { split = h.split; valid = h.valid; queues = h.queues };
  joins = λ p h. record {
    split = h.split;
    valid = call-IsValid subscribing p.stream_hub h.valid;
    queues = h.queues;
  };
  leaves = λ id p h. record {
    split = h.split;
    valid = call-IsValid (unsubscribing id) p.stream_hub h.valid;
    queues = h.queues;
  };
  receives = λ id p h. record {
    split = h.split;
    valid = receive_first-IsValid id p.stream_hub h.valid;
    queues = h.queues;
  };
}
