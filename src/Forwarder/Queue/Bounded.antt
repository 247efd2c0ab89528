-- ===== src/Forwarder/Queue/Bounded.antt =====
-- The queue against a list: what Enqueue accepts and Drain discards.
use ot_collector.Prelude.{
  ℕ, zero, suc, ◌+◌, ◌-◌, ◌≤◌, ◌≡◌, refl, ◌∙◌, true, false, List, [], ◌∷◌, ◌++◌, length, take,
  length-append, arith, lt→ltb,
}
use native.Mathlib.Nat.{add-zero}
use mathlib.Core.List.{append-nil, append_assoc}
use ot_collector.Forwarder.Queue.{Task, Queue, try_send, enqueue, drain_loop, drain}

-- One call of Enqueue after another, with no worker in between.
unfoldable pub enqueue_all : List Task → Queue → Queue
enqueue_all [] q = q
enqueue_all (t ∷ ts) q = enqueue_all ts (enqueue t q).0

-- The room that is left.
abbrev room : Queue → ℕ
room q = q.tasks.capacity - length q.tasks.pending

enqueue-room :
    (t : Task) (q : Queue) (n : ℕ)
    → room q ≡ suc n
    → enqueue t q ≡ (
      record {
        tasks = record q.tasks { pending = q.tasks.pending ++ t ∷ [] };
        queued = q.queued + 1;
      },
      true,
    )
unfolding enqueue try_send
enqueue-room t q n h = rw (lt→ltb (length q.tasks.pending) q.tasks.capacity (omega arith))

enqueue_full : (t : Task) (q : Queue) → room q ≡ 0 → enqueue t q ≡ (q, false)
unfolding enqueue try_send
enqueue_full t q h = ground arith

enqueue_all_full : (ts : List Task) (q : Queue) → room q ≡ 0 → enqueue_all ts q ≡ q
unfolding enqueue_all
enqueue_all_full [] q h = refl
enqueue_all_full (t ∷ ts) q h = rw (enqueue_full t q h) (enqueue_all_full ts q h)

counted : (n m : ℕ) → n + 1 + m ≡ n + suc m
counted n m = omega arith

enqueue_all-room :
    (ts : List Task) (n : ℕ) (q : Queue)
    → room q ≡ n
    → enqueue_all ts q ≡ record {
      tasks = record q.tasks { pending = q.tasks.pending ++ take n ts };
      queued = q.queued + length (take n ts);
    }
unfolding enqueue_all
enqueue_all-room ts zero q h = rw (append-nil, add-zero) (enqueue_all_full ts q h)
enqueue_all-room [] (suc n) q h = rw (append-nil, add-zero)
enqueue_all-room (t ∷ ts) (suc n) q h = rw (enqueue-room t q n h) (
    rw
      (enqueue_all-room ts n
        (record {
          tasks = record q.tasks { pending = q.tasks.pending ++ t ∷ [] };
          queued = q.queued + 1;
        })
        (omega (arith, length-append q.tasks.pending (t ∷ []))))
      (λ i. record {
        tasks = record {
          capacity = q.tasks.capacity;
          pending = append_assoc q.tasks.pending (t ∷ []) (take n ts) i;
        };
        queued = counted q.queued (length (take n ts)) i;
      }))

-- The queue is a bounded FIFO: of a queue that is within its capacity, calls of Enqueue keep the
-- first tasks that there is room for, in their order behind those that wait, and turn the later
-- ones away; the count goes up by as many as are kept.
pub enqueue_all-take :
    (ts : List Task) (q : Queue)
    → length q.tasks.pending ≤ q.tasks.capacity
    → let kept = take (q.tasks.capacity - length q.tasks.pending) ts in
      enqueue_all ts q ≡ record {
        tasks = record q.tasks { pending = q.tasks.pending ++ kept };
        queued = q.queued + length kept;
      }
enqueue_all-take ts q fits = enqueue_all-room ts (room q) q refl

drain_loop_counts :
    (ts : List Task) (queued n : ℕ) → drain_loop ts queued n ≡ (queued - length ts, n + length ts)
unfolding drain_loop
drain_loop_counts [] queued n = λ i. (minus_zero queued i, plus_zero n i)
  where
    minus_zero : (n : ℕ) → n ≡ n - 0
    minus_zero n = omega arith

    plus_zero : (n : ℕ) → n ≡ n + 0
    plus_zero n = omega arith
drain_loop_counts (t ∷ ts) queued n =
    drain_loop_counts ts (queued - 1) (n + 1)
    ∙ (λ i. (less queued (length ts) i, more n (length ts) i))
  where
    less : (n m : ℕ) → n - 1 - m ≡ n - suc m
    less n m = omega arith

    more : (n m : ℕ) → n + 1 + m ≡ n + suc m
    more n m = omega arith

-- Drain returns the number of waiting tasks, empties the channel, and brings the count of a queue
-- that counts its tasks to 0.
pub drain_lem :
    (q : Queue)
    → q.queued ≡ length q.tasks.pending
    → drain q
      ≡ (record { tasks = record q.tasks { pending = [] }; queued = 0 }, length q.tasks.pending)
unfolding drain
drain_lem q h =
    let counts = drain_loop_counts q.tasks.pending q.queued 0 in
    rw (counts, h)
      (λ i. (
        record {
          tasks = record q.tasks { pending = [] };
          queued = gone (length q.tasks.pending) i;
        },
        all (length q.tasks.pending) i,
      ))
  where
    gone : (n : ℕ) → n - n ≡ 0
    gone n = omega arith

    all : (n : ℕ) → 0 + n ≡ n
    all n = omega arith
