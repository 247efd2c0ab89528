-- ===== src/Forwarder/Queue/Quiet.antt =====
-- That the queue comes to rest: from any state some steps of its goroutines lead to one in which
-- nothing waits and nothing is under way. A task is received only when the one before it is done, so
-- that one worker is enough for these steps.
use ot_collector.Prelude.{ℕ, zero, suc, ◌+◌, ◌≤◌, ◌≡◌, refl, List, [], ◌∷◌, length, arith}
use ot_collector.Forwarder.Queue.{Task}
use ot_collector.Forwarder.Queue.Steps.{
  Shared, add_queued, receive, take, start, finish, subtract, Reach, here, next, start_of, Accounts,
  Reach-Accounts,
}

-- Steps one after the other.
Reach-trans : {s t u : Shared} → Reach s t → Reach t u → Reach s u
Reach-trans r here = r
Reach-trans r (next q step) = next (Reach-trans r q) step

-- No goroutine is between a channel operation and its counter, and no task is processed.
pub record IsIdle (s : Shared) : Type 0 where
  pub no_enqueuing : s.enqueuing ≡ 0
  pub no_dequeuing : s.dequeuing ≡ 0
  pub no_draining : s.draining ≡ 0
  pub no_processing : s.processing ≡ 0
  pub no_in_flight : s.in_flight ≡ 0

-- The channel is empty besides, and the counter is 0.
pub record IsQuiet (s : Shared) : Type 0 where
  pub idle : IsIdle s
  pub empty : s.pending ≡ []
  pub balanced : s.added_up ≡ s.taken_off

end_enqueues : (n : ℕ) (s : Shared) → s.enqueuing ≡ n → (t : Shared) × Reach s t × (t.enqueuing ≡ 0)
end_enqueues zero s e = (s, here, e)
end_enqueues (suc n) s e =
    let (t, r, z) = end_enqueues n (record s { added_up = s.added_up + 1; enqueuing = n }) refl in
    (t, Reach-trans (next here (add_queued s e)) r, z)

end_drains :
    (n : ℕ) (s : Shared)
    → s.draining ≡ n
    → (t : Shared) × Reach s t × (t.draining ≡ 0) × (t.enqueuing ≡ s.enqueuing)
end_drains zero s e = (s, here, e, refl)
end_drains (suc n) s e =
    let (t, r, z, q) = end_drains n (record s { taken_off = s.taken_off + 1; draining = n }) refl in
    (t, Reach-trans (next here (subtract s e)) r, z, q)

end_takes :
    (n : ℕ) (s : Shared)
    → s.dequeuing ≡ n
    → (t : Shared) × Reach s t
      × (t.dequeuing ≡ 0)
      × (t.enqueuing ≡ s.enqueuing)
      × (t.draining ≡ s.draining)
end_takes zero s e = (s, here, e, refl, refl)
end_takes (suc n) s e =
    let s' = record s {
      taken_off = s.taken_off + 1;
      dequeuing = n;
      processing = s.processing + 1;
    } in
    let (t, r, z, q, d) = end_takes n s' refl in (t, Reach-trans (next here (take s e)) r, z, q, d)

-- A worker that has not yet added to inFlight adds to it, and is done.
end_processing :
    (m n : ℕ) (s : Shared)
    → s.processing ≡ m
    → s.in_flight ≡ n
    → n ≤ m
    → (t : Shared) × Reach s t
      × (t.processing ≡ 0)
      × (t.in_flight ≡ 0)
      × (t.enqueuing ≡ s.enqueuing)
      × (t.draining ≡ s.draining)
      × (t.dequeuing ≡ s.dequeuing)
      × (t.pending ≡ s.pending)
end_processing zero n s p f h = (s, here, p, omega arith, refl, refl, refl, refl)
end_processing (suc m) (suc n) s p f h =
    let (t, r, p0, f0, q, d, g, l) =
      end_processing m n (record s { in_flight = n; processing = m }) refl refl (omega arith) in
    (t, Reach-trans (next here (finish s f p)) r, p0, f0, q, d, g, l)
end_processing (suc m) zero s p f h =
    let s' = record s { in_flight = s.in_flight + 1 } in
    let one : s'.in_flight ≡ suc zero = omega arith in
    let (t, r, p0, f0, q, d, g, l) =
      end_processing m zero (record s { in_flight = zero; processing = m }) refl refl
        (omega arith) in
    (
      t,
      Reach-trans (next (next here (start s (omega arith))) (finish s' one p)) r,
      p0,
      f0,
      q,
      d,
      g,
      l,
    )

-- Task by task, a worker receives, processes and is done.
end_pending :
    (ts : List Task) (s : Shared)
    → s.pending ≡ ts
    → IsIdle s
    → (t : Shared) × Reach s t × IsIdle t × (t.pending ≡ [])
end_pending [] s e idle = (s, here, idle, e)
end_pending (x ∷ ts) s e idle =
    let s1 = record s { pending = ts; dequeuing = s.dequeuing + 1 } in
    let one : s1.dequeuing ≡ suc zero = omega arith in
    let s2 = record s1 {
      taken_off = s1.taken_off + 1;
      dequeuing = zero;
      processing = s1.processing + 1;
    } in
    let (t, r, p, f, q, d, g, same) =
      end_processing 1 0 s2 (omega arith) (omega arith) (omega arith) in
    let rest : IsIdle t = record {
      no_enqueuing = omega arith;
      no_dequeuing = omega arith;
      no_draining = omega arith;
      no_processing = p;
      no_in_flight = f;
    } in
    let (u, r', idle', empty) = end_pending ts t same rest in
    (
      u,
      Reach-trans (next (next here (receive s x ts e)) (take s1 one)) (Reach-trans r r'),
      idle',
      empty,
    )

settled :
    {capacity : ℕ} {t : Shared}
    → Accounts capacity t
    → IsIdle t
    → length t.pending ≡ 0
    → t.added_up ≡ t.taken_off
settled a i none_waits = omega arith

-- Whatever interleaving of Enqueue, Drain and the workers has led to a state of a new queue: some
-- further steps lead from it to one in which the channel is empty, no call and no worker is under
-- way, and as much has been taken off QueuedCount as has been added to it.
pub Reach-IsQuiet :
    (capacity : ℕ) (s : Shared) → Reach (start_of capacity) s → (t : Shared) × Reach s t × IsQuiet t
Reach-IsQuiet capacity s reached =
    let (t1, r1, e1) = end_enqueues s.enqueuing s refl in
    let (t2, r2, d2, e2) = end_drains t1.draining t1 refl in
    let (t3, r3, q3, e3, d3) = end_takes t2.dequeuing t2 refl in
    let r = Reach-trans r1 (Reach-trans r2 r3) in
    let flying = (Reach-Accounts capacity t3 (Reach-trans reached r)).flying in
    let (t4, r4, p4, f4, e4, d4, q4, _) =
      end_processing t3.processing t3.in_flight t3 refl refl flying in
    let idle4 : IsIdle t4 = record {
      no_enqueuing = omega arith;
      no_dequeuing = omega arith;
      no_draining = omega arith;
      no_processing = p4;
      no_in_flight = f4;
    } in
    let (t, r5, idle, empty) = end_pending t4.pending t4 refl idle4 in
    let all = Reach-trans r (Reach-trans r4 r5) in
    let a = Reach-Accounts capacity t (Reach-trans reached all) in
    let none_waits : length t.pending ≡ 0 = rw empty refl in
    (t, all, record { idle = idle; empty = empty; balanced = settled a idle none_waits })
