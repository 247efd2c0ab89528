-- ===== src/Collector/Always.antt =====
-- The collector in every state of every run, from the start of main.
use ot_collector.Prelude.{
  if◌then◌else◌, ◌==◌, ℤ, String, ℕ, zero, suc, ◌+◌, ◌≡◌, ◌≤◌, ◌<◌, refl, sym, ap, Option, none,
  some, List, [], ◌∷◌, Bool-cases, Option-cases, inl, inr, All, List-cases, length, ltb, ltb→lt,
  length-append, arith, pos,
}
use mathlib.Core.Option.{some-injective}
use ot_collector.Config.Env.{Config}
use ot_collector.Config.Store.{Store, Error}
use ot_collector.Config.Rules.{RuleConfig}
use ot_collector.Config.Sources.{SourceConfig}
use ot_collector.Config.Forwarding.{ForwardingStore}
use ot_collector.Forwarder.Queue.{Task, Queue, try_send, new_queue, buffer_size, worker_count}
use ot_collector.Stats.{new_stats}
use ot_collector.Stream.Delivery.{new_hub-IsValid}
use ot_collector.Syslog.Server.{IncomingLog}
use ot_collector.Processor.Settings.{extract_port}
use ot_collector.Processor.{Processor, set_rules_of}
use ot_collector.Api.Server.{Formats}
use ot_collector.Collector.{
  Collector, Happening, Disks, arrives, takes_line, requested, streams, leaves, takes_task,
  finishes, take_task, finish_task, pick, happen, run, start, assemble, new_source_store,
  new_rule_store, new_forwarding_store,
}
use ot_collector.Collector.Runs.{Repaired, MayRepair, run_closed}
use ot_collector.Collector.Stepwise.{stepwise-IsClosed}
use ot_collector.Collector.Sound.{IsSound, only, IsSound-IsStepwise}

-- What holds of the goroutines beside the processor: `incoming` is within its 2048 places, and no
-- more tasks are in flight than there are workers.
pub record IsStaffed (workers : ℕ) (c : Collector) : Type 0 where
  pub sized : c.incoming.capacity ≡ 2048
  pub bounded : length c.incoming.pending ≤ 2048
  pub fixed : c.workers ≡ workers
  pub busy : length c.in_flight ≤ workers

later_length :
    (o : Option (Task × List Task)) (u t : Task) (rest : List Task) (k : ℕ)
    → (elim o as (λ _. Option (Task × List Task)) [
      | none ↦ none
      | some (v, others) ↦ some (v, u ∷ others)
    ])
      ≡ some (t, rest)
    → ((v : Task) (others : List Task) → o ≡ some (v, others) → k ≡ length others + 1)
    → suc k ≡ length rest + 1
later_length none u t rest k e h = cc
later_length (some (v, others)) u t rest k e h =
    let same : u ∷ others ≡ rest =
      ap (λ (x : Task × List Task). x.1) (some-injective (v, u ∷ others) (t, rest) e) in
    rw (sym same) (omega (arith, h v others refl))

pub length-pick :
    (n : ℕ) (ts : List Task) (t : Task) (rest : List Task)
    → pick n ts ≡ some (t, rest)
    → length ts ≡ length rest + 1
unfolding pick
length-pick n [] t rest e = cc
length-pick zero (u ∷ ts) t rest e = let same : ts ≡ rest = cc in rw same (omega arith)
length-pick (suc n) (u ∷ ts) t rest e =
    later_length (pick n ts) u t rest (length ts) e
      (λ v others there. length-pick n ts v others there)

taken_within :
    (busy : List Task) (q : Queue) (n : ℕ) → length busy < n → length (take_task busy q).1 ≤ n
unfolding take_task
taken_within busy q n h = elim (List-cases q.tasks.pending) [
  | inl e ↦ rw (take_task, e) (omega arith)
  | inr (t, rest, e) ↦ rw (take_task, e) (omega arith)
]

module _ (f : Formats) (workers : ℕ) where
  happen-IsStaffed :
      (x : Happening) (c : Collector) → IsStaffed workers c → IsStaffed workers (happen f x c)
  unfolding happen try_send finish_task
  happen-IsStaffed (arrives log) c h = record {
    sized = ground (arith, h.sized);
    bounded = ground (arith, h.sized, h.bounded, length-append c.incoming.pending (log ∷ []));
    fixed = h.fixed;
    busy = h.busy;
  }
  happen-IsStaffed (takes_line w go) c h = elim (List-cases c.incoming.pending) [
    | inl e ↦ rw (happen, e) h
    | inr (log, rest, e) ↦
        rw (happen, e)
          (record {
            sized = h.sized;
            bounded = omega (arith, h.bounded, ap (λ (l : List IncomingLog). length l) e);
            fixed = h.fixed;
            busy = h.busy;
          })
  ]
  happen-IsStaffed (requested t r) c h = record {
    sized = h.sized;
    bounded = h.bounded;
    fixed = h.fixed;
    busy = h.busy;
  }
  happen-IsStaffed (streams id) c h = record {
    sized = h.sized;
    bounded = h.bounded;
    fixed = h.fixed;
    busy = h.busy;
  }
  happen-IsStaffed (leaves id) c h = record {
    sized = h.sized;
    bounded = h.bounded;
    fixed = h.fixed;
    busy = h.busy;
  }
  happen-IsStaffed takes_task c h = elim (Bool-cases (ltb (length c.in_flight) c.workers)) [
    | inr full ↦ rw (happen, full) h
    | inl room ↦ elim (Option-cases c.api.processor.forward_queue) [
      | inl e ↦ rw (happen, room, e) h
      | inr (q, e) ↦
          rw (happen, room, e)
            (record {
              sized = h.sized;
              bounded = h.bounded;
              fixed = h.fixed;
              busy =
                  taken_within c.in_flight q workers
                    (omega (arith, h.fixed, ltb→lt (length c.in_flight) c.workers room));
            })
    ]
  ]
  happen-IsStaffed (finishes n d) c h = elim (Option-cases (pick n c.in_flight)) [
    | inl e ↦ rw (happen, e) h
    | inr ((t, rest), e) ↦
        rw (happen, e)
          (record {
            sized = h.sized;
            bounded = h.bounded;
            fixed = h.fixed;
            busy = omega (arith, h.busy, length-pick n c.in_flight t rest e);
          })
  ]

  pub run-IsStaffed :
      (xs : List Happening) (c : Collector) → IsStaffed workers c → IsStaffed workers (run f xs c)
  unfolding run
  run-IsStaffed [] c h = h
  run-IsStaffed (x ∷ xs) c h = run-IsStaffed xs (happen f x c) (happen-IsStaffed x c h)

-- A start that comes to its servers has loaded all stores.
first_loaded :
    (x y z : Option Error) (a c : Collector)
    → (elim x as (λ _. Option Collector) [
      | some e ↦ none
      | none ↦ elim y as (λ _. Option Collector) [
        | some e ↦ none
        | none ↦ elim z as (λ _. Option Collector) [ some e ↦ none | none ↦ some a ]
      ]
    ])
      ≡ some c
    → c ≡ a
first_loaded none none none a c e = sym (some-injective a c e)
first_loaded (some x) y z a c e = cc
first_loaded none (some y) z a c e = cc
first_loaded none none (some z) a c e = cc

pub start-assemble :
    (f : Formats) (cfg : Config) (d : Disks) (c : Collector)
    → start f d cfg ≡ some c
    → c
      ≡ assemble
          (extract_port f.split_host_port f.atoi)
          cfg
          d.events
          (new_source_store f d).0
          (new_rule_store f d).0
          (new_forwarding_store f d).0
unfolding start
start-assemble f cfg d c e =
    first_loaded (new_source_store f d).1 (new_rule_store f d).1 (new_forwarding_store f d).1 _ c e

-- The sizes of the channel of the queue and of its staff, from the settings.
abbrev places_of : ℕ → ℕ
places_of n = if n == 0 then 2048 else n

abbrev pub staff_of : ℕ → ℕ
staff_of n = if n == 0 then 4 else n

buffer_size-pos : (n : ℕ) → buffer_size (pos n) ≡ places_of n
unfolding buffer_size
buffer_size-pos n = ground arith

worker_count-pos : (n : ℕ) → worker_count (pos n) ≡ staff_of n
unfolding worker_count
worker_count-pos n = ground arith

module _ (port_of : String → ℤ) (cfg : Config) (events : List ℕ) (s : Store SourceConfig)
    (r : Store RuleConfig) (fw : ForwardingStore) where
  assemble-IsSound :
      IsSound (places_of cfg.forward_queue_size) (assemble port_of cfg events s r fw).api.processor
  unfolding assemble set_rules_of new_queue new_stats
  assemble-IsSound = record {
    split = refl;
    valid = new_hub-IsValid;
    queues =
        only (places_of cfg.forward_queue_size) (new_queue (pos cfg.forward_queue_size))
          (record { sized = buffer_size-pos cfg.forward_queue_size; bounded = omega arith });
  }

  assemble-IsStaffed : IsStaffed (staff_of cfg.forward_workers) (assemble port_of cfg events s r fw)
  unfolding assemble
  assemble-IsStaffed = record {
    sized = refl;
    bounded = omega arith;
    fixed = worker_count-pos cfg.forward_workers;
    busy = omega arith;
  }

file_IsSound : (places : ℕ) → Repaired (IsSound places)
file_IsSound places file p h = record { split = h.split; valid = h.valid; queues = h.queues }

unhindered : (P : Processor → Type 0) → Repaired P → (xs : List Happening) → All (MayRepair P) xs
unhindered P kept [] = tt
unhindered P kept (requested t r ∷ xs) = (λ e. kept, unhindered P kept xs)
unhindered P kept (arrives log ∷ xs) = (tt, unhindered P kept xs)
unhindered P kept (takes_line w go ∷ xs) = (tt, unhindered P kept xs)
unhindered P kept (streams id ∷ xs) = (tt, unhindered P kept xs)
unhindered P kept (leaves id ∷ xs) = (tt, unhindered P kept xs)
unhindered P kept (takes_task ∷ xs) = (tt, unhindered P kept xs)
unhindered P kept (finishes n d ∷ xs) = (tt, unhindered P kept xs)

-- Whatever the settings, once main has loaded its stores, and whatever happens then: at every moment
-- the total of events that Stats shows is that of the stored and the dropped ones; no two clients of
-- the stream share an id and none has more than 256 events waiting; no more tasks wait in the queue
-- than the setting of its size, or 2048 if that is 0; `incoming` holds at most 2048 lines; and no
-- more tasks are in flight than the setting of the workers, or 4 if that is 0.
pub run-IsSound :
    (f : Formats) (cfg : Config) (d : Disks) (c : Collector)
    → start f d cfg ≡ some c
    → (xs : List Happening)
    → IsSound
        (if cfg.forward_queue_size == 0 then 2048 else cfg.forward_queue_size)
        (run f xs c).api.processor
      × IsStaffed (if cfg.forward_workers == 0 then 4 else cfg.forward_workers) (run f xs c)
run-IsSound f cfg d c e xs =
    let same = start-assemble f cfg d c e in
    let places = places_of cfg.forward_queue_size in
    (
      run_closed f (IsSound places)
          (stepwise-IsClosed f (IsSound places) (IsSound-IsStepwise places f.storage)) xs c
          (unhindered (IsSound places) (file_IsSound places) xs)
          (rw same (assemble-IsSound (extract_port f.split_host_port f.atoi) cfg d.events _ _ _)),
      run-IsStaffed f (staff_of cfg.forward_workers) xs c
          (rw same (assemble-IsStaffed (extract_port f.split_host_port f.atoi) cfg d.events _ _ _)),
    )
