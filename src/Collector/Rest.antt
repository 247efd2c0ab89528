-- ===== src/Collector/Rest.antt =====
-- What the collector does by itself, when nothing comes from outside: it ends.
use ot_collector.Prelude.{
  ℕ, zero, suc, ◌+◌, ◌*◌, ◌≡◌, ◌≤◌, ◌<◌, refl, ap, ◌⊎◌, Bool, true, false, Option, none, some, List,
  [], ◌∷◌, if◌then◌else◌, Option-cases, List-cases, inl, inr, length, lt→ltb, length-append, arith,
}
use ot_collector.Config.Env.{Config}
use ot_collector.Event.{Event}
use ot_collector.Forwarder.Queue.{Task, Queue, try_send, enqueue}
use ot_collector.Storage
use ot_collector.Forwarder.Queue.Process.{ForwardResult}
use ot_collector.Syslog.Server.{IncomingLog}
use ot_collector.Processor.{Processor, World, ingest, handle_forward_result}
use ot_collector.Processor.Ingest.{send_queue, forwards, ingest-Outcome}
use ot_collector.Processor.Raw.{Inputs, process_raw}
use ot_collector.Api.Server.{Formats}
use ot_collector.Collector.{
  Collector, Happening, Delivery, takes_line, takes_task, finishes, take_task, finish_task, pick,
  happen, run, Disks, start,
}
use ot_collector.Collector.Always.{length-pick, staff_of, run-IsStaffed, run-IsSound}

-- How many tasks wait.
abbrev pub waiting : Option Queue → ℕ
waiting fq = elim fq [ none ↦ 0 | some q ↦ length q.tasks.pending ]

-- What is left to do: a line is a line to take, perhaps a task to take, and a send to finish.
abbrev pub work : Collector → ℕ
work c =
    3 * length c.incoming.pending + 2 * waiting c.api.processor.forward_queue + length c.in_flight

length-enqueue :
    (t : Task) (q : Queue) → length (enqueue t q).0.tasks.pending ≤ length q.tasks.pending + 1
unfolding enqueue try_send
length-enqueue t q = ground (arith, length-append q.tasks.pending (t ∷ []))

waiting-send_queue :
    (b : Bool) (t : Task) (fq : Option Queue)
    → waiting (if◌then◌else◌ {A = Option Queue} b (send_queue t fq) fq) ≤ waiting fq + 1
unfolding send_queue
waiting-send_queue false t fq = omega arith
waiting-send_queue true t none = omega arith
waiting-send_queue true t (some q) = length-enqueue t q

waiting-ingest :
    (codec : Storage.Codec) (minute_of : _) (w : World) (e : Event) (path : _) (p : Processor)
    → waiting (ingest codec minute_of w e path p).forward_queue ≤ waiting p.forward_queue + 1
waiting-ingest codec minute_of w e path p =
    rw (ingest-Outcome codec minute_of w e path p).sent
      (waiting-send_queue (forwards w e path p) _ p.forward_queue)

-- A step of the goroutine of main or of a worker that has something to do.
pub data IsReady : Happening → Collector → Type 0 where
  line :
      (w : World) (go : Inputs) {c : Collector} (log : IncomingLog) (rest : List IncomingLog)
      → c.incoming.pending ≡ log ∷ rest
      → IsReady (takes_line w go) c
  task :
      {c : Collector} (q : Queue) (t : Task) (rest : List Task)
      → length c.in_flight < c.workers
      → c.api.processor.forward_queue ≡ some q
      → q.tasks.pending ≡ t ∷ rest
      → IsReady takes_task c
  done : (n : ℕ) (d : Delivery) {c : Collector} → n < length c.in_flight → IsReady (finishes n d) c

-- Such steps one after another.
pub data IsBusy (f : Formats) : Collector → List Happening → Type 0 where
  rests : {c : Collector} → IsBusy f c []
  works :
      {c : Collector} (x : Happening) (xs : List Happening)
      → IsReady x c
      → IsBusy f (happen f x c) xs
      → IsBusy f c (x ∷ xs)

pick_within :
    (n : ℕ) (ts : List Task)
    → n < length ts
    → (t : Task) × (rest : List Task) × (pick n ts ≡ some (t, rest))
unfolding pick
pick_within n [] h = absurd (omega arith)
pick_within zero (t ∷ ts) h = (t, ts, refl)
pick_within (suc n) (t ∷ ts) h =
    let (u, rest, e) = pick_within n ts (omega arith) in (u, t ∷ rest, rw e)

pub handled_queue :
    (codec : _) (disk : _) (at : _) (r : ForwardResult) (p : Processor)
    → (handle_forward_result codec disk at r p).forward_queue ≡ p.forward_queue
unfolding handle_forward_result
handled_queue codec disk at r p = ground arith

module _ (f : Formats) where
  line_less :
      (w : World) (go : Inputs) (c : Collector) (log : IncomingLog) (rest : List IncomingLog)
      → c.incoming.pending ≡ log ∷ rest
      → work (happen f (takes_line w go) c) < work c
  unfolding happen process_raw
  line_less w go c log rest e =
      rw (happen, e)
        (omega (
          arith,
          ap (λ (l : List IncomingLog). length l) e,
          waiting-ingest f.storage f.minute_of w _ _ c.api.processor,
        ))

  task_less :
      (c : Collector) (q : Queue) (t : Task) (rest : List Task)
      → length c.in_flight < c.workers
      → c.api.processor.forward_queue ≡ some q
      → q.tasks.pending ≡ t ∷ rest
      → work (happen f takes_task c) < work c
  unfolding happen take_task
  task_less c q t rest room there some_wait =
      let free = lt→ltb (length c.in_flight) c.workers room in
      let before = ap waiting there in
      rw (happen, free, there, take_task, some_wait)
        (omega (arith, before, ap (λ (l : List Task). length l) some_wait))

  done_less :
      (n : ℕ) (d : Delivery) (c : Collector)
      → n < length c.in_flight
      → work (happen f (finishes n d) c) < work c
  unfolding happen finish_task
  done_less n d c h =
      let (t, rest, e) = pick_within n c.in_flight h in
      rw (happen, e)
        (omega (
          arith,
          length-pick n c.in_flight t rest e,
          ap waiting (handled_queue f.forwarding d.disk d.ended_at _ c.api.processor),
        ))

  ready_less : (x : Happening) (c : Collector) → IsReady x c → work (happen f x c) < work c
  ready_less _ c (line w go log rest e) = line_less w go c log rest e
  ready_less _ c (task q t rest room there some_wait) = task_less c q t rest room there some_wait
  ready_less _ c (done n d h) = done_less n d c h

  busy_bounded :
      (xs : List Happening) (c : Collector) → IsBusy f c xs → length xs + work (run f xs c) ≤ work c
  unfolding run
  busy_bounded [] c rests = omega arith
  busy_bounded (x ∷ xs) c (works _ _ r b) =
      omega (arith, ready_less x c r, busy_bounded xs (happen f x c) b)

-- Nothing is left to do, or there is a step that does some of it.
abbrev pub GoesOn : Collector → Type 0
GoesOn c = (work c ≡ 0) ⊎ ((x : Happening) × IsReady x c)

module _ (w : World) (go : Inputs) (d : Delivery) (c : Collector) (hired : 0 < c.workers) where
  queue-GoesOn : length c.incoming.pending ≡ 0 → length c.in_flight ≡ 0 → GoesOn c
  queue-GoesOn no_lines no_sends = elim (Option-cases c.api.processor.forward_queue) [
    | inl e ↦ inl (omega (arith, ap waiting e))
    | inr (q, e) ↦ elim (List-cases q.tasks.pending) [
      | inl empty ↦ inl (omega (arith, ap waiting e, ap (λ (l : List Task). length l) empty))
      | inr (t, rest, there) ↦ inr (takes_task, task q t rest (omega arith) e there)
    ]
  ]

  any-GoesOn : GoesOn c
  any-GoesOn = elim (List-cases c.incoming.pending) [
    | inr (log, rest, e) ↦ inr (takes_line w go, line w go log rest e)
    | inl no_lines ↦ elim (List-cases c.in_flight) [
      | inr (t, rest, e) ↦
          inr (finishes 0 d, done 0 d (omega (arith, ap (λ (l : List Task). length l) e)))
      | inl no_sends ↦
          queue-GoesOn (ap (λ (l : List IncomingLog). length l) no_lines)
            (ap (λ (l : List Task). length l) no_sends)
    ]
  ]

some_workers : (n : ℕ) → 0 < staff_of n
some_workers n = ground arith

-- From any state that a started collector has come to, when nothing more comes from outside, it ends:
-- the steps that the goroutine of main and the workers still take, each with something to do, are at
-- most 3 for each line that waited, 2 for each task that waited and 1 for each in flight, in whatever
-- order they are taken; and as long as some of this is left, there is a step to take.
pub busy_ends :
    (f : Formats) (cfg : Config) (disks : Disks) (c : Collector) (before after : List Happening)
    (w : World) (go : Inputs) (d : Delivery)
    → start f disks cfg ≡ some c
    → IsBusy f (run f before c) after
    → (length after ≤ work (run f before c)) × GoesOn (run f after (run f before c))
busy_ends f cfg disks c before after w go d e busy =
    let staffed = (run-IsSound f cfg disks c e before).1 in
    let later = run-IsStaffed f (staff_of cfg.forward_workers) after (run f before c) staffed in
    (
      omega (arith, busy_bounded f after (run f before c) busy),
      any-GoesOn w go d (run f after (run f before c))
          (omega (arith, later.fixed, some_workers cfg.forward_workers)),
    )
