-- ===== src/Collector/Hops.antt =====
-- The steps that a line takes through the collector, one by one.
use ot_collector.Prelude.{
  sym, Bool-cases, inl, ◌==◌, ℕ, ◌+◌, ◌-◌, ◌/◌, ◌≡◌, ◌≤◌, ◌<◌, refl, ◌∙◌, String, true, false, none,
  some, List, [], ◌∷◌, inr, arith, ℤ, length, ltb, lt→ltb, leb,
}
use ot_collector.Event.{Event}
use ot_collector.Storage
use ot_collector.Config.Store.{Write}
use ot_collector.Config.Forwarding.{ConfigCodec, update_forward_result, record_result}
use ot_collector.Filter.{Decision}
use ot_collector.Forwarder.Queue.{Task, Queue, enqueue, try_send}
use ot_collector.Forwarder.Queue.Process.{
  ForwardResult, Forwarder, response, is_enabled, is_stale, process, send_with_status, after_reply,
}
use ot_collector.Stats.Totals.{Call, stored, decided, dropped, forwarded, call}
use ot_collector.Collector.Stepwise.{IsIngesting, is_forward, ingest_closed}
use ot_collector.Stats.{Stats, add_stored, add_decision, add_dropped, bump_rate, add_forward_result}
use ot_collector.Syslog.Server.{IncomingLog}
use ot_collector.Processor.{Processor, World, ingest, will_forward, handle_forward_result}
use ot_collector.Processor.Ingest.{decision, forwards, forwards_lem}
use ot_collector.Processor.Results.{persist_config-config}
use ot_collector.Processor.Raw.{Inputs, process_raw}
use ot_collector.Api.Server.{Formats, with_sources}
use ot_collector.Collector.{
  Collector, Delivery, takes_line, takes_task, finishes, take_task, finish_task, pick,
  set_processor, happen,
}

-- What ingest leaves alone.
pub record IsUnsent (p later : Processor) : Type 0 where
  pub same_forwarder : later.forwarder ≡ p.forwarder
  pub same_count : later.stats.forwarded_count ≡ p.stats.forwarded_count

count_of_call :
    (c : Call) (s : Stats) → is_forward c ≡ false → (call c s).forwarded_count ≡ s.forwarded_count
unfolding call add_stored add_decision add_dropped add_forward_result bump_rate
count_of_call (stored sec minute e) s _ = elim (Bool-cases (s.rate_second == sec)) [
  | inl e ↦ rw e refl
  | inr e ↦ rw e refl
]
count_of_call (decided decision rule_id sampled) s _ = refl
count_of_call (dropped sec rule_id reason sampled) s _ = elim (Bool-cases (s.rate_second == sec)) [
  | inl e ↦ rw e refl
  | inr e ↦ rw e refl
]
count_of_call (forwarded success when) s h = cc

IsUnsent-IsIngesting : (codec : Storage.Codec) (p : Processor) → IsIngesting codec (IsUnsent p)
IsUnsent-IsIngesting codec p = record {
  decides = λ e q h. record { same_forwarder = h.same_forwarder; same_count = h.same_count };
  appends = λ d evt q h. record { same_forwarder = h.same_forwarder; same_count = h.same_count };
  publishes = λ evt q h. record { same_forwarder = h.same_forwarder; same_count = h.same_count };
  counts = λ c q inner h. record {
    same_forwarder = h.same_forwarder;
    same_count = count_of_call c q.stats inner ∙ h.same_count;
  };
  enqueues = λ t fq q e h. record { same_forwarder = h.same_forwarder; same_count = h.same_count };
}

pub ingest-IsUnsent :
    (f : Formats) (w : World) (e : Event) (path : String) (p : Processor)
    → IsUnsent p (ingest f.storage f.minute_of w e path p)
ingest-IsUnsent f w e path p =
    ingest_closed f (IsUnsent p) (IsUnsent-IsIngesting f.storage p) w e path p
      (record { same_forwarder = refl; same_count = refl })

will_forward_enabled :
    (d : Decision) (p : Processor) → will_forward d p ≡ true → is_enabled p.forwarder ≡ true
unfolding will_forward
will_forward_enabled d p h = ground arith

pub forwards_enabled :
    (w : World) (e : Event) (path : String) (p : Processor)
    → forwards w e path p ≡ true
    → is_enabled p.forwarder ≡ true
forwards_enabled w e path p h =
    will_forward_enabled (decision w e path p) p (sym (forwards_lem w e path p) ∙ h)

-- A result that was accepted.
abbrev success : String → String → ℕ → ℕ → ForwardResult
success id path elapsed status = record {
  event_id = id;
  ingestion_path = path;
  skipped = false;
  skip_reason = "";
  elapsed_ms = elapsed;
  http_status = status;
  err = none;
}

process_accepted :
    (max_age : ℤ) (d : Delivery) (fw : Forwarder) (t : Task) (body : String) (status : ℕ)
    → is_stale max_age d.checked_at t ≡ false
    → is_enabled fw ≡ true
    → d.marshal t.evt ≡ inr body
    → d.post fw.url body ≡ response status
    → 200 ≤ status
    → status < 300
    → process max_age d.checked_at d.before d.after
        (send_with_status d.decimal d.marshal d.post fw)
        t
      ≡ success t.evt.id t.ingestion_path ((d.after - d.before) / 1_000_000) status
unfolding process send_with_status after_reply
process_accepted max_age d fw t body status fresh on encoded replied low high =
    let not_low : ltb status 200 ≡ false = ground arith in
    let not_high : leb 300 status ≡ false = ground arith in
    rw (fresh, on, encoded, replied, not_low, not_high)

-- What a success adds.
pub record IsReported (id : String) (p q : Processor) : Type 0 where
  pub counted : q.stats.forwarded_count ≡ p.stats.forwarded_count + 1
  pub named : q.forwarding.config.last_forwarded_event_id ≡ id
  pub same_queue : q.forward_queue ≡ p.forward_queue

success-IsReported :
    (codec : ConfigCodec) (disk : Write) (at id path : String) (elapsed status : ℕ) (p : Processor)
    → IsReported id p (handle_forward_result codec disk at (success id path elapsed status) p)
unfolding handle_forward_result update_forward_result add_forward_result record_result
success-IsReported codec disk at id path elapsed status p = record {
  counted = refl;
  named = rw persist_config-config refl;
  same_queue = refl;
}

pub enqueue_first :
    (t : Task) (q : Queue)
    → q.tasks.pending ≡ []
    → 0 < q.tasks.capacity
    → (enqueue t q).0.tasks.pending ≡ t ∷ []
unfolding enqueue try_send
enqueue_first t q empty room =
    let free : ltb 0 q.tasks.capacity ≡ true = lt→ltb 0 q.tasks.capacity room in rw (empty, free)

module _ (f : Formats) (c : Collector) where
  pub line_step :
      (w : World) (go : Inputs) (log : IncomingLog) (rest : List IncomingLog)
      → c.incoming.pending ≡ log ∷ rest
      → happen f (takes_line w go) c
        ≡ set_processor
            (record c { incoming = record c.incoming { pending = rest } })
            (process_raw f.storage f.minute_of w
              (with_sources c.api go)
              log.raw
              log.source_ip
              log.transport
              c.api.processor)
  unfolding happen
  line_step w go log rest e = rw (happen, e)

  pub task_step :
      (q : Queue) (t : Task) (rest : List Task)
      → length c.in_flight < c.workers
      → c.api.processor.forward_queue ≡ some q
      → q.tasks.pending ≡ t ∷ rest
      → happen f takes_task c
        ≡ set_processor
            (record c { in_flight = t ∷ c.in_flight })
            (record c.api.processor {
              forward_queue =
                  some
                    (record { tasks = record q.tasks { pending = rest }; queued = q.queued - 1 });
            })
  unfolding happen take_task
  task_step q t rest room there some_wait =
      let free = lt→ltb (length c.in_flight) c.workers room in
      rw (happen, free, there, take_task, some_wait)

  pub done_step :
      (d : Delivery) (t : Task) (busy : List Task) (body : String) (status : ℕ)
      → is_stale c.max_age d.checked_at t ≡ false
      → is_enabled c.api.processor.forwarder ≡ true
      → d.marshal t.evt ≡ inr body
      → d.post c.api.processor.forwarder.url body ≡ response status
      → 200 ≤ status
      → status < 300
      → IsReported t.evt.id c.api.processor
          (happen f (finishes 0 d) (record c { in_flight = t ∷ busy })).api.processor
  unfolding happen finish_task pick
  done_step d t busy body status fresh on encoded replied low high =
      rw
        (process_accepted c.max_age d c.api.processor.forwarder t body status fresh on encoded
          replied low high)
        (success-IsReported f.forwarding d.disk d.ended_at t.evt.id t.ingestion_path
          ((d.after - d.before) / 1_000_000) status c.api.processor)

  pub done_frame :
      (d : Delivery) (t : Task) (busy : List Task)
      → ((happen f (finishes 0 d) (record c { in_flight = t ∷ busy })).in_flight ≡ busy)
        × ((happen f (finishes 0 d) (record c { in_flight = t ∷ busy })).incoming ≡ c.incoming)
  unfolding happen finish_task pick
  done_frame d t busy = (refl, refl)
