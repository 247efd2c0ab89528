-- ===== src/Collector/Sent.antt =====
-- A line on its way from `incoming` to the collector in the DMZ.
use Prim.Native.String
use ot_collector.Prelude.{
  ℕ, ◌+◌, ◌-◌, ◌≡◌, ◌≤◌, ◌<◌, refl, ap, ◌∙◌, String, true, false, some, List, [], ◌∷◌, inr, length,
}
use ot_collector.Event.{Event}
use ot_collector.Forwarder.Queue.{Channel, Task, Queue, enqueue}
use ot_collector.Forwarder.Queue.Process.{response, is_enabled, is_stale}
use ot_collector.Syslog.Server.{IncomingLog}
use ot_collector.Processor.{World}
use ot_collector.Processor.Ingest.{forwards, enriched, send_queue, ingest-Outcome}
use ot_collector.Processor.Raw.{Inputs, event_of_line, process_raw}
use ot_collector.Api.Server.{Formats, with_sources}
use ot_collector.Collector.{
  Collector, Delivery, takes_line, takes_task, finishes, set_processor, run,
}
use ot_collector.Collector.Rest.{waiting}
use ot_collector.Collector.Hops.{
  IsUnsent, ingest-IsUnsent, done_step, done_frame, line_step, task_step, enqueue_first,
  forwards_enabled,
}

-- The event of a line, and the task that it becomes.
abbrev pub line_event : Inputs → IncomingLog → Collector → Event
line_event go log c =
    event_of_line (with_sources c.api go) c.api.processor.zone log.raw log.source_ip

abbrev pub line_path : IncomingLog → String
line_path log = String.◌++◌ "syslog_" log.transport

abbrev pub line_task : World → Inputs → IncomingLog → Collector → Task
line_task w go log c = record {
  evt = enriched w (line_event go log c) (line_path log) c.api.processor;
  ingestion_path = line_path log;
  enqueued_at = w.enqueued_at;
}

process_raw-IsUnsent :
    (f : Formats) (w : World) (go : Inputs) (log : IncomingLog) (c : Collector)
    → IsUnsent c.api.processor (
        process_raw f.storage f.minute_of w
          (with_sources c.api go)
          log.raw
          log.source_ip
          log.transport
          c.api.processor)
unfolding process_raw
process_raw-IsUnsent f w go log c =
    ingest-IsUnsent f w (line_event go log c) (line_path log) c.api.processor

queue_of_line :
    (f : Formats) (w : World) (go : Inputs) (log : IncomingLog) (c : Collector) (q : Queue)
    → c.api.processor.forward_queue ≡ some q
    → forwards w (line_event go log c) (line_path log) c.api.processor ≡ true
    → (process_raw f.storage f.minute_of w
        (with_sources c.api go)
        log.raw
        log.source_ip
        log.transport
        c.api.processor).forward_queue
      ≡ some (enqueue (line_task w go log c) q).0
unfolding process_raw send_queue
queue_of_line f w go log c q there sends =
    (ingest-Outcome f.storage f.minute_of w (line_event go log c) (line_path log)
      c.api.processor).sent
    ∙ rw (sends, there) refl

-- What has become of a line when its event was sent.
pub record IsDelivered (id : String) (rest : List IncomingLog) (c later : Collector) : Type 0 where
  pub counted :
      later.api.processor.stats.forwarded_count ≡ c.api.processor.stats.forwarded_count + 1
  pub named : later.api.processor.forwarding.config.last_forwarded_event_id ≡ id
  pub taken : later.incoming.pending ≡ rest
  pub free : later.in_flight ≡ c.in_flight
  pub none_waits : waiting later.api.processor.forward_queue ≡ 0

-- A line that the rules forward is delivered: if it is the first that waits and the queue is empty
-- with a free worker, and the decision is to forward its event, then, when the line and the task are
-- taken in time and the collector in the DMZ answers the encoded event with a 2xx status, the event
-- is counted as forwarded and named as the last one, and nothing of it is left in the queue.
pub run-IsDelivered :
    (f : Formats) (c : Collector) (w : World) (go : Inputs) (d : Delivery) (log : IncomingLog)
    (rest : List IncomingLog) (q : Queue) (body : String) (status : ℕ)
    → c.incoming.pending ≡ log ∷ rest
    → c.api.processor.forward_queue ≡ some q
    → q.tasks.pending ≡ []
    → 0 < q.tasks.capacity
    → length c.in_flight < c.workers
    → forwards w (line_event go log c) (line_path log) c.api.processor ≡ true
    → is_stale c.max_age d.checked_at (line_task w go log c) ≡ false
    → d.marshal (line_task w go log c).evt ≡ inr body
    → d.post c.api.processor.forwarder.url body ≡ response status
    → 200 ≤ status
    → status < 300
    → IsDelivered
        (line_task w go log c).evt.id
        rest
        c
        (run f (takes_line w go ∷ takes_task ∷ finishes 0 d ∷ []) c)
unfolding run
run-IsDelivered f c w go d log rest q body status first there empty room hired sends fresh encoded
      replied low high =
    let t = line_task w go log c in
    let p = c.api.processor in
    let p' =
      process_raw f.storage f.minute_of w (with_sources c.api go) log.raw log.source_ip
        log.transport p in
    let c' = set_processor (record c { incoming = record c.incoming { pending = rest } }) p' in
    let q' = (enqueue t q).0 in
    let waits = enqueue_first t q empty room in
    let there' = queue_of_line f w go log c q there sends in
    let p'' = record p' {
      forward_queue =
          some (record { tasks = record q'.tasks { pending = [] }; queued = q'.queued - 1 });
    } in
    let unsent = process_raw-IsUnsent f w go log c in
    let same = unsent.same_forwarder in
    let on : is_enabled p'.forwarder ≡ true =
      rw same (forwards_enabled w (line_event go log c) (line_path log) p sends) in
    let report =
      done_step f (set_processor c' p'') d t c.in_flight body status fresh on encoded
        (rw same replied) low high in
    rw (line_step f c w go log rest first, task_step f c' q' t [] hired there' waits)
      (record {
        counted = report.counted ∙ ap (λ n. n + 1) unsent.same_count;
        named = report.named;
        taken =
            ap (λ (ch : Channel IncomingLog). ch.pending)
              (done_frame f (set_processor c' p'') d t c.in_flight).1;
        free = (done_frame f (set_processor c' p'') d t c.in_flight).0;
        none_waits = ap waiting report.same_queue;
      })
