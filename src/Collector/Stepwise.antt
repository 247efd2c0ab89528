-- ===== src/Collector/Stepwise.antt =====
-- The methods of the processor, taken apart into single changes of its fields: a property that each
-- change keeps is closed.
use ot_collector.Prelude.{
  ℕ, ◌≡◌, refl, if◌then◌else◌, String, Bool, true, false, some, List, Bool-cases, Option-cases, inl,
  inr,
}
use ot_collector.Event.{Event}
use ot_collector.Config.Store.{Write}
use ot_collector.Config.Forwarding.{ForwardingConfig, ForwardingStore, replace_config}
use ot_collector.Filter
use ot_collector.Filter.{Engine, Decision, unix}
use ot_collector.Forwarder.Queue.{Task, Queue, enqueue, drain}
use ot_collector.Forwarder.Queue.Process.{Forwarder, ForwardResult}
use ot_collector.Storage
use ot_collector.Storage.{Disk, append}
use ot_collector.Stats.Totals.{Call, stored, decided, dropped, forwarded, call}
use ot_collector.Stream.{publish, subscribe, unsubscribe}
use ot_collector.Processor.{
  Processor, World, decide_event, drop_event, store_event, enqueue_event, keep_event, ingest,
  handle_forward_result, set_rules_of, rule_test, update_forwarding_config, reset_forward_queue,
}
use ot_collector.Processor.Labels.{decision_label}
use ot_collector.Api.Server.{Formats, receive_first}
use ot_collector.Collector.{take_task}
use ot_collector.Collector.Closed.{IsClosed}

pub record IsStepwise (codec : Storage.Codec) (P : Processor → Type 0) : Type 0 where
  pub decides : (e : Engine) (p : Processor) → P p → P (record p { filter_engine = e })
  pub appends :
      (d : Disk) (evt : Event) (p : Processor)
      → P p
      → P (record p { file = (append codec d evt p.file).0 })
  pub publishes :
      (evt : Event) (p : Processor) → P p → P (record p { stream_hub = publish evt p.stream_hub })
  pub counts : (c : Call) (p : Processor) → P p → P (record p { stats = call c p.stats })
  pub enqueues :
      (t : Task) (q : Queue) (p : Processor)
      → p.forward_queue ≡ some q
      → P p
      → P (record p { forward_queue = some (enqueue t q).0 })
  pub drains :
      (q : Queue) (p : Processor)
      → p.forward_queue ≡ some q
      → P p
      → P (record p { forward_queue = some (drain q).0 })
  pub takes :
      (busy : List Task) (q : Queue) (p : Processor)
      → p.forward_queue ≡ some q
      → P p
      → P (record p { forward_queue = some (take_task busy q).0 })
  pub sets :
      (s : ForwardingStore) (fw : Forwarder) (p : Processor)
      → P p
      → P (record p { forwarding = s; forwarder = fw })
  pub joins : (p : Processor) → P p → P (record p { stream_hub = (subscribe p.stream_hub).0 })
  pub leaves :
      (id : ℕ) (p : Processor) → P p → P (record p { stream_hub = unsubscribe id p.stream_hub })
  pub receives :
      (id : ℕ) (p : Processor)
      → P p
      → P (record p {
        stream_hub = record p.stream_hub { clients = receive_first id p.stream_hub.clients };
      })

-- The changes that ingest makes; it does not count a forward.
abbrev pub is_forward : Call → Bool
is_forward (forwarded success when) = true
is_forward _ = false

pub record IsIngesting (codec : Storage.Codec) (P : Processor → Type 0) : Type 0 where
  pub decides : (e : Engine) (p : Processor) → P p → P (record p { filter_engine = e })
  pub appends :
      (d : Disk) (evt : Event) (p : Processor)
      → P p
      → P (record p { file = (append codec d evt p.file).0 })
  pub publishes :
      (evt : Event) (p : Processor) → P p → P (record p { stream_hub = publish evt p.stream_hub })
  pub counts :
      (c : Call) (p : Processor)
      → is_forward c ≡ false
      → P p
      → P (record p { stats = call c p.stats })
  pub enqueues :
      (t : Task) (q : Queue) (p : Processor)
      → p.forward_queue ≡ some q
      → P p
      → P (record p { forward_queue = some (enqueue t q).0 })

module _ (f : Formats) (P : Processor → Type 0) (step : IsIngesting f.storage P) where
  shown :
      (b : Bool) (evt : Event) (p : Processor)
      → P p
      → P (if◌then◌else◌ {A = Processor} b (record p { stream_hub = publish evt p.stream_hub }) p)
  shown true evt p h = step.publishes evt p h
  shown false evt p h = h

  drop_closed :
      (w : World) (e : Event) (d : Decision) (p : Processor)
      → P p
      → P (drop_event f.storage f.minute_of w e d p)
  unfolding drop_event call
  drop_closed w e d p h =
      let count = dropped (unix w.counted_at) d.matched_rule_id d.reason d.sampled in
      let added = step.appends w.disk e p h in
      elim (Bool-cases d.store) [
        | inr off ↦ rw (drop_event, off) (step.counts count p refl h)
        | inl on ↦ elim (Option-cases (append f.storage w.disk e p.file).1) [
          | inr (x, bad) ↦ rw (drop_event, on, bad) (step.counts count _ refl added)
          | inl ok ↦ rw (drop_event, on, ok) (step.counts count _ refl (shown d.show e _ added))
        ]
      ]

  store_closed :
      (w : World) (e : Event) (d : Decision) (p : Processor)
      → P p
      → P (store_event f.storage f.minute_of w e d p)
  unfolding store_event call
  store_closed w e d p h = elim (Bool-cases d.store) [
    | inr off ↦ rw (store_event, off) h
    | inl on ↦ elim (Option-cases (append f.storage w.disk e p.file).1) [
      | inr (x, bad) ↦ rw (store_event, on, bad) (step.appends w.disk e p h)
      | inl ok ↦
          rw (store_event, on, ok)
            (shown d.show e _ (
              step.counts (stored (unix w.counted_at) (f.minute_of e.received_at) e) _ refl
                (step.appends w.disk e p h)))
    ]
  ]

  enqueue_closed :
      (w : World) (e : Event) (path : String) (b : Bool) (p : Processor)
      → P p
      → P (enqueue_event f.storage f.minute_of w e path b p)
  unfolding enqueue_event
  enqueue_closed w e path false p h = h
  enqueue_closed w e path true p h = elim (Option-cases p.forward_queue) [
    | inl none_there ↦ rw (enqueue_event, none_there) h
    | inr (q, there) ↦ rw (enqueue_event, there) (step.enqueues _ q p there h)
  ]

  keep_closed :
      (w : World) (e : Event) (path : String) (d : Decision) (b : Bool) (p : Processor)
      → P p
      → P (keep_event f.storage f.minute_of w e path d b p)
  unfolding keep_event call
  keep_closed w e path d b p h = enqueue_closed w e path b _ (
      store_closed w e d _
        (step.counts (decided (decision_label d b) d.matched_rule_id d.sampled) p refl h))

  pub ingest_closed :
      (w : World) (e : Event) (path : String) (p : Processor)
      → P p
      → P (ingest f.storage f.minute_of w e path p)
  unfolding ingest
  ingest_closed w e path p h =
      let q = step.decides (decide_event w e p).0 p h in
      elim (Bool-cases (decide_event w e p).1.drop) [
        | inl gone ↦ rw (ingest, gone) (drop_closed w _ _ _ q)
        | inr kept ↦ rw (ingest, kept) (keep_closed w _ path _ _ _ q)
      ]

module _ (f : Formats) (P : Processor → Type 0) (step : IsStepwise f.storage P) where
  stepwise-IsIngesting : IsIngesting f.storage P
  stepwise-IsIngesting = record {
    decides = step.decides;
    appends = step.appends;
    publishes = step.publishes;
    counts = λ c p _ h. step.counts c p h;
    enqueues = step.enqueues;
  }

  handle_closed :
      (disk : Write) (at : String) (r : ForwardResult) (p : Processor)
      → P p
      → P (handle_forward_result f.forwarding disk at r p)
  unfolding handle_forward_result call
  handle_closed disk at r p h = elim (Bool-cases r.skipped) [
    | inl skipped ↦ rw (handle_forward_result, skipped) h
    | inr tried ↦ elim (Option-cases r.err) [
      | inl ok ↦
          rw (handle_forward_result, tried, ok)
            (step.sets _ p.forwarder _ (step.counts (forwarded true at) p h))
      | inr (x, bad) ↦
          rw (handle_forward_result, tried, bad)
            (step.sets _ p.forwarder _ (step.counts (forwarded false "") p h))
    ]
  ]

  settings_closed :
      (disk : Write) (cfg : ForwardingConfig) (p : Processor)
      → P p
      → P (update_forwarding_config f.forwarding disk cfg p).0
  unfolding update_forwarding_config
  settings_closed disk cfg p h =
      elim (Option-cases (replace_config f.forwarding disk cfg p.forwarding).1) [
        | inl ok ↦ rw (update_forwarding_config, ok) (step.sets _ _ p h)
        | inr (x, bad) ↦ rw (update_forwarding_config, bad) (step.sets _ p.forwarder p h)
      ]

  reset_closed : (p : Processor) → P p → P (reset_forward_queue p).0
  unfolding reset_forward_queue
  reset_closed p h = elim (Option-cases p.forward_queue) [
    | inl e ↦ rw (reset_forward_queue, e) h
    | inr (q, e) ↦ rw (reset_forward_queue, e) (step.drains q p e h)
  ]

  pub stepwise-IsClosed : IsClosed f P
  unfolding set_rules_of rule_test Filter.set_rules
  stepwise-IsClosed = record {
    ingested = ingest_closed f P stepwise-IsIngesting;
    handled = handle_closed;
    ruled = λ rules p h. step.decides _ p h;
    tested = λ e now p h. step.decides _ p h;
    configured = settings_closed;
    emptied = reset_closed;
    joined = step.joins;
    left = step.leaves;
    received = step.receives;
    taken = step.takes;
  }
