-- ===== src/Processor/Ingest.antt =====
-- Where an event that is ingested goes: the file, the subscribers, the queue and the counters.
use ot_collector.Prelude.{
  ◌≡◌, refl, String, Bool, true, false, Option, none, some, Option-cases, inl, inr, ◌∙◌, ap,
  if◌then◌else◌, not, ◌&&◌, str_eq, Bool-cases, sym,
}
use mathlib.Core.Path.{subst}
use ot_collector.Forwarder.Queue.Process.{is_enabled}
use ot_collector.Event.{Event}
use ot_collector.Filter.{Decision}
use ot_collector.Forwarder.Queue.{Queue, Task, enqueue}
use ot_collector.Storage
use ot_collector.Storage.{append}
use ot_collector.Stats.{add_decision}
use ot_collector.Stats.Totals.{IsSplit, decided, call, call-IsSplit}
use ot_collector.Processor.{
  Processor, World, baseline, will_forward, enrich, drop_event, store_event, enqueue_event,
  keep_event, decide_event, ingest,
}
use ot_collector.Processor.Storing.{IsStored, drop_event-IsStored, store_event-IsStored}
use ot_collector.Processor.Labels.{decision_label}

module _ (w : World) (evt : Event) (path : String) (p : Processor) where
  -- The decision of the call; whether it forwards: the event is not dropped, its rule forwards it,
  -- forwarding is enabled and there is a URL; and the event as it is enriched.
  unfoldable pub decision : Decision
  decision = (decide_event w evt p).1

  unfoldable pub forwards : Bool
  forwards =
      not decision.drop
      && (decision.forward && (p.forwarding.config.enabled && not (str_eq p.forwarder.url "")))

  pub forwards_lem : forwards ≡ will_forward decision p
  unfolding forwards will_forward is_enabled
  forwards_lem = elim (Bool-cases decision.drop) [ inl e ↦ rw e | inr e ↦ rw e ]

  unfoldable pub enriched : Event
  enriched = enrich path decision forwards (baseline w p.zone evt)

unfoldable pub send_queue : Task → Option Queue → Option Queue
send_queue task none = none
send_queue task (some q) = some (enqueue task q).0

-- What putting an event in the queue does.
record IsSent (w : World) (e : Event) (path : String) (fw : Bool) (p q : Processor) : Type 0 where
  same_file : q.file ≡ p.file
  same_hub : q.stream_hub ≡ p.stream_hub
  same_stats : q.stats ≡ p.stats
  queue_sent : q.forward_queue ≡ (
      if fw
      then send_queue
          (record { evt = e; ingestion_path = path; enqueued_at = w.enqueued_at })
          p.forward_queue
      else p.forward_queue)

enqueue_event-IsSent :
    (codec : Storage.Codec) (minute_of : String → String) (w : World) (e : Event) (path : String)
    (fw : Bool) (p : Processor)
    → IsSent w e path fw p (enqueue_event codec minute_of w e path fw p)
unfolding enqueue_event send_queue
enqueue_event-IsSent codec minute_of w e path false p = record {
  same_file = refl;
  same_hub = refl;
  same_stats = refl;
  queue_sent = refl;
}
enqueue_event-IsSent codec minute_of w e path true p = elim (Option-cases p.forward_queue) [
  | inl no_queue ↦
      rw no_queue
        (record { same_file = refl; same_hub = refl; same_stats = refl; queue_sent = no_queue })
  | inr (q, with_queue) ↦
      rw with_queue
        (record { same_file = refl; same_hub = refl; same_stats = refl; queue_sent = refl })
]

-- What becomes of an event.
pub record Outcome (codec : Storage.Codec) (w : World) (e : Event) (path : String) (d : Decision)
    (fw : Bool) (p q : Processor) : Type 0 where
  pub stored : IsStored codec w e d p (record q { forward_queue = p.forward_queue })
  pub sent : q.forward_queue ≡ (
      if fw
      then send_queue
          (record { evt = e; ingestion_path = path; enqueued_at = w.enqueued_at })
          p.forward_queue
      else p.forward_queue)

if_cases :
    (b : Bool) (P : Processor → Type 0) {x y : Processor}
    → (b ≡ true → P x)
    → (b ≡ false → P y)
    → P (if b then x else y)
if_cases true P f g = f refl
if_cases false P f g = g refl

module _ (codec : Storage.Codec) (minute_of : String → String) (w : World) (e : Event)
    (path : String) (d : Decision) (p : Processor) where
  decided-IsSplit :
      (fw : Bool)
      → IsSplit p.stats
      → IsSplit (add_decision (decision_label d fw) d.matched_rule_id d.sampled p.stats)
  unfolding call
  decided-IsSplit fw h =
      call-IsSplit (decided (decision_label d fw) d.matched_rule_id d.sampled) p.stats h

  keep_event_lem :
      (fw : Bool) → Outcome codec w e path d fw p (keep_event codec minute_of w e path d fw p)
  unfolding keep_event
  keep_event_lem fw =
      let p' = record p {
        stats = add_decision (decision_label d fw) d.matched_rule_id d.sampled p.stats;
      } in
      let q = store_event codec minute_of w e d p' in
      let s = store_event-IsStored codec minute_of w e d p' in
      let t = enqueue_event-IsSent codec minute_of w e path fw q in
      record {
        stored = record {
          file_after = t.same_file ∙ s.file_after;
          hub_after = t.same_hub ∙ s.hub_after;
          queue_after = refl;
          split_after = λ h. rw t.same_stats (s.split_after (decided-IsSplit fw h));
        };
        sent =
            t.queue_sent
            ∙ ap
                (λ fq.
                  if fw
                  then send_queue
                      (record { evt = e; ingestion_path = path; enqueued_at = w.enqueued_at }) fq
                  else fq)
                s.queue_after;
      }

  drop_event_lem :
      (fw : Bool) → fw ≡ false → Outcome codec w e path d fw p (drop_event codec minute_of w e d p)
  drop_event_lem fw stays =
      let s = drop_event-IsStored codec minute_of w e d p in
      record {
        stored = record {
          file_after = s.file_after;
          hub_after = s.hub_after;
          queue_after = refl;
          split_after = s.split_after;
        };
        sent = rw stays s.queue_after;
      }

  decided_lem :
      (fw : Bool)
      → (d.drop ≡ true → fw ≡ false)
      → Outcome codec w e path d fw p (
          if d.drop
          then drop_event codec minute_of w e d p
          else keep_event codec minute_of w e path d fw p)
  decided_lem fw stays =
      if_cases d.drop (Outcome codec w e path d fw p) (λ gone. drop_event_lem fw (stays gone))
        (λ _. keep_event_lem fw)

pub will_forward_drop : (d : Decision) (p : Processor) → d.drop ≡ true → will_forward d p ≡ false
unfolding will_forward
will_forward_drop d p gone = rw gone

module _ (codec : Storage.Codec) (minute_of : String → String) (w : World) (evt : Event)
    (path : String) (p : Processor) where
  ingested :
      Outcome codec w
        (enrich path
          (decision w evt path p)
          (will_forward (decision w evt path p) p)
          (baseline w p.zone evt))
        path
        (decision w evt path p)
        (will_forward (decision w evt path p) p)
        (record p { filter_engine = (decide_event w evt p).0 })
        (ingest codec minute_of w evt path p)
  unfolding ingest decision
  ingested =
      let d = decision w evt path p in
      decided_lem codec minute_of w (enrich path d (will_forward d p) (baseline w p.zone evt)) path
        d (record p { filter_engine = (decide_event w evt p).0 }) (will_forward d p)
        (will_forward_drop d p)

  -- What becomes of an event that is ingested, by the decision of the engine as it stands: the file
  -- is appended to if the decision stores the event, and is left alone otherwise; the subscribers
  -- get the event exactly if it was stored with no error and is to be shown; it is handed to Enqueue,
  -- if there is a queue, exactly if it is not dropped, its rule forwards it, forwarding is enabled
  -- and there is a URL; and if the total was the sum of the stored and the dropped, it is so
  -- afterwards.
  pub ingest-Outcome :
      Outcome codec w
        (enriched w evt path p)
        path
        (decision w evt path p)
        (forwards w evt path p)
        (record p { filter_engine = (decide_event w evt p).0 })
        (ingest codec minute_of w evt path p)
  unfolding enriched
  ingest-Outcome =
      let d = decision w evt path p in
      subst
        (λ fw.
          Outcome codec w (enrich path d fw (baseline w p.zone evt)) path d fw
            (record p { filter_engine = (decide_event w evt p).0 })
            (ingest codec minute_of w evt path p))
        (sym (forwards_lem w evt path p)) ingested
