-- ===== src/Processor/RuleTest.antt =====
-- What RuleTest leaves in the engine.
use ot_collector.Prelude.{
  [], ℕ, ◌+◌, ◌*◌, ◌^◌, ◌<◌, ◌≤◌, ◌≡◌, ◌∙◌, String, false, some, pos, str_eq,
}
use ot_collector.Event.{Event}
use ot_collector.Config.Rules.{RuleConfig}
use ot_collector.Filter.FirstMatch.{first_match}
use ot_collector.Filter.Rates.{run}
use ot_collector.Filter.Memory.{key_of}
use ot_collector.Filter.Duplicates.{IsGone, evaluate_suppresses}
use ot_collector.Storage
use ot_collector.Processor.Ingest.{decision, forwards_lem, ingest-Outcome, will_forward_drop}
use ot_collector.Processor.{ingest, Processor, World, baseline, decide_event, rule_test}
use ot_collector.Processor.Labels.{normalize_source_type}

-- The event as RuleTest evaluates it.
unfoldable pub tested : Event → Event
tested evt = record evt { source_type = normalize_source_type evt.source_type }

-- The decision on the event that follows the test.
suppressed :
    (w : World) (evt : Event) (from : ℕ) (r : RuleConfig) (p : Processor) {n : ℕ}
    → first_match (tested evt) p.filter_engine.rules ≡ some r
    → first_match (baseline w p.zone evt) p.filter_engine.rules ≡ some r
    → key_of r (tested evt) ≡ key_of r (baseline w p.zone evt)
    → r.dedup_window_seconds ≡ pos n
    → 0 < n
    → n * 1_000_000_000 < 2 ^ 63
    → from ≤ w.evaluated_at
    → w.evaluated_at ≤ from + n * 1_000_000_000
    → str_eq (rule_test evt from p).1.reason "rule_rate_limit" ≡ false
    → IsGone (decide_event w evt (rule_test evt from p).0).1
unfolding decide_event rule_test tested run
suppressed w evt from r p found found' keys window some_window small late soon passed =
    evaluate_suppresses p.filter_engine (tested evt) (baseline w p.zone evt) from w.evaluated_at []
      r found found' keys window some_window small late soon tt passed

gone_leaves :
    (codec : Storage.Codec) (minute_of : String → String) (w : World) (evt : Event) (path : String)
    (p : Processor)
    → IsGone (decide_event w evt p).1
    → let q = ingest codec minute_of w evt path p in
      (q.file ≡ p.file) × (q.stream_hub ≡ p.stream_hub) × (q.forward_queue ≡ p.forward_queue)
unfolding decision
gone_leaves codec minute_of w evt path p gone =
    let o = ingest-Outcome codec minute_of w evt path p in
    let stays =
      forwards_lem w evt path p ∙ will_forward_drop (decision w evt path p) p gone.dropped in
    (
      rw gone.not_stored at o.stored.file_after,
      rw gone.not_stored at o.stored.hub_after,
      rw stays at o.sent,
    )

-- A test of the rules is not a dry run. If a rule with a duplicate window decides a test event and
-- does not drop it by its rate, then the same event, when it is ingested within the window after
-- the test, is suppressed as a duplicate: the file, the subscribers and the queue stay as they
-- are. (The rule is to decide the event in both forms, with the same key; the window is below 292
-- years.)
pub rule_test_suppresses :
    (codec : Storage.Codec) (minute_of : String → String) (w : World) (evt : Event) (from : ℕ)
    (path : String) (r : RuleConfig) (p : Processor) {n : ℕ}
    → first_match (tested evt) p.filter_engine.rules ≡ some r
    → first_match (baseline w p.zone evt) p.filter_engine.rules ≡ some r
    → key_of r (tested evt) ≡ key_of r (baseline w p.zone evt)
    → r.dedup_window_seconds ≡ pos n
    → 0 < n
    → n * 1_000_000_000 < 2 ^ 63
    → from ≤ w.evaluated_at
    → w.evaluated_at ≤ from + n * 1_000_000_000
    → str_eq (rule_test evt from p).1.reason "rule_rate_limit" ≡ false
    → let q = ingest codec minute_of w evt path (rule_test evt from p).0 in
      (q.file ≡ p.file) × (q.stream_hub ≡ p.stream_hub) × (q.forward_queue ≡ p.forward_queue)
unfolding rule_test
rule_test_suppresses codec minute_of w evt from path r p found found' keys window some_window small
      late soon passed =
    gone_leaves codec minute_of w evt path (rule_test evt from p).0
      (suppressed w evt from r p found found' keys window some_window small late soon passed)
