-- ===== src/Processor/ForwardOnly.antt =====
-- What becomes of an event whose rule only forwards it, when there is no forwarding.
use ot_collector.Prelude.{true, false}
use ot_collector.Event.{Event}
use ot_collector.Config.Rules.{RuleConfig}
use ot_collector.Filter.{Decision}
use ot_collector.Filter.Match.{rule_show_in_ui}
use ot_collector.Storage
use ot_collector.Processor.{Processor}

abbrev forwarded_only : RuleConfig → Decision
forwarded_only r = record {
  store = false;
  forward = true;
  show = rule_show_in_ui r;
  drop = false;
  sampled = false;
  matched_rule_id = r.id;
  reason = "rule_forward_only";
}
