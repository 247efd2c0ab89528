-- ===== src/Collector/Runs.antt =====
-- A property that is closed holds all through a run.
use ot_collector.Prelude.{
  ℕ, ◌≡◌, refl, some, List, [], ◌∷◌, Bool-cases, Option-cases, inl, inr, ltb, length, All,
  List-cases,
}
use ot_collector.Processor.{Processor, World}
use ot_collector.Processor.Raw.{Inputs, process_raw}
use ot_collector.Api.{Api}
use ot_collector.Api.Routes.{
  Route, health, events, event_stream, storage_repair, sources, stats, stats_summary,
  stats_timeline, filter_config, config_sources, config_source_by_id, config_rules,
  config_rule_by_id, config_rules_test, config_forwarding, forwarding_test,
  forwarding_test_pipeline, forwarding_reset_queue, test_event, web, route, is_clean,
}
use ot_collector.Api.Server.{
  Request, Formats, Turn, serve_route, serve, open_stream, close_stream, stream_event, with_sources,
}
use ot_collector.Collector.{
  Collector, Happening, Delivery, arrives, takes_line, requested, streams, leaves, takes_task,
  finishes, finish_task, pick, happen, run,
}
use ot_collector.Collector.Closed.{IsClosed}
use ot_collector.Collector.Closed.Posts.{events_closed, test_event_closed}
use ot_collector.Collector.Closed.Items.{
  rules_closed, rule_by_id_closed, sources_closed, source_by_id_closed,
}
use ot_collector.Collector.Closed.Settings.{
  settings_closed, reset_closed, pipeline_closed, rules_test_closed, repair_closed,
}

-- The new file of a repair may be any.
abbrev pub Repaired : (Processor → Type 0) → Type 0
Repaired P = (file : List ℕ) (p : Processor) → P p → P (record p { file = file })

-- A happening that is a request for a repair needs that.
abbrev pub MayRepair : (Processor → Type 0) → Happening → Type 0
MayRepair P (requested t r) = route r.path ≡ some storage_repair → Repaired P
MayRepair P _ = Unit

module _ (f : Formats) (P : Processor → Type 0) (closed : IsClosed f P) where
  at_route :
      (t : Turn) (at : Route) (r : Request) (a : Api)
      → (at ≡ storage_repair → Repaired P)
      → P a.processor
      → P (serve_route f t at r a).0.processor
  unfolding serve_route open_stream
  at_route t events r a kept h = events_closed f P closed t r.method r.url r.body a h
  at_route t event_stream r a kept h = closed.joined a.processor h
  at_route t storage_repair r a kept h = repair_closed f P closed t r.method a (kept refl) h
  at_route t config_sources r a kept h = sources_closed f P closed t r.method _ a h
  at_route t config_source_by_id r a kept h = source_by_id_closed f P closed t r.path r.method _ a h
  at_route t config_rules r a kept h = rules_closed f P closed t r.method _ a h
  at_route t config_rule_by_id r a kept h = rule_by_id_closed f P closed t r.path r.method _ a h
  at_route t config_rules_test r a kept h = rules_test_closed f P closed t r.method _ a h
  at_route t config_forwarding r a kept h = settings_closed f P closed t r.method _ a h
  at_route t forwarding_test_pipeline r a kept h = pipeline_closed f P closed t r.method a h
  at_route t forwarding_reset_queue r a kept h = reset_closed f P closed t r.method a h
  at_route t test_event r a kept h =
      test_event_closed f P closed t (with_sources a t.inputs) r.body a h
  at_route t health r a kept h = h
  at_route t sources r a kept h = h
  at_route t stats r a kept h = h
  at_route t stats_summary r a kept h = h
  at_route t stats_timeline r a kept h = h
  at_route t filter_config r a kept h = h
  at_route t forwarding_test r a kept h = h
  at_route t web r a kept h = h

  at_path :
      (t : Turn) (r : Request) (a : Api)
      → (route r.path ≡ some storage_repair → Repaired P)
      → P a.processor
      → P (serve f t r a).0.processor
  unfolding serve
  at_path t r a kept h = elim (Bool-cases (is_clean r.path)) [
    | inr redirected ↦ rw (serve, redirected) h
    | inl clean ↦ elim (Option-cases (route r.path)) [
      | inl e ↦ rw (serve, clean, e) h
      | inr (at, e) ↦ rw (serve, clean, e) (at_route t at r a (λ same. kept (cc)) h)
    ]
  ]

  line_closed :
      (w : World) (go : Inputs) (c : Collector)
      → P c.api.processor
      → P (happen f (takes_line w go) c).api.processor
  unfolding happen process_raw
  line_closed w go c h = elim (List-cases c.incoming.pending) [
    | inl e ↦ rw (happen, e) h
    | inr (log, rest, e) ↦ rw (happen, e) (closed.ingested w _ _ c.api.processor h)
  ]

  task_closed : (c : Collector) → P c.api.processor → P (happen f takes_task c).api.processor
  unfolding happen
  task_closed c h = elim (Bool-cases (ltb (length c.in_flight) c.workers)) [
    | inr full ↦ rw (happen, full) h
    | inl room ↦ elim (Option-cases c.api.processor.forward_queue) [
      | inl e ↦ rw (happen, room, e) h
      | inr (q, e) ↦ rw (happen, room, e) (closed.taken c.in_flight q c.api.processor e h)
    ]
  ]

  finish_closed :
      (n : ℕ) (d : Delivery) (c : Collector)
      → P c.api.processor
      → P (happen f (finishes n d) c).api.processor
  unfolding happen finish_task
  finish_closed n d c h = elim (Option-cases (pick n c.in_flight)) [
    | inl e ↦ rw (happen, e) h
    | inr (t, e) ↦ rw (happen, e) (closed.handled d.disk d.ended_at _ c.api.processor h)
  ]

  happen_closed :
      (x : Happening) (c : Collector)
      → MayRepair P x
      → P c.api.processor
      → P (happen f x c).api.processor
  unfolding happen stream_event close_stream
  happen_closed (arrives log) c may h = h
  happen_closed (takes_line w go) c may h = line_closed w go c h
  happen_closed (requested t r) c may h = at_path t r c.api may h
  happen_closed (streams id) c may h = closed.received id c.api.processor h
  happen_closed (leaves id) c may h = closed.left id c.api.processor h
  happen_closed takes_task c may h = task_closed c h
  happen_closed (finishes n d) c may h = finish_closed n d c h

  pub run_closed :
      (xs : List Happening) (c : Collector)
      → All (MayRepair P) xs
      → P c.api.processor
      → P (run f xs c).api.processor
  unfolding run
  run_closed [] c may h = h
  run_closed (x ∷ xs) c (may, rest) h = run_closed xs (happen f x c) rest (happen_closed x c may h)
