-- ===== src/Collector/Closed/Posts.antt =====
-- The handlers through which events come.
use ot_collector.Prelude.{
  String, Dict, Option, none, some, List, [], ◌∷◌, str_eq, Bool-cases, Option-cases, inl, inr,
}
use ot_collector.GoText.{trim_space}
use ot_collector.Event.{or_default}
use ot_collector.Processor.{Processor, process_normalized, process_test_event}
use ot_collector.Processor.Raw.{Inputs, process_raw}
use ot_collector.Api.{Api, Method, get, post, put, delete, other_method, Posted, post_events}
use ot_collector.Api.Events.{
  Wrapped, handle_post_events, handle_test_event, accept_raw, accept_event, batch_of, flat_event,
  posted,
}
use ot_collector.Api.Server.{Formats, Turn, handle_events}
use ot_collector.Collector.Closed.{IsClosed}

module _ (f : Formats) (P : Processor → Type 0) (closed : IsClosed f P) where
  pub post_events_closed :
      (xs : List Posted) (a : Api)
      → P a.processor
      → P (post_events f.storage f.minute_of xs a).0.processor
  unfolding post_events process_normalized
  post_events_closed [] a h = h
  post_events_closed (x ∷ xs) a h =
      post_events_closed xs _ (closed.ingested x.world _ "api" a.processor h)

  module _ (t : Turn) where
    pub posted_closed :
        (body : Option String) (a : Api)
        → P a.processor
        → P (handle_post_events f.storage f.minute_of f.bodies t.posted body a).0.processor
    unfolding handle_post_events
    posted_closed none a h = h
    posted_closed (some raw) a h = elim (Bool-cases (str_eq (trim_space raw) "")) [
      | inl e ↦ rw e h
      | inr e ↦ elim (Option-cases (batch_of f.bodies (trim_space raw))) [
        | inl bad ↦ rw (e, bad) h
        | inr (batch, good) ↦ rw (e, good) (post_events_closed (posted t.posted 0 batch) a h)
      ]
    ]

    pub events_closed :
        (m : Method) (url : Dict String) (body : Option String) (a : Api)
        → P a.processor
        → P (handle_events f t m url body a).0.processor
    unfolding handle_events
    events_closed post url body a h = posted_closed body a h
    events_closed get url body a h = h
    events_closed put url body a h = h
    events_closed delete url body a h = h
    events_closed other_method url body a h = h

    pub raw_closed :
        (go : Inputs) (w : Wrapped) (body : String) (a : Api)
        → P a.processor
        → P (accept_raw f.storage f.minute_of t.world go w body a).0.processor
    unfolding accept_raw process_raw
    raw_closed go w body a h =
        elim (Bool-cases (str_eq (or_default (trim_space w.raw) (trim_space body)) "")) [
          | inl e ↦ rw e h
          | inr e ↦ rw e (closed.ingested t.world _ _ a.processor h)
        ]

    pub test_event_closed :
        (go : Inputs) (body : Option String) (a : Api)
        → P a.processor
        → P
            (handle_test_event f.storage f.minute_of f.bodies t.world go t.new_id body
              a).0.processor
    unfolding handle_test_event accept_event process_test_event
    test_event_closed go none a h = h
    test_event_closed go (some raw) a h = elim (Bool-cases (str_eq (trim_space raw) "")) [
      | inl e ↦ rw e h
      | inr e ↦ elim (Option-cases (f.bodies.wrapped (trim_space raw)).event) [
        | inr (evt, w) ↦ rw (e, w) (closed.ingested t.world _ _ a.processor h)
        | inl w ↦ elim (Option-cases (flat_event f.bodies (trim_space raw))) [
          | inr (evt, flat) ↦ rw (e, w, flat) (closed.ingested t.world _ _ a.processor h)
          | inl flat ↦
              rw (e, w, flat)
                (raw_closed go (f.bodies.wrapped (trim_space raw)) (trim_space raw) a h)
        ]
      ]
    ]
