-- ===== src/Api/Events/Answers.antt =====
-- What an answer of /test-event says of the collector.
use ot_collector.Prelude.{
  ◌≡◌, ◌∙◌, ℕ, String, true, false, some, str_eq, Bool-cases, Option-cases, inl, inr,
}
use ot_collector.GoText.{trim_space}
use ot_collector.GoText.Blank.{trim_space-trim_space}
use ot_collector.Event.{Event, or_default-ne}
use ot_collector.Storage
use ot_collector.Processor.{World, ingest, process_test_event}
use ot_collector.Processor.Raw.{Inputs, process_raw}
use ot_collector.Api.{Api}
use ot_collector.Api.Events.{
  Bodies, Wrapped, flat_event, accept_event, accept_raw, handle_test_event,
}

module _ (codec : Storage.Codec) (minute_of : String → String) (w : World) where
  -- The answer to a body, and the collector after it.
  pub data IsAnswer (body : String) (a : Api) : Api × ℕ → Type 0 where
    refused : str_eq (trim_space body) "" ≡ true → IsAnswer body a (a, 400)
    accepted :
        (evt : Event) (path : String)
        → str_eq (trim_space body) "" ≡ false
        → IsAnswer body a
            (record a { processor = ingest codec minute_of w evt path a.processor }, 202)

  accept_event-IsAnswer :
      (new_id body : String) (evt : Event) (a : Api)
      → str_eq (trim_space body) "" ≡ false
      → IsAnswer body a (accept_event codec minute_of w new_id evt a)
  unfolding accept_event process_test_event
  accept_event-IsAnswer new_id body evt a full = accepted _ "api_test_event" full

  accept_raw-IsAnswer :
      (go : Inputs) (body : String) (wrapped : Wrapped) (a : Api)
      → str_eq (trim_space body) "" ≡ false
      → IsAnswer body a (accept_raw codec minute_of w go wrapped (trim_space body) a)
  unfolding accept_raw process_raw
  accept_raw-IsAnswer go body wrapped a full =
      rw
        (or_default-ne (trim_space wrapped.raw) (trim_space (trim_space body))
          (trim_space-trim_space body ∙ full))
        (accepted _ _ full)

  -- Every body of /test-event that is not blank is accepted, whatever the JSON in it: the answer is
  -- 202 and one event has gone through the pipeline. To a blank body the answer is 400, and
  -- nothing has changed.
  pub handle_test_event-IsAnswer :
      (json : Bodies) (go : Inputs) (new_id body : String) (a : Api)
      → IsAnswer body a (handle_test_event codec minute_of json w go new_id (some body) a)
  unfolding handle_test_event
  handle_test_event-IsAnswer json go new_id body a =
      elim (Bool-cases (str_eq (trim_space body) "")) [
        | inl empty ↦ rw empty (refused empty)
        | inr full ↦ elim (Option-cases (json.wrapped (trim_space body)).event) [
          | inr (evt, given) ↦ rw (full, given) (accept_event-IsAnswer new_id body evt a full)
          | inl missing ↦ elim (Option-cases (flat_event json (trim_space body))) [
            | inr (evt, flat) ↦
                rw (full, missing, flat) (accept_event-IsAnswer new_id body evt a full)
            | inl other ↦ rw (full, missing, other) (accept_raw-IsAnswer go body _ a full)
          ]
        ]
      ]
