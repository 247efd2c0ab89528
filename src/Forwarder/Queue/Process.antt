-- ===== src/Forwarder/Queue/Process.antt =====
-- What a worker does with a task, and the send of internal/forwarder/forwarder.go.
use ot_collector.Prelude.{
  ℕ, ◌+◌, ◌-◌, ◌/◌, ◌≡◌, refl, String, Bool, true, false, Option, none, some, ◌&&◌, ◌||◌, not, ltb,
  leb, str_eq, if◌then◌else◌, is_pos, pos_part, ℤ, arith, Bool-cases, inl, inr, ◌⊎◌, ◌≤◌, ◌<◌,
}
use Prim.Native.String
use ot_collector.GoText.{trim_space}
use ot_collector.Event.{Event}
use ot_collector.Forwarder.Queue.{Task}

-- ForwardResult
pub record ForwardResult : Type 0 where
  pub event_id : String
  pub ingestion_path : String
  pub skipped : Bool
  pub skip_reason : String
  pub elapsed_ms : ℕ
  pub http_status : ℕ
  pub err : Option String

-- q.maxAge > 0 && time.Since(task.EnqueuedAt) > q.maxAge, in nanoseconds
unfoldable pub is_stale : ℤ → ℕ → Task → Bool
is_stale max_age now t = is_pos max_age && ltb (t.enqueued_at + pos_part max_age) now

-- process, with the times before and after the send; the result goes to the callback.
unfoldable pub process : ℤ → ℕ → ℕ → ℕ → (Event → ℕ × Option String) → Task → ForwardResult
process max_age now before after do_send t =
    if is_stale max_age now t
    then record {
      event_id = t.evt.id;
      ingestion_path = t.ingestion_path;
      skipped = true;
      skip_reason = "max_age_exceeded";
      elapsed_ms = 0;
      http_status = 0;
      err = none;
    }
    else (let (status, err) = do_send t.evt in
        record {
          event_id = t.evt.id;
          ingestion_path = t.ingestion_path;
          skipped = false;
          skip_reason = "";
          elapsed_ms = (after - before) / 1_000_000;
          http_status = status;
          err = err;
        })

-- The answer of the HTTP client: the request cannot be built or sent, or there is a response.
pub data Reply : Type 0 where
  bad_request : String → Reply
  unreachable : String → Reply
  response : ℕ → Reply

-- Forwarder: what its methods read of it.
pub record Forwarder : Type 0 where
  pub url : String
  pub timeout_secs : ℕ

-- New
unfoldable pub new_forwarder : String → ℤ → Forwarder
new_forwarder url timeout_secs = record {
  url = trim_space url;
  timeout_secs = if is_pos timeout_secs then pos_part timeout_secs else 10;
}

-- Enabled
unfoldable pub is_enabled : Forwarder → Bool
is_enabled f = not (str_eq f.url "")

-- HTTPStatusError.Error, of fmt.Sprintf's decimal of the status
unfoldable pub status_error : (ℕ → String) → ℕ → String
status_error decimal status = String.◌++◌ "dmz collector returned status " (decimal status)

-- The end of SendWithStatus, from the client's answer.
unfoldable pub after_reply : (ℕ → String) → Reply → ℕ × Option String
after_reply decimal (bad_request e) = (0, some e)
after_reply decimal (unreachable e) = (0, some e)
after_reply decimal (response status) =
    if ltb status 200 || leb 300 status
    then (status, some (status_error decimal status))
    else (status, none)

-- SendWithStatus; `marshal` is json.Marshal, an error or the body, and `post` the HTTP client with a body.
unfoldable pub send_with_status :
    (ℕ → String)
    → (Event → String ⊎ String)
    → (String → String → Reply)
    → Forwarder
    → Event
    → ℕ × Option String
send_with_status decimal marshal post f evt =
    if not (is_enabled f) then (0, none) else (elim (marshal evt) [
      | inl failed ↦ (0, some failed)
      | inr body ↦ after_reply decimal (post f.url body)
    ])

-- The collector took the event: the answer to the body is a 2xx status, the one reported.
pub record IsAccepted (marshal : Event → String ⊎ String) (post : String → String → Reply)
    (f : Forwarder) (evt : Event) (reported : ℕ) : Type 0 where
  pub body : String
  pub marshalled : marshal evt ≡ inr body
  pub answered : post f.url body ≡ response reported
  pub at_least : 200 ≤ reported
  pub below : reported < 300

after_reply_ok :
    (decimal : ℕ → String) (reply : Reply)
    → (after_reply decimal reply).1 ≡ none
    → (reply ≡ response (after_reply decimal reply).0)
      × (200 ≤ (after_reply decimal reply).0)
      × ((after_reply decimal reply).0 < 300)
unfolding after_reply
after_reply_ok decimal (bad_request e) h = cc
after_reply_ok decimal (unreachable e) h = cc
after_reply_ok decimal (response status) h = ground arith

sum_cases : {A B : Type 0} (x : A ⊎ B) → ((a : A) × (x ≡ inl a)) ⊎ ((b : B) × (x ≡ inr b))
sum_cases (inl a) = inl (a, refl)
sum_cases (inr b) = inr (b, refl)

-- A send is reported with no error in two cases only: there is no URL, or the event was encoded and
-- the collector answered with a 2xx status, which is the status reported.
send_with_status_ok :
    (decimal : ℕ → String) (marshal : Event → String ⊎ String) (post : String → String → Reply)
    (f : Forwarder) (evt : Event)
    → (send_with_status decimal marshal post f evt).1 ≡ none
    → (is_enabled f ≡ false)
      ⊎ IsAccepted marshal post f evt (send_with_status decimal marshal post f evt).0
unfolding send_with_status
send_with_status_ok decimal marshal post f evt ok = elim (Bool-cases (is_enabled f)) [
  | inr off ↦ inl off
  | inl on ↦ elim (sum_cases (marshal evt)) [
    | inl (failed, e) ↦ cc (rw (on, e, send_with_status) at ok)
    | inr (body, e) ↦
        let (answered, low, high) =
          after_reply_ok decimal (post f.url body) (rw (on, e, send_with_status) at ok) in
        inr (
          rw (on, e, send_with_status)
            (record {
              body = body;
              marshalled = e;
              answered = answered;
              at_least = low;
              below = high;
            }))
  ]
]
