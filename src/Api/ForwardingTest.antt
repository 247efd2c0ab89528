-- ===== src/Api/ForwardingTest.antt =====
-- handleForwardingTest of internal/api/handlers.go, which sends an event past the queue and changes no
-- state.
use Prim.Native.String
use ot_collector.Prelude.{
  ℕ, ◌≡◌, ◌≤◌, ◌<◌, refl, sym, ap, ◌∙◌, ◌&&◌, String, Bool, true, false, Option, none, some, [],
  ◌∷◌, str_eq, if◌then◌else◌, leb, ltb, arith,
}
use ot_collector.GoText.{trim_space}
use ot_collector.Event.{Event}
use ot_collector.Api.{Api, Method, get, post, put, delete, other_method}

-- The event of handleForwardingTest, at a time as a text and in nanoseconds.
unfoldable pub test_event : String → String → String → Event
test_event now nanos zone = record {
  id = String.◌++◌ "fwdtest-" nanos;
  timestamp = now;
  received_at = now;
  zone = zone;
  source_type = "ot_collector";
  asset_name = "ot_collector";
  asset_ip = "";
  severity = "info";
  protocol = "json";
  event_category = "system";
  message = "forwarding connectivity test";
  raw = "";
  tags = some (("kind", "forwarding_test") ∷ []);
}

-- What comes of a request, with the milliseconds it took: it cannot be built, it fails, or there is
-- a response, with at most 200 bytes of its body.
pub data Sent : Type 0 where
  not_built : String → Sent
  failed : ℕ → String → Sent
  answered : ℕ → ℕ → String → Sent

-- The answer of handleForwardingTest; none is a key that it does not have.
pub record TestAnswer : Type 0 where
  pub success : Bool
  pub error : String
  pub elapsed_ms : Option ℕ
  pub status_code : Option ℕ
  pub response_body : Option String

unfoldable pub answer_of : Sent → TestAnswer
answer_of (not_built e) = record {
  success = false;
  error = e;
  elapsed_ms = none;
  status_code = none;
  response_body = none;
}
answer_of (failed elapsed e) = record {
  success = false;
  error = e;
  elapsed_ms = some elapsed;
  status_code = none;
  response_body = none;
}
answer_of (answered elapsed status body) = record {
  success = leb 200 status && ltb status 300;
  error = "";
  elapsed_ms = some elapsed;
  status_code = some status;
  response_body = some (trim_space body);
}

-- handleForwardingTest, with the bytes of json.Marshal, whose error is ignored, and the HTTP client
unfoldable pub handle_forwarding_test :
    (Event → String)
    → (String → String → Sent)
    → Method
    → String
    → String
    → Api
    → ℕ × Option TestAnswer
handle_forwarding_test marshal send post now nanos a =
    let url = trim_space a.processor.forwarding.config.dmz_collector_url in
    if str_eq url ""
    then (200, some (answer_of (not_built "forwarding URL not configured")))
    else (200, some (answer_of (send url (marshal (test_event now nanos a.zone)))))
handle_forwarding_test marshal send _ now nanos a = (405, none)

-- The request got a response, whose status is shown and is 2xx.
record IsReached (reply : Sent) (answer : TestAnswer) : Type 0 where
  elapsed : ℕ
  status : ℕ
  body : String
  reached : reply ≡ answered elapsed status body
  shown : answer.status_code ≡ some status
  at_least : 200 ≤ status
  below : status < 300

answer_of_success :
    (reply : Sent) → (answer_of reply).success ≡ true → IsReached reply (answer_of reply)
unfolding answer_of
answer_of_success (not_built e) ok = cc
answer_of_success (failed elapsed e) ok = cc
answer_of_success (answered elapsed status body) ok = record {
  elapsed = elapsed;
  status = status;
  body = body;
  reached = refl;
  shown = refl;
  at_least = ground arith;
  below = ground arith;
}

IsReached-answer_of :
    (reply : Sent) (answer : TestAnswer)
    → answer ≡ answer_of reply
    → answer.success ≡ true
    → IsReached reply answer
IsReached-answer_of reply answer e ok =
    rw e (answer_of_success reply (sym (ap (λ (t : TestAnswer). t.success) e) ∙ ok))

unset_fails :
    (answer : TestAnswer) (e : String)
    → some (answer_of (not_built e)) ≡ some answer
    → answer.success ≡ false
unfolding answer_of
unset_fails answer e h = cc

-- The two cases of the URL, blank and not.
after_url :
    (blank : Bool) (reply : Sent) (answer : TestAnswer) (e : String)
    → (if◌then◌else◌ {A = ℕ × Option TestAnswer} blank
        (200, some (answer_of (not_built e)))
        (200, some (answer_of reply))).1
      ≡ some answer
    → answer.success ≡ true
    → (blank ≡ false) × IsReached reply answer
after_url true reply answer e h ok = let failure = unset_fails answer e h in cc
after_url false reply answer e h ok = (refl, IsReached-answer_of reply answer (sym (cc)) ok)

-- A test of forwarding that is shown as a success reached the collector: if an answer to
-- /forwarding/test has the success true, the configured URL is not blank and the test event was
-- answered, at that URL, with a 2xx status, which is the status shown.
handle_forwarding_test-IsReached :
    (marshal : Event → String) (send : String → String → Sent) (method : Method)
    (now nanos : String) (a : Api) (answer : TestAnswer)
    → (handle_forwarding_test marshal send method now nanos a).1 ≡ some answer
    → answer.success ≡ true
    → (str_eq (trim_space a.processor.forwarding.config.dmz_collector_url) "" ≡ false)
      × IsReached
          (send
            (trim_space a.processor.forwarding.config.dmz_collector_url)
            (marshal (test_event now nanos a.zone)))
          answer
unfolding handle_forwarding_test
handle_forwarding_test-IsReached marshal send post now nanos a answer h ok =
    after_url (str_eq (trim_space a.processor.forwarding.config.dmz_collector_url) "")
      (send (trim_space a.processor.forwarding.config.dmz_collector_url)
        (marshal (test_event now nanos a.zone)))
      answer "forwarding URL not configured" h ok
handle_forwarding_test-IsReached marshal send get now nanos a answer h ok = cc
handle_forwarding_test-IsReached marshal send put now nanos a answer h ok = cc
handle_forwarding_test-IsReached marshal send delete now nanos a answer h ok = cc
handle_forwarding_test-IsReached marshal send other_method now nanos a answer h ok = cc
