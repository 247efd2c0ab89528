-- ===== src/Processor/Results.antt =====
-- The two records of forwarding, the counters of Stats and those of the forwarding settings.
use ot_collector.Prelude.{
  ℕ, ◌+◌, ◌≡◌, String, true, false, List, [], ◌∷◌, arith, Bool-cases, Option-cases, inl, inr, ◌⊎◌,
}
use ot_collector.Event.{Event}
use ot_collector.Config.Store.{Write}
use ot_collector.Config.Forwarding.{
  ForwardingStore, ConfigCodec, update_forward_result, persist_config, record_result,
}
use ot_collector.Forwarder.Queue.{Task}
use ot_collector.Forwarder.Queue.Process.{
  ForwardResult, Forwarder, Reply, is_enabled, is_stale, process, send_with_status,
}
use ot_collector.Stats.{add_forward_result}
use ot_collector.Processor.{Processor, handle_forward_result}

-- A result with the time of the callback and what the disk does in it.
pub record Arrival : Type 0 where
  pub disk : Write
  pub at : String
  pub result : ForwardResult

unfoldable pub handle_all : ConfigCodec → List Arrival → Processor → Processor
handle_all codec [] p = p
handle_all codec (a ∷ rest) p =
    handle_all codec rest (handle_forward_result codec a.disk a.at a.result p)

-- How many results are not skipped.
unfoldable pub attempts : List Arrival → ℕ
attempts [] = 0
attempts (a ∷ rest) = (elim a.result.skipped [ true ↦ 0 | false ↦ 1 ]) + attempts rest

-- From p to q, both records have gone up by the same numbers, n results in all.
pub record IsInStep (p q : Processor) (n : ℕ) : Type 0 where
  pub successes :
      q.stats.forwarded_count + p.forwarding.config.successful_forward_count
      ≡ q.forwarding.config.successful_forward_count + p.stats.forwarded_count
  pub failures :
      q.stats.failed_forward_cnt + p.forwarding.config.failed_forward_count
      ≡ q.forwarding.config.failed_forward_count + p.stats.failed_forward_cnt
  pub attempted :
      q.stats.forwarded_count + q.stats.failed_forward_cnt
      ≡ p.stats.forwarded_count + p.stats.failed_forward_cnt + n

-- Saving does not change the settings in memory, whether it succeeds or not.
pub persist_config-config :
    (codec : ConfigCodec) (w : Write) (s : ForwardingStore)
    → (persist_config codec w s).0.config ≡ s.config
unfolding persist_config
persist_config-config codec w s = ground arith

module _ (codec : ConfigCodec) (disk : Write) (at : String) where
  handled :
      (r : ForwardResult) (p : Processor)
      → IsInStep p
          (handle_forward_result codec disk at r p)
          (elim r.skipped [ true ↦ 0 | false ↦ 1 ])
  unfolding handle_forward_result update_forward_result add_forward_result record_result
  handled r p = elim (Bool-cases r.skipped) [
    | inl skipped ↦
        rw skipped
          (record { successes = omega arith; failures = omega arith; attempted = omega arith })
    | inr tried ↦ elim (Option-cases r.err) [
      | inl ok ↦
          rw (tried, ok)
            (record {
              successes = rw persist_config-config (omega arith);
              failures = rw persist_config-config (omega arith);
              attempted = omega arith;
            })
      | inr (e, bad) ↦
          rw (tried, bad)
            (record {
              successes = rw persist_config-config (omega arith);
              failures = rw persist_config-config (omega arith);
              attempted = omega arith;
            })
    ]
  ]

-- The counters that are shown in two places agree: over any run of results, those of Stats and
-- those of the forwarding settings go up by the same successes and the same failures, whether or
-- not the settings can be saved, and together by the results that were not skipped.
pub handle_all-IsInStep :
    (codec : ConfigCodec) (rs : List Arrival) (p : Processor)
    → IsInStep p (handle_all codec rs p) (attempts rs)
unfolding handle_all attempts
handle_all-IsInStep codec [] p = record {
  successes = omega arith;
  failures = omega arith;
  attempted = omega arith;
}
handle_all-IsInStep codec (a ∷ rest) p =
    let p' = handle_forward_result codec a.disk a.at a.result p in
    let one = handled codec a.disk a.at a.result p in
    let more = handle_all-IsInStep codec rest p' in
    record {
      successes = omega (arith, one.successes, more.successes);
      failures = omega (arith, one.failures, more.failures);
      attempted = omega (arith, one.attempted, more.attempted);
    }

-- A task that a worker takes when there is no URL, and that is not too old, is counted as a
-- successful forward.
pub unsent_is_success :
    (codec : ConfigCodec) (disk : Write) (at : String) (decimal : ℕ → String)
    (marshal : Event → String ⊎ String) (post : String → String → Reply) (f : Forwarder)
    (max_age : _) (now before after : ℕ) (t : Task) (p : Processor)
    → is_enabled f ≡ false
    → is_stale max_age now t ≡ false
    → (handle_forward_result codec disk at
        (process max_age now before after (send_with_status decimal marshal post f) t)
        p).stats.forwarded_count
      ≡ p.stats.forwarded_count + 1
unfolding handle_forward_result process send_with_status add_forward_result
unsent_is_success codec disk at decimal marshal post f max_age now before after t p off fresh =
    rw (fresh, off)
