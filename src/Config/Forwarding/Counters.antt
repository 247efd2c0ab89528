-- ===== src/Config/Forwarding/Counters.antt =====
-- The counters of the forwarding settings over a run of results.
use ot_collector.Prelude.{◌+◌, ◌≡◌, String, Bool, true, false, List, [], ◌∷◌, arith, length}
use ot_collector.Config.Forwarding.{ForwardingConfig, record_result}

-- A result as UpdateForwardResult gets it.
pub record Result : Type 0 where
  pub success : Bool
  pub when : String
  pub err_msg : String
  pub event_id : String

unfoldable pub record_results : List Result → ForwardingConfig → ForwardingConfig
record_results [] c = c
record_results (r ∷ rs) c =
    record_results rs (record_result r.success r.when r.err_msg r.event_id c)

record_result_counts :
    (ok : Bool) (t m i : String) (c : ForwardingConfig)
    → let c' = record_result ok t m i c in
      c'.successful_forward_count + c'.failed_forward_count
      ≡ c.successful_forward_count + c.failed_forward_count + 1
unfolding record_result
record_result_counts true t m i c = omega arith
record_result_counts false t m i c = omega arith

-- Over any run of results, the two counts of the settings go up together by the number of results:
-- each is counted once, as a success or as a failure.
pub record_results_counts :
    (rs : List Result) (c : ForwardingConfig)
    → let c' = record_results rs c in
      c'.successful_forward_count + c'.failed_forward_count
      ≡ c.successful_forward_count + c.failed_forward_count + length rs
unfolding record_results
record_results_counts [] c = omega arith
record_results_counts (r ∷ rs) c =
    let c' = record_result r.success r.when r.err_msg r.event_id c in
    omega (
      arith,
      record_result_counts r.success r.when r.err_msg r.event_id c,
      record_results_counts rs c',
    )
