-- ===== src/Tests/Engines.antt =====
-- Runs of the rule engine.
use ot_collector.Prelude.{◌+◌, ◌*◌, ◌≤◌, ◌<◌, ◌≡◌, refl, ◌⊎◌, some, [], ◌∷◌, arith, All, false}
use ot_collector.Config.Rules.{RuleConfig}
use ot_collector.Filter.{fire, evaluate}
use ot_collector.Filter.Match.{matches}
use ot_collector.Filter.FirstMatch.{stored_and_shown, FirstMatch, evaluate-FirstMatch}
use ot_collector.Filter.Rates.{History, run, admitted, admitted-le-limit}
use ot_collector.Filter.Duplicates.{IsGone, evaluate_suppresses}
use ot_collector.Filter.Sampling.{kept, kept_ceiling}
use ot_collector.Tests.{pump, noisy, engine_of, engine_runs}

abbrev burst : History
burst = (1, pump) ∷ (2, pump) ∷ (3, pump) ∷ []

admitted-le-limit_example : admitted 2 "r1|10.0.0.1" (engine_of noisy) burst ≤ 2
admitted-le-limit_example =
    admitted-le-limit 2 "r1|10.0.0.1" 0 (engine_of noisy) burst (omega arith)
      (refl, (refl, (refl, tt)))

evaluate_suppresses_example :
    IsGone
      (evaluate (run (evaluate (engine_of noisy) (some pump) 1).0 ((3, pump) ∷ [])) (some pump) 5).1
unfolding engine_runs
evaluate_suppresses_example =
    evaluate_suppresses (engine_of noisy) pump pump 1 5 ((3, pump) ∷ []) noisy refl refl refl refl
      (omega arith) (omega arith) (omega arith) (omega arith) ((omega arith, omega arith), tt) refl

evaluate-FirstMatch_example :
    (All (λ (q : RuleConfig). matches q pump ≡ false) (noisy ∷ [])
      × (evaluate (engine_of noisy) (some pump) 1 ≡ (engine_of noisy, stored_and_shown)))
    ⊎ ((r : RuleConfig) × FirstMatch pump (noisy ∷ []) r
        × (evaluate (engine_of noisy) (some pump) 1 ≡ fire (engine_of noisy) pump r 1))
evaluate-FirstMatch_example = evaluate-FirstMatch (engine_of noisy) pump 1

kept_ceiling_example :
    (7 ≤ kept (engine_of noisy) pump noisy 7 * 10)
    × (kept (engine_of noisy) pump noisy 7 * 10 < 7 + 10)
unfolding engine_runs
kept_ceiling_example = kept_ceiling (engine_of noisy) pump noisy 7 10 refl (omega arith) refl
