-- ===== src/Stats/Totals.antt =====
-- What the counters have in common.
use ot_collector.Prelude.{
  ℕ, ◌+◌, ◌≡◌, refl, String, Bool, true, false, List, [], ◌∷◌, arith, Bool-cases, inl, inr, ◌==◌,
}
use ot_collector.Event.{Event}
use ot_collector.Stats.{
  Stats, new_stats, bump_rate, add_stored, add_decision, add_dropped, add_forward_result,
}

-- The calls of the methods that change the counters.
pub data Call : Type 0 where
  stored : ℕ → String → Event → Call
  decided : String → String → Bool → Call
  dropped : ℕ → String → String → Bool → Call
  forwarded : Bool → String → Call

unfoldable pub call : Call → Stats → Stats
call (stored sec minute e) s = add_stored sec minute e s
call (decided decision rule_id sampled) s = add_decision decision rule_id sampled s
call (dropped sec rule_id reason sampled) s = add_dropped sec rule_id reason sampled s
call (forwarded success when) s = add_forward_result success when s

unfoldable pub calls : List Call → Stats → Stats
calls [] s = s
calls (c ∷ cs) s = calls cs (call c s)

-- The total is split: an event is counted in it when it is stored or when it is dropped.
abbrev pub IsSplit : Stats → Type 0
IsSplit s = s.total ≡ s.stored_count + s.dropped_count

bump_rate-IsSplit : (sec : ℕ) (s : Stats) → IsSplit s → IsSplit (bump_rate sec s)
unfolding bump_rate
bump_rate-IsSplit sec s h = elim (Bool-cases (s.rate_second == sec)) [
  | inl e ↦ rw e h
  | inr e ↦ rw e h
]

pub call-IsSplit : (c : Call) (s : Stats) → IsSplit s → IsSplit (call c s)
unfolding call add_stored add_decision add_dropped add_forward_result
call-IsSplit (stored sec minute e) s h = bump_rate-IsSplit sec _ (omega arith)
call-IsSplit (decided decision rule_id sampled) s h = h
call-IsSplit (dropped sec rule_id reason sampled) s h = bump_rate-IsSplit sec _ (omega arith)
call-IsSplit (forwarded true when) s h = h
call-IsSplit (forwarded false when) s h = h

pub calls-IsSplit : (cs : List Call) (s : Stats) → IsSplit s → IsSplit (calls cs s)
unfolding calls
calls-IsSplit [] s h = h
calls-IsSplit (c ∷ cs) s h = calls-IsSplit cs (call c s) (call-IsSplit c s h)

-- Whatever is counted, in whatever order, the total of events is the stored ones and the dropped
-- ones together.
pub calls-new_stats-IsSplit : (cs : List Call) → IsSplit (calls cs new_stats)
unfolding new_stats
calls-new_stats-IsSplit cs = calls-IsSplit cs _ refl
