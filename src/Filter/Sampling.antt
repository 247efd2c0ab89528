-- ===== src/Filter/Sampling.antt =====
-- How much of a stream the action `sample` keeps.
use native.Mathlib.Nat.{
  div-add-mod', mul-add-mod_self_right, mod-eq_of_lt, mul-le-mul_right, add-zero, zero-add,
  add_assoc,
}
use ot_collector.Prelude.{
  ℕ, zero, suc, ◌+◌, ◌*◌, ◌/◌, ◌%◌, ◌≤◌, ◌<◌, ◌≡◌, ◌≢◌, ◌↔◌, ap, ◌∙◌, inl, inr, true, false,
  Bool-cases, arith, if◌then◌else◌, pos, ℤ, count_of, count_of-bump, eq_refl,
}
use ot_collector.Event.{Event}
use ot_collector.Float.{le_zero, tenth, sample_to_keep_every}
use ot_collector.Config.Rules.{RuleConfig}
use ot_collector.Filter.{Engine, sample, drop_decision, is_kept}
use ot_collector.Filter.Match.{sample_key}

-- One in how many events the rule keeps.
abbrev pub keep_every : RuleConfig → ℤ
keep_every r = sample_to_keep_every (if le_zero r.sample_rate then tenth else r.sample_rate)

-- Of n events alike, how many are not dropped.
unfoldable pub kept : Engine → Event → RuleConfig → ℕ → ℕ
kept e evt r zero = 0
kept e evt r (suc n) = let (e', d) = sample e evt r in (if d.drop then 0 else 1) + kept e' evt r n

sample_drop :
    (e : Engine) (evt : Event) (r : RuleConfig)
    → (sample e evt r).1.drop ≡ (
        if is_kept (keep_every r) (count_of (sample_key r evt) e.sample_counts + 1)
        then false
        else true)
unfolding sample drop_decision
sample_drop e evt r =
    elim (Bool-cases (is_kept (keep_every r) (count_of (sample_key r evt) e.sample_counts + 1))) [
      | inl hit ↦ rw hit
      | inr miss ↦ rw miss
    ]

sample_count :
    (e : Engine) (evt : Event) (r : RuleConfig)
    → count_of (sample_key r evt) (sample e evt r).0.sample_counts
      ≡ count_of (sample_key r evt) e.sample_counts + 1
unfolding sample
sample_count e evt r = rw (count_of-bump, eq_refl)

le_of_mul : (m q k : ℕ) → m * k < q * k + k → m ≤ q
le_of_mul m q k h = grind arith

hit_multiple : (c m k : ℕ) → 2 ≤ k → c ≤ m * k → m * k < c + k → (c + 1) % k ≡ 1 → c ≡ m * k
hit_multiple c m k two le lt hit =
    let q = (c + 1) / k in
    let whole : q * k ≡ c = omega (arith, div-add-mod' (c + 1) k) in
    let below = le_of_mul m q k (omega arith) in omega (arith, mul-le-mul_right k below)

multiple_hit : (c m k : ℕ) → 2 ≤ k → c ≡ m * k → (c + 1) % k ≡ 1
multiple_hit c m k two e = rw e (mul-add-mod_self_right m k 1 ∙ mod-eq_of_lt two)

is_kept_iff : (c k : ℕ) → 2 ≤ k → (is_kept (pos k) (c + 1) ≡ true) ↔ ((c + 1) % k ≡ 1)
is_kept_iff c k two = ground arith

miss_multiple : (c m k : ℕ) → 2 ≤ k → is_kept (pos k) (c + 1) ≡ false → c ≢ m * k
miss_multiple c m k two miss e = cc ((is_kept_iff c k two).1 (multiple_hit c m k two e))

-- With `m` events kept of the first `c`, the invariant of the sample counter.
abbrev IsCeiling : ℕ → ℕ → ℕ → Type 0
IsCeiling c m k = (c ≤ m * k) × (m * k < c + k)

kept_from :
    (e : Engine) (evt : Event) (r : RuleConfig) (n c m k : ℕ)
    → keep_every r ≡ pos k
    → 2 ≤ k
    → count_of (sample_key r evt) e.sample_counts ≡ c
    → IsCeiling c m k
    → IsCeiling (c + n) (m + kept e evt r n) k
unfolding kept
kept_from e evt r zero c m k every two counted (le, lt) = rw (add-zero, add-zero) (le, lt)
kept_from e evt r (suc n) c m k every two counted (le, lt) =
    let e' = (sample e evt r).0 in
    let counted' : count_of (sample_key r evt) e'.sample_counts ≡ c + 1 =
      sample_count e evt r ∙ ap (λ (t : ℕ). t + 1) counted in
    let shift : c + suc n ≡ c + 1 + n = omega arith in
    elim (Bool-cases (is_kept (pos k) (c + 1))) [
      | inl hit ↦
          let exact = hit_multiple c m k two le lt ((is_kept_iff c k two).0 hit) in
          let rest =
            kept_from e' evt r n (c + 1) (m + 1) k every two counted' (omega arith, omega arith) in
          rw (shift, sample_drop e evt r, every, counted, hit, ← add_assoc) rest
      | inr miss ↦
          let off = miss_multiple c m k two miss in
          let rest =
            kept_from e' evt r n (c + 1) m k every two counted' (omega arith, omega arith) in
          rw (shift, sample_drop e evt r, every, counted, miss, zero-add) rest
    ]

-- Sampling keeps one event in k, rounded up: of n events alike, the first included, the action
-- `sample` with a rate that means one in k (k at least 2) keeps ⌈n / k⌉, if none was counted before.
pub kept_ceiling :
    (e : Engine) (evt : Event) (r : RuleConfig) (n k : ℕ)
    → keep_every r ≡ pos k
    → 2 ≤ k
    → count_of (sample_key r evt) e.sample_counts ≡ 0
    → (n ≤ kept e evt r n * k) × (kept e evt r n * k < n + k)
kept_ceiling e evt r n k every two none_before =
    let t = kept_from e evt r n 0 0 k every two none_before (omega arith, omega arith) in
    rw (zero-add n, zero-add (kept e evt r n)) at t
