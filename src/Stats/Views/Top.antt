-- ===== src/Stats/Views/Top.antt =====
-- What the lists of the most frequent assets and commands leave out.
use ot_collector.Prelude.{
  ℕ, zero, suc, ◌≤◌, String, [], ◌∷◌, Dict, take, length, length-take, arith,
}
use ot_collector.Stats.{Stats}
use ot_collector.Stats.Views.{top_n, summary}

-- The list has the key with the count.
pub data IsEntry (key : String) (count : ℕ) : Dict ℕ → Type 0 where
  here : {rest : Dict ℕ} → IsEntry key count ((key, count) ∷ rest)
  there :
      {entry : String × ℕ} {rest : Dict ℕ}
      → IsEntry key count rest
      → IsEntry key count (entry ∷ rest)

-- No entry has a higher count than one before it.
pub data IsDescending : Dict ℕ → Type 0 where
  none_left : IsDescending []
  next :
      {key : String} {count : ℕ} {rest : Dict ℕ}
      → ((other : String) (n : ℕ) → IsEntry other n rest → n ≤ count)
      → IsDescending rest
      → IsDescending ((key, count) ∷ rest)

-- An entry is one of the list, or no entry of the list has a lower count.
pub data IsCovered (key : String) (count : ℕ) (top : Dict ℕ) : Type 0 where
  listed : IsEntry key count top → IsCovered key count top
  below : ((other : String) (n : ℕ) → IsEntry other n top → count ≤ n) → IsCovered key count top

least_of_more :
    (x : String × ℕ) (top : Dict ℕ) (count : ℕ)
    → count ≤ x.1
    → ((other : String) (n : ℕ) → IsEntry other n top → count ≤ n)
    → (other : String) (n : ℕ) → IsEntry other n (x ∷ top)
    → count ≤ n
least_of_more x top count first least _ _ here = first
least_of_more x top count first least other n (there e) = least other n e

IsCovered-more :
    (x : String × ℕ) (top : Dict ℕ) (key : String) (count : ℕ)
    → count ≤ x.1
    → IsCovered key count top
    → IsCovered key count (x ∷ top)
IsCovered-more x top key count first (listed e) = listed (there e)
IsCovered-more x top key count first (below least) = below (least_of_more x top count first least)

take-IsCovered :
    (n : ℕ) (xs : Dict ℕ) (key : String) (count : ℕ)
    → IsDescending xs
    → IsEntry key count xs
    → IsCovered key count (take n xs)
take-IsCovered zero xs key count d h = below λ other m e. elim e [ ]
take-IsCovered (suc n) [] key count d h = elim h [ ]
take-IsCovered (suc n) ((key, count) ∷ xs) _ _ d here = listed here
take-IsCovered (suc n) (x ∷ xs) key count (next bound d) (there h) =
    IsCovered-more x (take n xs) key count (bound key count h) (take-IsCovered n xs key count d h)

-- Summary lists at most 5 assets and 10 commands, and leaves out none that was counted more often
-- than one that it lists: if sort.Slice keeps the entries of the two maps and puts them in an order of
-- descending counts, then each asset that was counted is listed with its count or no listed asset
-- has a lower one, and likewise each command.
pub summary-IsCovered :
    (sort : Dict ℕ → Dict ℕ) (s : Stats)
    → ((key : String) (count : ℕ)
        → IsEntry key count s.by_asset
        → IsEntry key count (sort s.by_asset))
    → ((key : String) (count : ℕ)
        → IsEntry key count s.by_command
        → IsEntry key count (sort s.by_command))
    → IsDescending (sort s.by_asset)
    → IsDescending (sort s.by_command)
    → (asset command : String) (a c : ℕ) → IsEntry asset a s.by_asset
    → IsEntry command c s.by_command
    → (length (summary sort s).top_assets ≤ 5)
      × (length (summary sort s).top_commands ≤ 10)
      × IsCovered asset a (summary sort s).top_assets
      × IsCovered command c (summary sort s).top_commands
unfolding summary top_n
summary-IsCovered sort s assets commands assets_down commands_down asset command a c ha hc = (
  omega (arith, length-take 5 (sort s.by_asset)),
  omega (arith, length-take 10 (sort s.by_command)),
  take-IsCovered 5 (sort s.by_asset) asset a assets_down (assets asset a ha),
  take-IsCovered 10 (sort s.by_command) command c commands_down (commands command c hc),
)
