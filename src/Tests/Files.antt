-- ===== src/Tests/Files.antt =====
-- Runs of the file of events.
use ot_collector.Prelude.{
  ℕ, ◌+◌, ◌≡◌, refl, Bool, true, false, Option, none, some, List, [], ◌∷◌, ◌++◌, keep, length, pos,
  if◌then◌else◌, is_pos, pos_part,
}
use mathlib.Core.Path.{subst}
use ot_collector.Event.{Event}
use ot_collector.Storage.{
  RepairReport, parse_line, works, append, repair, read_filtered, write_failed,
}
use ot_collector.Storage.Faults.{
  RepairFaults, faultless, repair_on, repair_loop_on, repair_line_on, finish_on, readable, read_end,
}
use ot_collector.Storage.Faults.Unharmed.{repair_on-IsUnharmed}
use ot_collector.Storage.Lines.{lines, has_null, sanitize_line, trim_front, trim_back}
use ot_collector.Storage.Reads.{events_of, last, read_filtered-last}
use ot_collector.Storage.Appends.{IsRecord, IsWhole, append_lem}
use ot_collector.Storage.Repairs.{repair_keeps}
use ot_collector.GoText.{to_lower, trim_space, replace_byte}
use ot_collector.Filter.{drop_decision}
use ot_collector.Storage.Query.{EventQuery, matches_query}
use ot_collector.Processor.{baseline, enrich}
use ot_collector.Processor.Unfound.{nozomi, unfound_by_own_type}
use ot_collector.Tests.Collector.{world}
use ot_collector.Tests.{pump, letter}

abbrev everything : EventQuery
everything = record {
  limit = pos 1;
  source_type = "";
  severity = "";
  category = "";
  asset_ip = "";
  search = "";
}

-- Two records with a broken line in between.
abbrev file : List ℕ
file = 123 ∷ 65 ∷ 125 ∷ 10 ∷ 66 ∷ 10 ∷ 123 ∷ 65 ∷ 125 ∷ 10 ∷ []

-- The codec's record of an event it knows.
pump-IsRecord : IsRecord letter pump (123 ∷ 65 ∷ 125 ∷ [])
unfolding has_null parse_line sanitize_line trim_front trim_back
pump-IsRecord = record {
  marshalled = refl;
  no_newline = (refl, (refl, (refl, tt)));
  middle = 65 ∷ [];
  in_braces = refl;
  no_null = refl;
  reads_back = refl;
}

append_lem_example :
    ((append letter works pump file).1 ≡ none)
    × (events_of letter (lines (append letter works pump file).0)
        ≡ events_of letter (lines file) ++ pump ∷ [])
    × IsWhole (append letter works pump file).0
append_lem_example = append_lem letter pump (123 ∷ 65 ∷ 125 ∷ []) file pump-IsRecord refl

read_filtered-last_example :
    read_filtered letter everything (some file)
    ≡ last
        (if is_pos everything.limit then pos_part everything.limit else 100)
        (keep (λ (e : Event). matches_query e everything) (events_of letter (lines file)))
read_filtered-last_example = read_filtered-last letter everything file

-- What the codec reads is the event that it knows.
some-pump : (b : Bool) {e : Event} → (if b then some pump else none) ≡ some e → pump ≡ e
some-pump true h = cc
some-pump false h = cc

trimmed_pump :
    (l : List ℕ) {e : Event}
    → elim l as (λ _. Option Event) [ [] ↦ none | b ∷ bs ↦ letter.unmarshal (b ∷ bs) ] ≡ some e
    → pump ≡ e
trimmed_pump [] h = cc
trimmed_pump (b ∷ bs) h = some-pump _ h

rewrites :
    (line : List ℕ) (e : Event)
    → parse_line letter line ≡ some e
    → (bytes : List ℕ) × IsRecord letter e bytes
unfolding parse_line
rewrites line e h = (
  123 ∷ 65 ∷ 125 ∷ [],
  subst (λ e. IsRecord letter e (123 ∷ 65 ∷ 125 ∷ [])) (trimmed_pump (sanitize_line line) h)
      pump-IsRecord,
)

repair_keeps_example :
    (out : List ℕ) × (report : RepairReport) × (repair letter (some file)
      ≡ (some out, report, none))
    × (events_of letter (lines out) ≡ events_of letter (lines file))
    × IsWhole out
    × (report.valid_lines ≡ length (events_of letter (lines file)))
    × (report.valid_lines + report.invalid_lines ≡ length (lines file))
repair_keeps_example = repair_keeps letter rewrites file

-- The disk is full when the first record has been written again.
abbrev full : RepairFaults
full = record faultless { writes = some 1 }

repair_on-IsUnharmed_example : (repair_on letter full (some file)).0 ≡ some file
unfolding repair_on finish_on repair_loop_on repair_line_on readable read_end lines sanitize_line
    trim_front trim_back
repair_on-IsUnharmed_example = repair_on-IsUnharmed letter full (some file) write_failed refl

abbrev asset_found : Event
asset_found = record pump { source_type = "Nozomi" }

unfound_by_own_type_example :
    matches_query
      (enrich "api" (drop_decision "rule_drop" "r1") false (baseline world "OT" asset_found))
      (record everything { source_type = " nozomi " })
    ≡ false
unfolding to_lower trim_space replace_byte
unfound_by_own_type_example =
    unfound_by_own_type world "OT" "api" (drop_decision "rule_drop" "r1") false asset_found
      (record everything { source_type = " nozomi " }) "nozomi" "ids" nozomi refl refl
