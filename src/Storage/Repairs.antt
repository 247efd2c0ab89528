-- ===== src/Storage/Repairs.antt =====
-- What Repair does to a file.
use ot_collector.Prelude.{
  ℕ, ◌+◌, ◌≡◌, refl, sym, ap, ◌∙◌, ◌⊎◌, none, some, List, [], ◌∷◌, ◌++◌, arith, length,
  Option-cases, inl, inr, if◌then◌else◌,
}
use mathlib.Core.List.{append_assoc, append-nil}
use ot_collector.Event.{Event}
use ot_collector.Storage.{
  Codec, parse_line, going, RepairReport, empty_report, repair_line, repair_loop, repair,
}
use ot_collector.Storage.Lines.{lines, newline, sanitize_line, has_null}
use ot_collector.Storage.Reads.{events_of, events_of-none, events_of-some}
use ot_collector.Storage.Appends.{IsWhole, IsRecord, record_added, IsWhole-append}

-- The report of a line that is left out.
abbrev left_out : List ℕ → RepairReport → RepairReport
left_out line r = elim (sanitize_line line) [
  | [] ↦ record r {
    invalid_lines = r.invalid_lines + 1;
    null_lines = if has_null line then r.null_lines + 1 else r.null_lines;
  }
  | b ∷ bs ↦ record r { invalid_lines = r.invalid_lines + 1 }
]

abbrev kept : List ℕ → RepairReport → RepairReport
kept bytes r = record r {
  valid_lines = r.valid_lines + 1;
  bytes_written = r.bytes_written + length bytes + 1;
}

list_cases : (l : List ℕ) → (l ≡ []) ⊎ ((b : ℕ) × (bs : List ℕ) × (l ≡ b ∷ bs))
list_cases [] = inl refl
list_cases (b ∷ bs) = inr (b, bs, refl)

module _ (codec : Codec) where
  repair_line-none :
      (line out : List ℕ) (r : RepairReport)
      → parse_line codec line ≡ none
      → repair_line codec line out r ≡ going out (left_out line r)
  unfolding repair_line parse_line
  repair_line-none line out r broken = elim (list_cases (sanitize_line line)) [
    | inl e ↦ rw (e, repair_line, left_out)
    | inr (b, bs, e) ↦
        let not_json : codec.unmarshal (b ∷ bs) ≡ none = rw (e, parse_line) at broken in
        rw (e, repair_line, left_out) (rw not_json)
  ]

  repair_line-some :
      (line out bytes : List ℕ) (r : RepairReport) {evt : Event}
      → parse_line codec line ≡ some evt
      → codec.marshal evt ≡ some bytes
      → repair_line codec line out r ≡ going (out ++ (bytes ++ newline ∷ [])) (kept bytes r)
  unfolding repair_line parse_line
  repair_line-some line out bytes r {evt} parsed marshalled =
      elim (list_cases (sanitize_line line)) [
        | inl e ↦ cc (rw (e, parse_line) at parsed)
        | inr (b, bs, e) ↦
            let json : codec.unmarshal (b ∷ bs) ≡ some evt = rw (e, parse_line) at parsed in
            rw (e, repair_line) (rw json (rw marshalled))
      ]

-- Repair from the bytes `out` and the report `r` over the lines `ls`: what it has in the end.
pub record Repairs (codec : Codec) (ls : List (List ℕ)) (out : List ℕ) (r : RepairReport)
    : Type 0 where
  pub bytes : List ℕ
  pub report : RepairReport
  pub finished : repair_loop codec ls (going out r) ≡ going bytes report
  pub events : events_of codec (lines bytes) ≡ events_of codec (lines out) ++ events_of codec ls
  pub whole : IsWhole bytes
  pub valid : report.valid_lines ≡ r.valid_lines + length (events_of codec ls)
  pub counted :
      report.valid_lines + report.invalid_lines ≡ r.valid_lines + r.invalid_lines + length ls

module _ (codec : Codec)
    (rewrites : (line : List ℕ) (evt : Event)
      → parse_line codec line ≡ some evt
      → (bytes : List ℕ) × IsRecord codec evt bytes) where
  left_out_counts :
      (line : List ℕ) (r : RepairReport)
      → ((left_out line r).valid_lines ≡ r.valid_lines)
        × ((left_out line r).invalid_lines ≡ r.invalid_lines + 1)
  left_out_counts line r = elim (list_cases (sanitize_line line)) [
    | inl e ↦ rw (e, left_out) (refl, refl)
    | inr (b, bs, e) ↦ rw (e, left_out) (refl, refl)
  ]

  repairs :
      (ls : List (List ℕ)) (out : List ℕ) (r : RepairReport) → IsWhole out → Repairs codec ls out r
  unfolding repair_loop
  repairs [] out r whole = record {
    bytes = out;
    report = r;
    finished = refl;
    events = unfold events_of in sym (append-nil _);
    whole = whole;
    valid = unfold events_of in omega arith;
    counted = omega arith;
  }
  repairs (line ∷ ls) out r whole = elim (Option-cases (parse_line codec line)) [
    | inl broken ↦
        let rest = repairs ls out (left_out line r) whole in
        let (same, more) = left_out_counts line r in
        let skipped = events_of-none codec line ls broken in
        record {
          bytes = rest.bytes;
          report = rest.report;
          finished = rw (repair_line-none codec line out r broken) rest.finished;
          events = rw skipped rest.events;
          whole = rest.whole;
          valid = rw skipped (rest.valid ∙ ap (λ (n : ℕ). n + length (events_of codec ls)) same);
          counted = omega (arith, rest.counted);
        }
    | inr (evt, parsed) ↦
        let (bytes, rec) = rewrites line evt parsed in
        let out' = out ++ (bytes ++ newline ∷ []) in
        let rest = repairs ls out' (kept bytes r) (IsWhole-append out bytes) in
        let found = events_of-some codec line ls parsed in
        record {
          bytes = rest.bytes;
          report = rest.report;
          finished =
              rw (repair_line-some codec line out bytes r parsed rec.marshalled) rest.finished;
          events = rw found (
              rest.events
              ∙ ap (λ t. t ++ events_of codec ls) (record_added codec evt bytes out rec whole)
              ∙ append_assoc _ (evt ∷ []) (events_of codec ls));
          whole = rest.whole;
          valid = rw found (omega (arith, rest.valid));
          counted = omega (arith, rest.counted);
        }
  ]

  -- Repair loses no event. If the codec writes every event that it reads from a line as an object in
  -- braces, with no newline and no null byte, that it decodes to the event again, Repair of any file ends with no error; the file that it leaves holds the same
  -- events in the same order, and is whole, so that the next append starts on a line of its own;
  -- and the report counts each line of the old file once, the valid ones being those events.
  pub repair_keeps :
      (file : List ℕ)
      → (out : List ℕ) × (report : RepairReport) × (repair codec (some file)
          ≡ (some out, report, none))
        × (events_of codec (lines out) ≡ events_of codec (lines file))
        × IsWhole out
        × (report.valid_lines ≡ length (events_of codec (lines file)))
        × (report.valid_lines + report.invalid_lines ≡ length (lines file))
  unfolding repair
  repair_keeps file =
      let done = repairs (lines file) [] empty_report tt in
      (
        done.bytes,
        done.report,
        rw done.finished,
        unfold lines events_of in done.events,
        done.whole,
        omega (arith, done.valid),
        omega (arith, done.counted),
      )
