-- ===== src/Storage/Faults.antt =====
-- ReadFiltered and Repair of internal/storage/jsonl.go on a disk that may fail. A write of part of a
-- record is an error of the write.
pub mod Unharmed
use ot_collector.Prelude.{
  ℕ, ◌+◌, ◌≡◌, ◌⊎◌, refl, sym, ap, ◌∙◌, Bool, true, false, not, Option, none, some, List, [], ◌∷◌,
  ◌++◌, take, length, ◌==◌, if◌then◌else◌, Bool-cases, Option-cases, List-cases, inl, inr,
}
use ot_collector.Event.{Event}
use ot_collector.Storage.{
  Codec, Error, open_failed, marshal_failed, write_failed, read_failed, create_failed, close_failed,
  rename_failed, RepairReport, empty_report, Repairing, going, stopped, repair_line, repair_loop,
  read_filtered, repair,
}
use ot_collector.Storage.Lines.{lines, sanitize_line, has_null, newline}
use ot_collector.Storage.Query.{EventQuery}

-- What the disk does to a file that is read: nothing, an error of os.Open that is not ErrNotExist, or
-- an error of a read when some bytes have come.
pub data ReadFault : Type 0 where
  reads : ReadFault
  cannot_open : ReadFault
  fails_at : ℕ → ReadFault

-- The bytes that come.
unfoldable pub readable : ReadFault → List ℕ → List ℕ
readable reads file = file
readable cannot_open file = []
readable (fails_at n) file = take n file

-- What follows the last byte that came.
unfoldable pub read_end : ReadFault → Option Error
read_end reads = none
read_end cannot_open = some open_failed
read_end (fails_at n) = some read_failed

-- What the disk does in a repair; `writes` is how many records it takes before it refuses one.
pub record RepairFaults : Type 0 where
  pub input : ReadFault
  pub creates : Bool
  pub writes : Option ℕ
  pub closes_output : Bool
  pub closes_input : Bool
  pub renames : Bool

abbrev pub faultless : RepairFaults
faultless = record {
  input = reads;
  creates = true;
  writes = none;
  closes_output = true;
  closes_input = true;
  renames = true;
}

-- Repair after some lines: the bytes of the temporary file, or an error.
pub data Attempt : Type 0 where
  writing : List ℕ → RepairReport → Attempt
  given_up : RepairReport → Error → Attempt

abbrev refuses : Option ℕ → ℕ → Bool
refuses writes n = elim writes [ none ↦ false | some m ↦ m == n ]

module _ (codec : Codec) where
  -- ReadFiltered
  unfoldable pub read_filtered_on : ReadFault → EventQuery → Option (List ℕ) → Option (List Event)
  read_filtered_on fault q none = elim fault [ cannot_open ↦ none | _ ↦ some [] ]
  read_filtered_on fault q (some file) = elim (read_end fault) [
    | none ↦ some (read_filtered codec q (some file))
    | some e ↦ none
  ]

  -- One round of the loop of Repair.
  unfoldable pub repair_line_on : Option ℕ → List ℕ → List ℕ → RepairReport → Attempt
  repair_line_on writes line out report = elim (sanitize_line line) [
    | [] ↦ writing out (record report {
      invalid_lines = report.invalid_lines + 1;
      null_lines = if has_null line then report.null_lines + 1 else report.null_lines;
    })
    | b ∷ bs ↦ elim (codec.unmarshal (b ∷ bs)) [
      | none ↦ writing out (record report { invalid_lines = report.invalid_lines + 1 })
      | some evt ↦ elim (codec.marshal evt) [
        | none ↦ given_up report marshal_failed
        | some bytes ↦
            if refuses writes report.valid_lines
            then given_up report write_failed
            else writing (out ++ (bytes ++ newline ∷ [])) (record report {
              valid_lines = report.valid_lines + 1;
              bytes_written = report.bytes_written + length bytes + 1;
            })
      ]
    ]
  ]

  unfoldable pub repair_loop_on : Option ℕ → List (List ℕ) → Attempt → Attempt
  repair_loop_on writes [] a = a
  repair_loop_on writes (line ∷ rest) (given_up report e) = given_up report e
  repair_loop_on writes (line ∷ rest) (writing out report) =
      repair_loop_on writes rest (repair_line_on writes line out report)

  -- The end of Repair, from the end of the file.
  unfoldable pub finish_on :
      RepairFaults → List ℕ → Attempt → Option (List ℕ) × RepairReport × Option Error
  finish_on fl file (given_up report e) = (some file, report, some e)
  finish_on fl file (writing out report) = elim (read_end fl.input) [
    | some e ↦ (some file, report, some e)
    | none ↦
        if not fl.closes_output
        then (some file, report, some close_failed)
        else if not fl.closes_input
        then (some file, report, some close_failed)
        else if not fl.renames
        then (some file, report, some rename_failed)
        else (some out, report, none)
  ]

  -- Repair
  unfoldable pub repair_on :
      RepairFaults → Option (List ℕ) → Option (List ℕ) × RepairReport × Option Error
  repair_on fl none = elim fl.input [
    | cannot_open ↦ (none, empty_report, some open_failed)
    | _ ↦ (none, empty_report, none)
  ]
  repair_on fl (some file) = elim fl.input [
    | cannot_open ↦ (some file, empty_report, some open_failed)
    | _ ↦
        if not fl.creates
        then (some file, empty_report, some create_failed)
        else finish_on fl file
            (repair_loop_on fl.writes (lines (readable fl.input file)) (writing [] empty_report))
  ]
