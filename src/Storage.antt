-- ===== src/Storage.antt =====
-- internal/storage/jsonl.go: the file of events, one JSON object to a line, as its bytes. The JSON
-- codec of an event is a parameter.
pub mod Lines
pub mod Query
pub mod Reads
pub mod Appends
pub mod Repairs
pub mod Faults
use ot_collector.Prelude.{
  ℕ, ◌+◌, String, Bool, true, false, not, ◌&&◌, ◌||◌, Option, none, some, List, [], ◌∷◌, ◌++◌, ℤ,
  pos, is_pos, pos_part, length, drop, take, ltb, ◌==◌, if◌then◌else◌,
}
use ot_collector.Event.{Event}
use Lines.{lines, sanitize_line, has_null, newline}
use Query.{EventQuery, matches_query}

pub record Codec : Type 0 where
  pub marshal : Event → Option (List ℕ)
  pub unmarshal : List ℕ → Option Event

pub data Error : Type 0 where
  mkdir_failed open_failed marshal_failed null_byte write_failed short_write read_failed
        create_failed close_failed rename_failed :
      Error

-- What the file system answers to Append. A write that fails, or is short, leaves a prefix.
pub data Disk : Type 0 where
  no_directory : Disk
  no_file : Disk
  works : Disk
  fails_after : ℕ → Disk
  is_short : ℕ → Disk

unfoldable pub write_bytes : Disk → List ℕ → List ℕ → List ℕ × Option Error
write_bytes no_directory bytes file = (file, some mkdir_failed)
write_bytes no_file bytes file = (file, some open_failed)
write_bytes works bytes file = (file ++ bytes, none)
write_bytes (fails_after n) bytes file = (file ++ take n bytes, some write_failed)
write_bytes (is_short n) bytes file = (file ++ take n bytes, some short_write)

-- The steps of Append that come before the record is made.
abbrev reaches_file : Disk → Option Error
reaches_file no_directory = some mkdir_failed
reaches_file no_file = some open_failed
reaches_file _ = none

-- if limit <= 0 { limit = 100 }
unfoldable pub limit_of : EventQuery → ℕ
limit_of q = if is_pos q.limit then pos_part q.limit else 100

pub record RepairReport : Type 0 where
  pub valid_lines : ℕ
  pub invalid_lines : ℕ
  pub null_lines : ℕ
  pub bytes_written : ℕ

abbrev pub empty_report : RepairReport
empty_report = record { valid_lines = 0; invalid_lines = 0; null_lines = 0; bytes_written = 0 }

-- Repair after some lines: it goes on with the bytes written, or it has returned an error.
pub data Repairing : Type 0 where
  going : List ℕ → RepairReport → Repairing
  stopped : RepairReport → Repairing

abbrev pub finish_repair :
    Option (List ℕ) → Repairing → Option (List ℕ) × RepairReport × Option Error
finish_repair file (going out report) = (some out, report, none)
finish_repair file (stopped report) = (file, report, some marshal_failed)

module _ (codec : Codec) where
  -- Append
  unfoldable pub append : Disk → Event → List ℕ → List ℕ × Option Error
  append d evt file = elim (reaches_file d) [
    | some e ↦ (file, some e)
    | none ↦ elim (codec.marshal evt) [
      | none ↦ (file, some marshal_failed)
      | some bytes ↦
          if has_null bytes
          then (file, some null_byte)
          else write_bytes d (bytes ++ newline ∷ []) file
    ]
  ]

  -- parseLine; json.Unmarshal is made of what is not empty
  unfoldable pub parse_line : List ℕ → Option Event
  parse_line line = elim (sanitize_line line) [ [] ↦ none | b ∷ bs ↦ codec.unmarshal (b ∷ bs) ]

  -- One round of the loop of ReadFiltered: the window of at most `limit` events.
  unfoldable pub read_line : EventQuery → List ℕ → List Event → List Event
  read_line q line window = elim (parse_line line) [
    | none ↦ window
    | some e ↦
        if not (matches_query e q)
        then window
        else (let longer = window ++ e ∷ [] in
            if ltb (limit_of q) (length longer) then drop 1 longer else longer)
  ]

  unfoldable pub read_loop : EventQuery → List (List ℕ) → List Event → List Event
  read_loop q [] window = window
  read_loop q (line ∷ rest) window = read_loop q rest (read_line q line window)

  -- ReadFiltered, of a file that is missing (none) or can be read
  unfoldable pub read_filtered : EventQuery → Option (List ℕ) → List Event
  read_filtered q none = []
  read_filtered q (some file) = read_loop q (lines file) []

  -- One round of the loop of Repair.
  unfoldable pub repair_line : List ℕ → List ℕ → RepairReport → Repairing
  repair_line line out report = elim (sanitize_line line) [
    | [] ↦ going out (record report {
      invalid_lines = report.invalid_lines + 1;
      null_lines = if has_null line then report.null_lines + 1 else report.null_lines;
    })
    | b ∷ bs ↦ elim (codec.unmarshal (b ∷ bs)) [
      | none ↦ going out (record report { invalid_lines = report.invalid_lines + 1 })
      | some evt ↦ elim (codec.marshal evt) [
        | none ↦ stopped report
        | some bytes ↦ going (out ++ (bytes ++ newline ∷ [])) (record report {
          valid_lines = report.valid_lines + 1;
          bytes_written = report.bytes_written + length bytes + 1;
        })
      ]
    ]
  ]

  unfoldable pub repair_loop : List (List ℕ) → Repairing → Repairing
  repair_loop [] s = s
  repair_loop (line ∷ rest) (stopped report) = stopped report
  repair_loop (line ∷ rest) (going out report) = repair_loop rest (repair_line line out report)

  -- Repair, of a file that is missing (none) or can be read, on a disk that works; the new bytes
  -- replace the file by a rename.
  unfoldable pub repair : Option (List ℕ) → Option (List ℕ) × RepairReport × Option Error
  repair none = (none, empty_report, none)
  repair (some file) = finish_repair (some file) (repair_loop (lines file) (going [] empty_report))
