-- ===== src/Storage/Faults/Unharmed.antt =====
-- What a repair that fails leaves behind, and a repair that does not.
use ot_collector.Prelude.{ℕ, ◌≡◌, refl, ap, ◌∙◌, Option, none, some, List, [], ◌∷◌, arith}
use ot_collector.Storage.{
  Codec, Error, RepairReport, empty_report, Repairing, going, stopped, marshal_failed, repair_line,
  repair_loop, repair, finish_repair,
}
use ot_collector.Storage.Lines.{lines}
use ot_collector.Storage.Faults.{
  RepairFaults, Attempt, writing, given_up, faultless, readable, read_end, repair_line_on,
  repair_loop_on, finish_on, repair_on,
}

-- No error, or the file as it was.
abbrev IsUnharmed : Option (List ℕ) → Option (List ℕ) × RepairReport × Option Error → Type 0
IsUnharmed file r = (e : Error) → r.2 ≡ some e → r.0 ≡ file

module _ (codec : Codec) (fl : RepairFaults) where
  finish_on-IsUnharmed :
      (file : List ℕ) (a : Attempt) → IsUnharmed (some file) (finish_on codec fl file a)
  unfolding finish_on
  finish_on-IsUnharmed file (given_up report err) e h = refl
  finish_on-IsUnharmed file (writing out report) e h = ground arith

  -- A repair that fails changes nothing: whatever fails, the event file is afterwards what it was.
  pub repair_on-IsUnharmed :
      (file : Option (List ℕ)) (e : Error)
      → (repair_on codec fl file).2 ≡ some e
      → (repair_on codec fl file).0 ≡ file
  unfolding repair_on
  repair_on-IsUnharmed none e h = ground arith
  repair_on-IsUnharmed (some file) e h =
      let u =
        finish_on-IsUnharmed file
          (repair_loop_on codec fl.writes (lines (readable fl.input file))
            (writing [] empty_report))
          e in
      ground arith

module _ (codec : Codec) where
  abbrev lifted : Repairing → Attempt
  lifted (going out report) = writing out report
  lifted (stopped report) = given_up report marshal_failed

  line_lifted :
      (line out : List ℕ) (report : RepairReport)
      → repair_line_on codec none line out report ≡ lifted (repair_line codec line out report)
  unfolding repair_line_on repair_line
  line_lifted line out report = ground arith

  loop_lifted :
      (ls : List (List ℕ)) (s : Repairing)
      → repair_loop_on codec none ls (lifted s) ≡ lifted (repair_loop codec ls s)
  unfolding repair_loop_on repair_loop
  loop_lifted [] s = refl
  loop_lifted (line ∷ ls) (stopped report) = refl
  loop_lifted (line ∷ ls) (going out report) =
      ap (repair_loop_on codec none ls) (line_lifted line out report)
      ∙ loop_lifted ls (repair_line codec line out report)

  finish_lifted :
      (file : List ℕ) (s : Repairing)
      → finish_on codec faultless file (lifted s) ≡ finish_repair (some file) s
  unfolding finish_on read_end
  finish_lifted file (going out report) = refl
  finish_lifted file (stopped report) = refl

  -- On a disk that does not fail, this is Repair as the rest of the development has it.
  pub repair_on-repair :
      (file : Option (List ℕ)) → repair_on codec faultless file ≡ repair codec file
  unfolding repair_on repair finish_on readable read_end
  repair_on-repair none = refl
  repair_on-repair (some file) =
      ap (finish_on codec faultless file) (loop_lifted (lines file) (going [] empty_report))
      ∙ finish_lifted file (repair_loop codec (lines file) (going [] empty_report))
