-- ===== src/Collector/Appends.antt =====
-- The event file over a run: only a repair rewrites it.
use mathlib.Core.List.{append-nil, append_assoc}
use ot_collector.Prelude.{
  ℕ, ◌≡◌, ◌≢◌, refl, sym, ap, ◌∙◌, Option, none, some, List, [], ◌∷◌, ◌++◌, Bool-cases,
  Option-cases, inl, inr, All, take, if◌then◌else◌,
}
use ot_collector.Event.{Event}
use ot_collector.Storage
use ot_collector.Storage.{
  Disk, append, write_bytes, no_directory, no_file, works, fails_after, is_short,
}
use ot_collector.Storage.Lines.{has_null, newline}
use ot_collector.Processor.{Processor}
use ot_collector.Api.Routes.{storage_repair, route}
use ot_collector.Api.Server.{Formats}
use ot_collector.Collector.{
  Collector, Happening, requested, arrives, takes_line, streams, leaves, takes_task, finishes, run,
}
use ot_collector.Collector.Stepwise.{IsStepwise, stepwise-IsClosed}
use ot_collector.Collector.Runs.{MayRepair, run_closed}

-- The second file is the first with something behind it.
abbrev pub Continues : List ℕ → List ℕ → Type 0
Continues file later = (more : List ℕ) × (later ≡ file ++ more)

-- Not a request for a repair.
abbrev pub RepairsNothing : Happening → Type 0
RepairsNothing (requested t r) = route r.path ≢ some storage_repair
RepairsNothing _ = Unit

Continues-refl : (file : List ℕ) → Continues file file
Continues-refl file = ([], sym (append-nil file))

write_bytes-Continues :
    (d : Disk) (bytes file : List ℕ) → Continues file (write_bytes d bytes file).0
unfolding write_bytes
write_bytes-Continues no_directory bytes file = Continues-refl file
write_bytes-Continues no_file bytes file = Continues-refl file
write_bytes-Continues works bytes file = (bytes, refl)
write_bytes-Continues (fails_after n) bytes file = (take n bytes, refl)
write_bytes-Continues (is_short n) bytes file = (take n bytes, refl)

record_Continues :
    (codec : Storage.Codec) (d : Disk) (evt : Event) (file : List ℕ)
    → Continues file
        (elim (codec.marshal evt) as (λ _. List ℕ × Option Storage.Error) [
          | none ↦ (file, some Storage.marshal_failed)
          | some bytes ↦
              if has_null bytes
              then (file, some Storage.null_byte)
              else write_bytes d (bytes ++ newline ∷ []) file
        ]).0
record_Continues codec d evt file = elim (Option-cases (codec.marshal evt)) [
  | inl e ↦ rw e (Continues-refl file)
  | inr (bytes, e) ↦ elim (Bool-cases (has_null bytes)) [
    | inl null ↦ rw (e, null) (Continues-refl file)
    | inr clean ↦ rw (e, clean) (write_bytes-Continues d _ file)
  ]
]

append-Continues :
    (codec : Storage.Codec) (d : Disk) (evt : Event) (file : List ℕ)
    → Continues file (append codec d evt file).0
unfolding append
append-Continues codec no_directory evt file = Continues-refl file
append-Continues codec no_file evt file = Continues-refl file
append-Continues codec works evt file = record_Continues codec works evt file
append-Continues codec (fails_after n) evt file = record_Continues codec (fails_after n) evt file
append-Continues codec (is_short n) evt file = record_Continues codec (is_short n) evt file

Continues-trans :
    (file later last : List ℕ) → Continues file later → Continues later last → Continues file last
Continues-trans file later last (more, e) (rest, e') =
    (more ++ rest, e' ∙ ap (λ x. x ++ rest) e ∙ append_assoc file more rest)

module _ (codec : Storage.Codec) (file : List ℕ) where
  Continues-IsStepwise : IsStepwise codec (λ p. Continues file p.file)
  Continues-IsStepwise = record {
    decides = λ e p h. h;
    appends = λ d evt p h. Continues-trans file p.file _ h (append-Continues codec d evt p.file);
    publishes = λ evt p h. h;
    counts = λ c p h. h;
    enqueues = λ t q p e h. h;
    drains = λ q p e h. h;
    takes = λ busy q p e h. h;
    sets = λ s fw p h. h;
    joins = λ p h. h;
    leaves = λ id p h. h;
    receives = λ id p h. h;
  }

may_repair :
    (P : Processor → Type 0) (xs : List Happening) → All RepairsNothing xs → All (MayRepair P) xs
may_repair P [] _ = tt
may_repair P (requested t r ∷ xs) h = (λ e. absurd (h.0 e), may_repair P xs h.1)
may_repair P (arrives log ∷ xs) h = (tt, may_repair P xs h.1)
may_repair P (takes_line w go ∷ xs) h = (tt, may_repair P xs h.1)
may_repair P (streams id ∷ xs) h = (tt, may_repair P xs h.1)
may_repair P (leaves id ∷ xs) h = (tt, may_repair P xs h.1)
may_repair P (takes_task ∷ xs) h = (tt, may_repair P xs h.1)
may_repair P (finishes n d ∷ xs) h = (tt, may_repair P xs h.1)

-- The event file is append-only: over any run of the collector in which no request goes to
-- /storage/repair, whatever else is requested, arrives or is sent and whatever the disk does, the
-- file keeps every byte that it had, in its place, and what is new stands behind.
pub run-Continues :
    (f : Formats) (xs : List Happening) (c : Collector)
    → All RepairsNothing xs
    → Continues c.api.processor.file (run f xs c).api.processor.file
run-Continues f xs c none_repairs =
    let file = c.api.processor.file in
    run_closed f (λ p. Continues file p.file)
      (stepwise-IsClosed f (λ p. Continues file p.file) (Continues-IsStepwise f.storage file)) xs c
      (may_repair (λ p. Continues file p.file) xs none_repairs) (Continues-refl file)
