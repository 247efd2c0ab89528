-- ===== src/Config/Store/Reload.antt =====
-- What a restart finds of a store.
use ot_collector.Prelude.{
  String, true, false, none, some, List, ◌≡◌, str_eq, Option-cases, inl, inr,
}
use ot_collector.Config.Store.{
  Store, Codec, Kind, written, contents, persist, replace, or_defaults, parse_file, load_or_init,
}

module _ {A : Type 0} (codec : Codec A) (kind : Kind A) where
  -- The text that a list is saved as is read back as that list, and is not empty.
  pub record ReadsBack (xs : List A) (b : String) : Type 0 where
    pub encoded : codec.encode xs ≡ some b
    pub decoded : codec.decode b ≡ some xs
    pub not_empty : str_eq b "" ≡ false

  pub replace_saves :
      (xs : List A) (s : Store A) (b : String)
      → ReadsBack (kind.sanitize xs) b
      → replace codec kind written xs s ≡ (record { items = kind.sanitize xs; file = some b }, none)
  unfolding replace persist
  replace_saves xs s b h = rw (h.encoded, replace, persist)

  -- A start from a readable file and one that works.
  pub load_reads :
      (xs : List A) (b : String) (s : Store A)
      → codec.decode b ≡ some xs
      → str_eq b "" ≡ false
      → (load_or_init codec kind true (contents b) written s).0.items
        ≡ kind.sanitize (or_defaults codec kind xs)
  unfolding load_or_init persist
  load_reads xs b s decoded not_empty =
      let parsed : parse_file codec kind b ≡ some xs = rw (parse_file, not_empty) decoded in
      elim (Option-cases (codec.encode (kind.sanitize (or_defaults codec kind xs)))) [
        | inl failed ↦ rw (parsed, load_or_init) (rw (failed, persist))
        | inr (b', saved) ↦ rw (parsed, load_or_init) (rw (saved, persist))
      ]
