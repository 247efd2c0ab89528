-- ===== src/Config/Store.antt =====
pub mod Reload
pub mod Items
-- What internal/config/rules_config.go and sources_config.go share, line by line: a list of items
-- with an id, in memory and in a file. The JSON codec is a parameter; `encode` and `decode` may
-- fail.
use ot_collector.Prelude.{
  String, Bool, true, false, not, Option, none, some, List, [], ◌∷◌, ◌++◌, str_eq, if◌then◌else◌,
  keep, ◌≡◌,
}

pub data Error : Type 0 where
  mkdir_failed read_failed decode_failed encode_failed write_failed : Error

-- The answer of os.WriteFile. A write that fails leaves what it leaves.
pub data Write : Type 0 where
  written : Write
  broken : Option String → Write

-- The answer of os.ReadFile.
pub data Read : Type 0 where
  missing : Read
  unreadable : Read
  contents : String → Read

pub record Codec (A : Type 0) : Type 0 where
  pub encode : List A → Option String
  pub decode : String → Option (List A)

-- A store in memory, and its file.
pub record Store (A : Type 0) : Type 0 where
  pub items : List A
  pub file : Option String

pub record Kind (A : Type 0) : Type 0 where
  pub id : A → String
  pub sanitize : List A → List A
  pub defaults : List A

module _ {A : Type 0} (codec : Codec A) where
  -- persistLocked
  unfoldable pub persist : Write → Store A → Store A × Option Error
  persist w s = elim (codec.encode s.items) [
    | none ↦ (s, some encode_failed)
    | some b ↦ elim w [
      | written ↦ (record s { file = some b }, none)
      | broken rest ↦ (record s { file = rest }, some write_failed)
    ]
  ]

  module _ (kind : Kind A) where
    -- Replace
    unfoldable pub replace : Write → List A → Store A → Store A × Option Error
    unfolding persist
    replace w xs s = persist w (record s { items = kind.sanitize xs })

    -- The loop of Upsert: the first item with the id is overwritten, or the item is appended.
    unfoldable pub put_item : A → List A → List A
    put_item one [] = one ∷ []
    put_item one (x ∷ xs) =
        if str_eq (kind.id x) (kind.id one) then one ∷ xs else x ∷ put_item one xs

    -- Upsert
    unfoldable pub upsert : Write → A → Store A → Store A × Option Error
    unfolding persist put_item
    upsert w one s = persist w (record s { items = kind.sanitize (put_item one s.items) })

    -- Delete
    unfoldable pub delete : Write → String → Store A → Store A × Option Error
    unfolding persist
    delete w id s = persist w (record s { items = keep (λ x. not (str_eq (kind.id x) id)) s.items })

    -- if len(arr) == 0 { arr = defaults }
    unfoldable pub or_defaults : List A → List A
    or_defaults [] = kind.defaults
    or_defaults (x ∷ xs) = x ∷ xs

    -- json.Unmarshal, made only of a file that is not empty
    unfoldable pub parse_file : String → Option (List A)
    parse_file b = if str_eq b "" then some [] else codec.decode b

    -- loadOrInit, from an answer to os.MkdirAll and one to os.ReadFile
    unfoldable pub load_or_init : Bool → Read → Write → Store A → Store A × Option Error
    unfolding persist or_defaults parse_file
    load_or_init false r w s = (s, some mkdir_failed)
    load_or_init true missing w s = persist w (record s { items = kind.defaults })
    load_or_init true unreadable w s = (s, some read_failed)
    load_or_init true (contents b) w s = elim (parse_file b) [
      | none ↦ (s, some decode_failed)
      | some arr ↦ persist w (record s { items = kind.sanitize (or_defaults arr) })
    ]
