-- ===== src/Storage/Lines.antt =====
-- The lines of a file, and the bytes that are trimmed from them.
use ot_collector.Prelude.{ℕ, Bool, false, ◌||◌, List, [], ◌∷◌, ◌==◌, if◌then◌else◌}

abbrev pub newline : ℕ
newline = 10

-- A byte in front of the first line.
abbrev pub push_byte : ℕ → List (List ℕ) → List (List ℕ)
push_byte b [] = (b ∷ []) ∷ []
push_byte b (l ∷ ls) = (b ∷ l) ∷ ls

-- What ReadBytes('\n') returns, one call after another: each line with its newline, the last one
-- perhaps without.
unfoldable pub lines : List ℕ → List (List ℕ)
lines [] = []
lines (b ∷ bs) = let rest = lines bs in if b == newline then (b ∷ []) ∷ rest else push_byte b rest

-- The bytes of "\x00\r\n\t ".
abbrev pub is_padding : ℕ → Bool
is_padding b = b == 0 || b == 13 || b == 10 || b == 9 || b == 32

unfoldable pub trim_front : List ℕ → List ℕ
trim_front [] = []
trim_front (b ∷ bs) = if is_padding b then trim_front bs else b ∷ bs

abbrev pub push_kept : ℕ → List ℕ → List ℕ
push_kept b [] = if is_padding b then [] else b ∷ []
push_kept b (c ∷ bs) = b ∷ c ∷ bs

unfoldable pub trim_back : List ℕ → List ℕ
trim_back [] = []
trim_back (b ∷ bs) = push_kept b (trim_back bs)

-- sanitizeJSONLLine
unfoldable pub sanitize_line : List ℕ → List ℕ
sanitize_line line = trim_back (trim_front line)

-- bytes.IndexByte(line, 0) >= 0
unfoldable pub has_null : List ℕ → Bool
has_null [] = false
has_null (b ∷ bs) = b == 0 || has_null bs
