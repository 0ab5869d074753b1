-- ===== src/Users/Lines.antt =====
-- bufio.Scanner as setIDEntry drives it: the lines of a text, and the two errors of a scan.
use bb_action_router.Base.{
  Text, ℕ, ◌*◌, Bool, true, ◌&&◌, Option, none, some, List, [], ◌∷◌, map, ltb, ◌==◌, if◌then◌else◌,
  length,
}
use bb_action_router.Status.{Error, Result, ok, err, status, unknown}

-- One more byte at the front of the first line.
unfoldable pub cons_byte : ℕ → List Text → List Text
cons_byte c [] = (c ∷ []) ∷ []
cons_byte c (line ∷ lines) = (c ∷ line) ∷ lines

-- The lines without their newlines. Behind the last newline there is a line if there is a byte.
unfoldable pub split_lines : Text → List Text
split_lines [] = []
split_lines (c ∷ s) = let rest = split_lines s in if c == b'\n' then [] ∷ rest else cons_byte c rest

-- A carriage return at the end of a line is dropped.
unfoldable pub drop_cr : Text → Text
drop_cr [] = []
drop_cr (c ∷ []) = if c == b'\r' then [] else c ∷ []
drop_cr (c ∷ d ∷ s) = c ∷ drop_cr (d ∷ s)

-- bufio.MaxScanTokenSize: a line and its newline fit into a buffer of this size.
abbrev pub max_scan_token_size : ℕ
max_scan_token_size = 64 * 1024

unfoldable pub fits : List Text → Bool
fits [] = true
fits (line ∷ lines) = ltb (length line) max_scan_token_size && fits lines

-- The lines of a reader that holds the text, and then ends or fails.
unfoldable pub scan : Text → Option Error → Result (List Text)
scan s failure =
    if fits (split_lines s)
    then elim failure [ none ↦ ok (map drop_cr (split_lines s)) | some e ↦ err e ]
    else err (status unknown "bufio.Scanner: token too long")
