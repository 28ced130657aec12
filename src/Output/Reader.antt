-- ===== src/Output/Reader.antt =====
-- A reference reader of the symbolizers' replies for code addresses: line by line, and from the end of
-- a line to its colons. `ParseSymbolizeAddrOutput` is compared with it.
use sanitizer_symbolizer_too.Prelude.{
  ℕ, Bool, true, ◌&&◌, Option, none, some, List, [], ◌∷◌, Bytes, ◌==◌, if◌then◌else◌, Outcome, ok,
  undefined, then_do,
}
use sanitizer_symbolizer_too.Clib.Number.{atoll, to_uptr}
use sanitizer_symbolizer_too.Common.{is_digit}
use sanitizer_symbolizer_too.Info.{FrameDat}
use sanitizer_symbolizer_too.Output.{unknown_to_null, cut_unknown_line}

-- A byte in front of the first line.
abbrev pub onto : ℕ → List Bytes → List Bytes
onto c [] = (c ∷ []) ∷ []
onto c (line ∷ ls) = (c ∷ line) ∷ ls

-- The lines of a text. A line break ends a line, and the last line may go without.
unfoldable pub lines : Bytes → List Bytes
lines [] = []
lines (c ∷ s) = let rest = lines s in if c == b'\n' then [] ∷ rest else onto c rest

unfoldable pub all_digits : Bytes → Bool
all_digits [] = true
all_digits (c ∷ s) = is_digit c && all_digits s

-- What stands before the last colon, and behind it.
unfoldable pub split_last : Bytes → Option (Bytes × Bytes)
split_last [] = none
split_last (c ∷ s) = elim (split_last s) [
  | some (front, behind) ↦ some (c ∷ front, behind)
  | none ↦ if c == b':' then some ([], s) else none
]

-- Only a number counts.
abbrev pub numeral : Option (Bytes × Bytes) → Option (Bytes × Bytes)
numeral none = none
numeral (some (front, [])) = none
numeral (some (front, d ∷ ds)) = if all_digits (d ∷ ds) then some (front, d ∷ ds) else none

-- A number at the end of a line, behind a colon, and what is before the colon.
abbrev pub number_at_end : Bytes → Option (Bytes × Bytes)
number_at_end text = numeral (split_last text)

abbrev pub value : Bytes → ℕ
value ds = to_uptr (atoll ds)

-- File, line and column, where the last number is `n`. With nothing before its colon the bytes in
-- front of the text would be read.
abbrev pub before_number : Bytes → ℕ → Option (Bytes × Bytes) → Outcome (Bytes × ℕ × ℕ)
before_number [] n found = undefined
before_number (c ∷ s) n none = ok (c ∷ s, n, 0)
before_number (c ∷ s) n (some (front, ds)) = ok (front, value ds, n)

abbrev pub place_at_end : Bytes → Option (Bytes × Bytes) → Outcome (Bytes × ℕ × ℕ)
place_at_end line none = ok (line, 0, 0)
place_at_end line (some (front, ds)) = before_number front (value ds) (number_at_end front)

-- A frame, of its two lines. The second must not be empty.
unfoldable pub read_line : Bytes → Bytes → Outcome FrameDat
read_line func [] = undefined
read_line func (c ∷ s) = then_do (place_at_end (c ∷ s) (number_at_end (c ∷ s))) λ (file, lin, col).
    ok (record {
      func = unknown_to_null func;
      file = unknown_to_null (cut_unknown_line file lin);
      lin = lin;
      col = col;
    })

-- Frames of two lines each, up to an empty line or the end.
unfoldable pub read_frames : List Bytes → Outcome (List FrameDat)
unfolding read_line
read_frames [] = ok []
read_frames ([] ∷ ls) = ok []
read_frames ((c ∷ func) ∷ []) = undefined
read_frames ((c ∷ func) ∷ line ∷ ls) =
    then_do (read_line (c ∷ func) line)
      λ frame. then_do (read_frames ls) λ frames. ok (frame ∷ frames)
