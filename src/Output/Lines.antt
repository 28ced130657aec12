-- ===== src/Output/Lines.antt =====
-- The lines `<file>:<line>[:<column>]` and `<file>:?`, and what `ParseFileLineInfo` reads in them.
use sanitizer_symbolizer_too.Prelude.{
  ℕ, ◌+◌, ◌-◌, ◌≤◌, ◌≡◌, ◌≢◌, refl, sym, ◌∙◌, true, false, [], ◌∷◌, ◌++◌, arith, Bytes, codes, ◌==◌,
  length, length-append, All-append, All-map, append_assoc, ok, undefined, then_do,
}
use sanitizer_symbolizer_too.Clib.{elem, byte_at}
use sanitizer_symbolizer_too.Clib.Laws.{NoneOf}
use sanitizer_symbolizer_too.Clib.Number.{
  atoll, to_uptr, decimal, decimal-ne-nil, decimal-IsDigit, to_uptr-atoll-decimal, llong_max,
}
use sanitizer_symbolizer_too.Common.{is_digit}
use sanitizer_symbolizer_too.Common.Names.{HasNo}
use sanitizer_symbolizer_too.Info.{chars, FrameDat}
use sanitizer_symbolizer_too.Token.{extract_token}
use sanitizer_symbolizer_too.Token.Splits.{extract_token-append, extract_token-none}
use sanitizer_symbolizer_too.Output.{
  FileLine, number_rounds, parse_file_line_info, skip_digits_back,
}
use sanitizer_symbolizer_too.Output.Numbers.{
  Digits, last_of, step_back-pos, length-pos_of, number_rounds-take, number_rounds-stop,
  byte_at-append, skip_digits_back_lem, HasNo-stop,
}

-- What a symbolizer prints behind a file name.
pub data Place : Type 0 where
  unknown : Place
  at_line : ℕ → Place
  at_column : ℕ → ℕ → Place

unfoldable pub print_place : Place → Bytes
print_place unknown = codes ":?"
print_place (at_line n) = b':' ∷ decimal n
print_place (at_column l c) = b':' ∷ (decimal l ++ b':' ∷ decimal c)

-- A file name has no line break. With a line and no column it has no colon either, since
-- `name:7:12` would be read as line 7 and column 12 of `name`.
abbrev pub FitsPlace : Bytes → Place → Type 0
FitsPlace file unknown = Unit {0}
FitsPlace file (at_line n) = (n ≤ llong_max) × HasNo b':' file
FitsPlace file (at_column l c) = (l ≤ llong_max) × (c ≤ llong_max)

-- What the structure holds after the line is read. The `:?` stays in the file name.
unfoldable pub place_read : FrameDat → Bytes → Place → FrameDat
place_read info file unknown = record info { file = chars (file ++ codes ":?") }
place_read info file (at_line n) = record info { file = chars file; lin = n; col = info.lin }
place_read info file (at_column l c) = record info { file = chars file; lin = l; col = c }

pub HasNo-NoneOf : (d : ℕ) (s : Bytes) → HasNo d s → NoneOf (d ∷ []) s
unfolding elem
HasNo-NoneOf d s h = All-map _ _ (λ c e. rw e refl) s h

NoneOf-nil : (s : Bytes) → NoneOf [] s
unfolding elem
NoneOf-nil [] = tt
NoneOf-nil (c ∷ s) = (refl, NoneOf-nil s)

whole_token : (s : Bytes) → extract_token s [] ≡ (s, [])
whole_token s = extract_token-none s [] (NoneOf-nil s)

pub newline-elem : elem b'\n' (codes "\n") ≡ true
unfolding elem
newline-elem = refl

-- The variables before the first round.
abbrev start : FrameDat → Bytes → FileLine
start info line = record { text = line; back = last_of line; lin = info.lin; col = info.col }

pub length-ne-zero : {s : Bytes} → s ≢ [] → (length s == 0) ≡ false
length-ne-zero {s} h = let p = length-pos_of h in ground arith

-- A line that is not empty is read by the two rounds.
pub parse_line :
    (info : FrameDat) (line rest : Bytes)
    → line ≢ []
    → HasNo b'\n' line
    → parse_file_line_info info (line ++ b'\n' ∷ rest)
      ≡ then_do
          (number_rounds 2 (start info line))
          λ s. ok (record info { file = chars s.text; lin = s.lin; col = s.col }, rest)
unfolding parse_file_line_info
parse_line info line rest ne h =
    rw
      (
        extract_token-append line b'\n' rest (codes "\n") (HasNo-NoneOf b'\n' line h) newline-elem,
        length-ne-zero ne,
        ← step_back-pos (length line) (length-pos_of ne),
      )
      (simp whole_token)

Digits-HasNo : (d : ℕ) (s : Bytes) → is_digit d ≡ false → Digits s → HasNo d s
Digits-HasNo d s h = All-map _ _ (λ c e. ground arith) s

pub decimal-HasNo : (d n : ℕ) → is_digit d ≡ false → HasNo d (decimal n)
decimal-HasNo d n h = Digits-HasNo d (decimal n) h (decimal-IsDigit n)

-- The rounds on a text that the walk leaves at no colon.
rounds_stop :
    (info : FrameDat) (line rest : Bytes)
    → line ≢ []
    → HasNo b'\n' line
    → (byte_at line (skip_digits_back line (length line - 1)) == b':') ≡ false
    → parse_file_line_info info (line ++ b'\n' ∷ rest)
      ≡ ok (record info { file = chars line }, rest)
rounds_stop info line rest ne h stop =
    let (b, e) = number_rounds-stop 1 info.lin info.col line ne stop in
    parse_line info line rest ne h ∙ rw e

pub append-ne-nil : (s : Bytes) (c : ℕ) (t : Bytes) → s ++ c ∷ t ≢ []
append-ne-nil [] c t e = cc
append-ne-nil (d ∷ s) c t e = cc

-- The walk over `<file>:?` stays at the question mark.
unknown_stop :
    (file : Bytes)
    → (byte_at
          (file ++ codes ":?")
          (skip_digits_back (file ++ codes ":?") (length (file ++ codes ":?") - 1))
        == b':')
      ≡ false
unfolding byte_at
unknown_stop file =
    let last = byte_at-append file (codes ":?") 1 in
    let at : length (file ++ codes ":?") - 1 ≡ length file + 1 =
      omega (arith, length-append file (codes ":?")) in
    rw
      (
        at,
        skip_digits_back_lem (file ++ codes ":?") (length file + 1) (length file + 1) (omega arith)
            (λ i p q. absurd (omega arith)) (rw last refl),
        last,
      )
      refl

module _ (info : FrameDat) (file rest : Bytes) (ne : file ≢ []) (one_line : HasNo b'\n' file) where
  -- `<file>:?`
  read_unknown :
      parse_file_line_info info ((file ++ codes ":?") ++ b'\n' ∷ rest)
      ≡ ok (place_read info file unknown, rest)
  unfolding place_read
  read_unknown =
      rounds_stop info (file ++ codes ":?") rest (append-ne-nil file _ _)
        (All-append _ file _ one_line (refl, (refl, tt))) (unknown_stop file)

  -- `<file>:<line>`
  read_line :
      (n : ℕ)
      → n ≤ llong_max
      → HasNo b':' file
      → parse_file_line_info info ((file ++ b':' ∷ decimal n) ++ b'\n' ∷ rest)
        ≡ ok (place_read info file (at_line n), rest)
  unfolding place_read
  read_line n fits no_colon =
      let (b, e) = number_rounds-stop 0 n info.lin file ne (HasNo-stop file ne no_colon) in
      parse_line info (file ++ b':' ∷ decimal n) rest (append-ne-nil file _ _)
        (All-append _ file _ one_line (refl, decimal-HasNo b'\n' n refl))
      ∙ rw (
        number_rounds-take file (decimal n) (decimal-ne-nil n) (decimal-IsDigit n) 1 info.lin
            info.col,
        to_uptr-atoll-decimal n fits,
        e,
      )

  -- `<file>:<line>:<column>`, whatever colons the file name holds.
  read_column :
      (l c : ℕ)
      → l ≤ llong_max
      → c ≤ llong_max
      → parse_file_line_info info ((file ++ b':' ∷ (decimal l ++ b':' ∷ decimal c)) ++ b'\n' ∷ rest)
        ≡ ok (place_read info file (at_column l c), rest)
  unfolding place_read number_rounds
  read_column l c fits_l fits_c =
      let one = file ++ b':' ∷ decimal l in
      let regroup : file ++ b':' ∷ (decimal l ++ b':' ∷ decimal c) ≡ one ++ b':' ∷ decimal c =
        sym (append_assoc file (b':' ∷ decimal l) (b':' ∷ decimal c)) in
      rw regroup (
        parse_line info (one ++ b':' ∷ decimal c) rest (append-ne-nil one _ _) (
          All-append _ one _ (All-append _ file _ one_line (refl, decimal-HasNo b'\n' l refl))
            (refl, decimal-HasNo b'\n' c refl))
        ∙ rw (
          number_rounds-take one (decimal c) (decimal-ne-nil c) (decimal-IsDigit c) 1 info.lin
              info.col,
          number_rounds-take file (decimal l) (decimal-ne-nil l) (decimal-IsDigit l) 0
              (to_uptr (atoll (decimal c))) info.lin,
          to_uptr-atoll-decimal l fits_l,
          to_uptr-atoll-decimal c fits_c,
          number_rounds,
        ))

  -- ParseFileLineInfo reads each of the forms `file:line:column`, `file:line` and `file:?` as
  -- place_read says: file name, line and column are taken from the first, in the second the
  -- column is the line that the structure held, and in the third the name keeps the `:?` and the
  -- numbers stay. The file name is not empty and holds no line break, the numbers are at most
  -- LLONG_MAX, and in the second form the name holds no colon.
  pub parse_file_line_info-print_place :
      (place : Place)
      → FitsPlace file place
      → parse_file_line_info info ((file ++ print_place place) ++ b'\n' ∷ rest)
        ≡ ok (place_read info file place, rest)
  unfolding print_place
  parse_file_line_info-print_place unknown fits = read_unknown
  parse_file_line_info-print_place (at_line n) fits = read_line n fits.0 fits.1
  parse_file_line_info-print_place (at_column l c) fits = read_column l c fits.0 fits.1

-- A line that is a colon and digits makes the second round read in front of the text.
pub parse_file_line_info_colon :
    (info : FrameDat) (ds rest : Bytes)
    → ds ≢ []
    → Digits ds
    → parse_file_line_info info ((b':' ∷ ds) ++ b'\n' ∷ rest) ≡ undefined
unfolding number_rounds
parse_file_line_info_colon info ds rest ne digits =
    parse_line info (b':' ∷ ds) rest (λ e. cc) (refl, Digits-HasNo b'\n' ds refl digits)
    ∙ rw (number_rounds-take [] ds ne digits 1 info.lin info.col, number_rounds) refl
