-- ===== src/Output/Total.antt =====
-- `ParseSymbolizeAddrOutput` on any text at all: it ends, and what it may do.
use sanitizer_symbolizer_too.Prelude.{
  ℕ, zero, suc, ◌+◌, ◌-◌, ◌≤◌, ◌<◌, ◌≡◌, ◌≢◌, refl, ap, ◌∙◌, ◌⊎◌, inl, inr, some, List, [], ◌∷◌,
  ◌++◌, arith, Bytes, codes, ◌==◌, Bool-cases, Option-cases, length, length-append, All,
  append_assoc, append-nil, Outcome, ok, undefined,
}
use sanitizer_symbolizer_too.Clib.{strcmp_eq, strcspn, elem}
use sanitizer_symbolizer_too.Common.Names.{HasNo}
use sanitizer_symbolizer_too.Info.{CharPtr, indeterminate, nullptr, chars, FrameDat, AddrInfo}
use sanitizer_symbolizer_too.Token.{extract_token}
use sanitizer_symbolizer_too.Token.Splits.{
  Split, whole, before, extract_token-Split, extract_token-append,
}
use sanitizer_symbolizer_too.Output.{
  FileLine, take_number, skip_digits_back, no_number, number_rounds, parse_file_line_info,
  unknown_to_null, cut_unknown_line, clean_file, parse_frame, frames_loop,
  parse_symbolize_addr_output,
}
use sanitizer_symbolizer_too.Output.Numbers.{Digits}
use sanitizer_symbolizer_too.Output.Lines.{
  HasNo-NoneOf, newline-elem, length-ne-zero, parse_file_line_info_colon,
}
use sanitizer_symbolizer_too.Output.Frames.{
  Printed, Fits, print_frames, frames_loop-print_frames, length-print_frames-le,
}

-- A token and what is left behind it fit into the text.
pub length-extract_token-le :
    (str delims : Bytes)
    → length (extract_token str delims).0 + length (extract_token str delims).1 ≤ length str
length-extract_token-le str delims = go (extract_token-Split str delims).1
  where
    go : {tok rest : Bytes} → Split str delims tok rest → length tok + length rest ≤ length str
    go {tok} {rest} (whole e r) = rw (e, r) (omega arith)
    go {tok} {rest} (before d m e) = rw e (omega (arith, length-append tok (d ∷ rest)))

-- What a step on a text may give: undefined behaviour, or a value and what is left of the text.
data Steps {A : Type 0} (P : A → Type 0) (bound : ℕ) (r : Outcome (A × Bytes)) : Type 0 where
  faults : r ≡ undefined → Steps P bound r
  steps : (a : A) (rest : Bytes) → P a → length rest ≤ bound → r ≡ ok (a, rest) → Steps P bound r

abbrev Rounds : Outcome FileLine → Type 0
Rounds r = (r ≡ undefined) ⊎ ((s : FileLine) × (r ≡ ok s))

-- The loop over the numbers ends, or reads in front of the text.
number_rounds-Rounds : (rounds : ℕ) (s : FileLine) → Rounds (number_rounds rounds s)
unfolding number_rounds
number_rounds-Rounds zero s = inr (s, refl)
number_rounds-Rounds (suc rounds) s = elim (Option-cases s.back) [
  | inl e ↦ rw (e, number_rounds) (inl refl)
  | inr (start, e) ↦
      let b = skip_digits_back s.text start in
      let ih = number_rounds-Rounds rounds (take_number s b) in
      elim (Bool-cases (no_number s.text b)) [
        | inl stop ↦ rw (e, number_rounds, stop) (inr (record s { back = some b }, refl))
        | inr go ↦ rw (e, number_rounds, go) ih
      ]
]

parse_file_line_info-Steps :
    (info : FrameDat) (str : Bytes)
    → Steps (λ f. Unit {0}) (length str) (parse_file_line_info info str)
unfolding parse_file_line_info
parse_file_line_info-Steps info str =
    let line = (extract_token str (codes "\n")).0 in
    let rest = (extract_token str (codes "\n")).1 in
    let fits : length rest ≤ length str = omega (arith, length-extract_token-le str (codes "\n")) in
    elim (Bool-cases (length line == 0)) [
      | inl e ↦ rw e (steps info rest tt fits refl)
      | inr e ↦
          elim (number_rounds-Rounds 2 (record {
            text = line;
            back = some (length line - 1);
            lin = info.lin;
            col = info.col;
          })) [
            | inl fault ↦ rw (e, fault) (faults refl)
            | inr (s, found) ↦ rw (e, found) (steps _ rest tt fits refl)
          ]
    ]

-- A pointer that may be read.
abbrev pub IsValid : CharPtr → Type 0
IsValid indeterminate = ⊥
IsValid nullptr = Unit {0}
IsValid (chars s) = Unit {0}

unknown_to_null-IsValid : (s : Bytes) → IsValid (unknown_to_null s)
unknown_to_null-IsValid s = elim (Bool-cases (strcmp_eq s (codes "??"))) [
  | inl e ↦ rw e tt
  | inr e ↦ rw e tt
]

clean_file_cases :
    (file : CharPtr) (lin : ℕ)
    → (clean_file file lin ≡ undefined) ⊎ ((c : CharPtr) × (clean_file file lin ≡ ok c) × IsValid c)
unfolding clean_file
clean_file_cases indeterminate lin = inl refl
clean_file_cases nullptr lin = inr (nullptr, refl, tt)
clean_file_cases (chars file) lin =
    inr (unknown_to_null (cut_unknown_line file lin), refl, unknown_to_null-IsValid _)

-- Both pointers of a frame may be read.
abbrev pub IsReadable : FrameDat → Type 0
IsReadable f = IsValid f.func × IsValid f.file

parse_frame-Steps : (func str : Bytes) → Steps IsReadable (length str) (parse_frame func str)
unfolding parse_frame
parse_frame-Steps func str =
    elim (parse_file_line_info-Steps
      (record { func = chars func; file = indeterminate; lin = 0; col = 0 }) str) [
        | faults e ↦ rw e (faults refl)
        | steps frame rest _ fits e ↦ elim (clean_file_cases frame.file frame.lin) [
          | inl fault ↦ rw (e, fault) (faults refl)
          | inr (file, clean, set) ↦
              rw (e, clean) (steps _ rest (unknown_to_null-IsValid func, set) fits refl)
        ]
      ]

-- What a reading of frames may give: undefined behaviour, or the old frames with new ones behind.
data Appends (frames : List FrameDat) (r : Outcome (List FrameDat)) : Type 0 where
  faults : r ≡ undefined → Appends frames r
  appends : (new : List FrameDat) → All IsReadable new → r ≡ ok (frames ++ new) → Appends frames r

Appends-cons :
    {frames : List FrameDat} {r : Outcome (List FrameDat)} (f : FrameDat)
    → IsReadable f
    → Appends (frames ++ f ∷ []) r
    → Appends frames r
Appends-cons f h (faults e) = faults e
Appends-cons {frames} f h (appends new hs e) =
    appends (f ∷ new) (h, hs) (e ∙ ap ok (append_assoc frames (f ∷ []) new))

frames_loop-Appends :
    (fuel : ℕ) (str : Bytes) (frames : List FrameDat)
    → length str < fuel
    → Appends frames (frames_loop fuel str frames)
unfolding frames_loop
frames_loop-Appends zero str frames h = absurd (omega arith)
frames_loop-Appends (suc fuel) str frames h =
    let tok = (extract_token str (codes "\n")).0 in
    let rest = (extract_token str (codes "\n")).1 in
    let fits = length-extract_token-le str (codes "\n") in
    elim (Bool-cases (length tok == 0)) [
      | inl e ↦ rw e (appends [] tt (rw append-nil))
      | inr e ↦ elim (parse_frame-Steps tok rest) [
        | faults e' ↦ rw (e, e') (faults refl)
        | steps f rest' h' fits' e' ↦
            let shorter : length rest' < fuel = ground (arith, fits) in
            rw (e, e')
              (Appends-cons f h' (frames_loop-Appends fuel rest' (frames ++ f ∷ []) shorter))
      ]
    ]

-- The whole behaviour on any text: undefined, or a structure that differs in its frames only, with
-- new frames behind the old ones, and in those both pointers may be read.
abbrev pub Parses : AddrInfo → Outcome AddrInfo → Type 0
Parses res r =
    (r ≡ undefined)
    ⊎ ((new : List FrameDat) × (r ≡ ok (record res { frames = res.frames ++ new }))
        × All IsReadable new)

-- On every text the loop of ParseSymbolizeAddrOutput ends within its fuel and no CHECK fails,
-- and unless the behaviour is undefined the structure differs in its frames only: the old ones
-- are kept, and new ones stand behind them in which both pointers are null or point to a
-- string.
pub parse_symbolize_addr_output-Parses :
    (str : Bytes) (res : AddrInfo) → Parses res (parse_symbolize_addr_output str res)
unfolding parse_symbolize_addr_output
parse_symbolize_addr_output-Parses str res =
    elim (frames_loop-Appends (length str + 1) str res.frames (omega arith)) [
      | faults e ↦ rw e (inl refl)
      | appends new h e ↦ rw e (inr (new, refl, h))
    ]

-- The second lines of a frame that are not read as the code means to: an empty one, after which
-- the pointer that was never set is read, and a colon with digits and no file name.
pub data BadLine : Bytes → Type 0 where
  empty_line : {line : Bytes} → line ≡ [] → BadLine line
  colon_line : {line : Bytes} (ds : Bytes) → ds ≢ [] → Digits ds → line ≡ b':' ∷ ds → BadLine line

parse_frame-BadLine :
    (func rest : Bytes) {line : Bytes}
    → BadLine line
    → parse_frame func (line ++ b'\n' ∷ rest) ≡ undefined
unfolding parse_frame
parse_frame-BadLine func rest (empty_line e) =
    rw e (unfold parse_file_line_info clean_file extract_token strcspn elem in refl)
parse_frame-BadLine func rest (colon_line ds ne digits e) =
    rw
      (
        e,
        parse_file_line_info_colon
            (record { func = chars func; file = indeterminate; lin = 0; col = 0 }) ds rest ne
            digits,
      )
      refl

-- A reply in which, behind any printed frames that fit, a function name that is not empty is
-- followed by an empty line, or by a line of a colon and digits, makes
-- ParseSymbolizeAddrOutput undefined behaviour.
pub parse_symbolize_addr_output-BadLine :
    (ps : List Printed) (func line rest : Bytes) (res : AddrInfo)
    → All Fits ps
    → func ≢ []
    → HasNo b'\n' func
    → BadLine line
    → parse_symbolize_addr_output (print_frames ps (func ++ b'\n' ∷ (line ++ b'\n' ∷ rest))) res
      ≡ undefined
unfolding parse_symbolize_addr_output frames_loop
parse_symbolize_addr_output-BadLine ps func line rest res fits ne h bad =
    let tail = func ++ b'\n' ∷ (line ++ b'\n' ∷ rest) in
    let spare = length (print_frames ps tail) - length ps in
    let enough : length (print_frames ps tail) + 1 ≡ length ps + suc spare =
      omega (arith, length-print_frames-le ps tail) in
    rw
      (
        enough,
        frames_loop-print_frames ps (suc spare) tail res.frames fits,
        frames_loop,
        extract_token-append func b'\n' (line ++ b'\n' ∷ rest) (codes "\n")
            (HasNo-NoneOf b'\n' func h) newline-elem,
        length-ne-zero ne,
        parse_frame-BadLine func rest bad,
      )
      refl
