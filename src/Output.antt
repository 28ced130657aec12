-- ===== src/Output.antt =====
-- lib/use_llvm_symbolizer.cpp: the parsers of the symbolizers' replies.
pub mod Numbers
pub mod Lines
pub mod Frames
pub mod Total
pub mod Symbol
pub mod Reader
pub mod Ends
pub mod Agrees
use sanitizer_symbolizer_too.Prelude.{
  ℕ, zero, suc, ◌+◌, ◌-◌, Bool, not, ◌&&◌, ◌||◌, Option, none, some, List, [], ◌∷◌, ◌++◌, Bytes,
  codes, ltb, ◌==◌, if◌then◌else◌, length, take, drop, Outcome, ok, undefined, spent, then_do,
}
use sanitizer_symbolizer_too.Clib.{byte_at, strcmp_eq}
use sanitizer_symbolizer_too.Clib.Number.{atoll, to_uptr}
use sanitizer_symbolizer_too.Common.{is_digit}
use sanitizer_symbolizer_too.Info.{
  CharPtr, indeterminate, nullptr, chars, DataInfo, FrameDat, AddrInfo,
}
use sanitizer_symbolizer_too.Token.{extract_token, extract_uptr}

-- `while (back > file_line_info && IsDigit( *back)) --back;`, on the position of `back`.
unfoldable pub skip_digits_back : Bytes → ℕ → ℕ
skip_digits_back text zero = zero
skip_digits_back text (suc b) =
    if is_digit (byte_at text (suc b)) then skip_digits_back text b else suc b

-- The variables of the loop. `back` is a position, or `none` for the address in front of the text.
pub record FileLine : Type 0 where
  pub text : Bytes
  pub back : Option ℕ
  pub lin : ℕ
  pub col : ℕ

-- `back - 1`
abbrev pub step_back : ℕ → Option ℕ
step_back zero = none
step_back (suc b) = some b

-- `*back != ':' || !IsDigit(back[1])`
abbrev pub no_number : Bytes → ℕ → Bool
no_number text b = not (byte_at text b == b':') || not (is_digit (byte_at text (suc b)))

-- The body of the loop behind its test.
abbrev pub take_number : FileLine → ℕ → FileLine
take_number s b = record {
  text = take b s.text;
  back = step_back b;
  lin = to_uptr (atoll (drop (suc b) s.text));
  col = s.lin;
}

-- The loop over `i`, with the rounds left. A read in front of the text is undefined.
unfoldable pub number_rounds : ℕ → FileLine → Outcome FileLine
unfolding skip_digits_back
number_rounds zero s = ok s
number_rounds (suc rounds) s = elim s.back [
  | none ↦ undefined
  | some start ↦
      let b = skip_digits_back s.text start in
      let rest = number_rounds rounds (take_number s b) in
      if no_number s.text b then ok (record s { back = some b }) else rest
]

-- The result and the text behind the line. An empty line leaves `file` as it was.
unfoldable pub parse_file_line_info : FrameDat → Bytes → Outcome (FrameDat × Bytes)
parse_file_line_info info str =
    let (file_line_info, rest) = extract_token str (codes "\n") in
    let size = length file_line_info in
    if size == 0
    then ok (info, rest)
    else (then_do
        (number_rounds 2 (record {
          text = file_line_info;
          back = some (size - 1);
          lin = info.lin;
          col = info.col;
        }))
        λ s. ok (
          record info { file = chars (extract_token s.text []).0; lin = s.lin; col = s.col },
          rest,
        ))

-- `if (0 == strcmp(s, "??"))`, on a string that is not null.
abbrev pub unknown_to_null : Bytes → CharPtr
unknown_to_null s = if strcmp_eq s (codes "??") then nullptr else chars s

-- The cut of a ":?" at the end of the file name.
abbrev pub cut_unknown_line : Bytes → ℕ → Bytes
cut_unknown_line file lin =
    let size = length file in
    if lin == 0 && ltb 3 size && byte_at file (size - 2) == b':' && byte_at file (size - 1) == b'?'
    then take (size - 2) file
    else file

-- The two tests on `ThisFrame.file`. Both read the pointer.
unfoldable pub clean_file : CharPtr → ℕ → Outcome CharPtr
clean_file indeterminate lin = undefined
clean_file nullptr lin = ok nullptr
clean_file (chars file) lin = ok (unknown_to_null (cut_unknown_line file lin))

-- The loop's body, from the function name of a frame on.
unfoldable pub parse_frame : Bytes → Bytes → Outcome (FrameDat × Bytes)
parse_frame function_name str =
    then_do
      (parse_file_line_info
        (record { func = chars function_name; file = indeterminate; lin = 0; col = 0 }) str)
      λ (frame, rest).
        then_do (clean_file frame.file frame.lin)
          λ file. ok (record frame { func = unknown_to_null function_name; file = file }, rest)

-- `while (true)`, with fuel; `frames` is `res->frames`.
unfoldable pub frames_loop : ℕ → Bytes → List FrameDat → Outcome (List FrameDat)
frames_loop zero str frames = spent
frames_loop (suc fuel) str frames =
    let (function_name, rest) = extract_token str (codes "\n") in
    if length function_name == 0
    then ok frames
    else then_do (parse_frame function_name rest)
        λ (frame, str'). frames_loop fuel str' (frames ++ frame ∷ [])

unfoldable pub parse_symbolize_addr_output : Bytes → AddrInfo → Outcome AddrInfo
parse_symbolize_addr_output str res =
    then_do (frames_loop (length str + 1) str res.frames)
      λ frames. ok (record res { frames = frames })

-- The strings that it overwrites are not freed.
unfoldable pub parse_symbolize_data_output : Bytes → DataInfo → DataInfo
parse_symbolize_data_output str info =
    let (name, str1) = extract_token str (codes "\n") in
    let (start, str2) = extract_uptr str1 (codes " ") in
    let (size, str3) = extract_uptr str2 (codes "\n") in
    let (file, str4) = extract_token str3 (codes ":") in
    let (line, str5) = extract_uptr str4 (codes "\n") in
    record info { name = chars name; start = start; size = size; file = chars file; line = line }
