-- ===== src/Output/Agrees.antt =====
-- `ParseSymbolizeAddrOutput` against the reference reader, on every text.
use sanitizer_symbolizer_too.Prelude.{
  ℕ, zero, suc, ◌+◌, ◌-◌, ◌≤◌, ◌<◌, ◌≡◌, ◌≢◌, refl, sym, ap, ◌∙◌, inl, inr, Option, none, some,
  List, [], ◌∷◌, ◌++◌, arith, Bytes, codes, ◌==◌, Bool-cases, length, append_assoc, append-nil,
  Outcome, ok, die, undefined, spent, then_do,
}
use sanitizer_symbolizer_too.Clib.{elem, strcspn}
use sanitizer_symbolizer_too.Clib.Laws.{NoneOf}
use sanitizer_symbolizer_too.Info.{chars, FrameDat, AddrInfo}
use sanitizer_symbolizer_too.Token.{extract_token}
use sanitizer_symbolizer_too.Token.Splits.{extract_token-none}
use sanitizer_symbolizer_too.Output.{
  unknown_to_null, cut_unknown_line, FileLine, number_rounds, parse_file_line_info, clean_file,
  parse_frame, frames_loop, parse_symbolize_addr_output,
}
use sanitizer_symbolizer_too.Output.Numbers.{last_of, number_rounds-take}
use sanitizer_symbolizer_too.Output.Lines.{length-ne-zero}
use sanitizer_symbolizer_too.Output.Total.{length-extract_token-le}
use sanitizer_symbolizer_too.Output.Reader.{
  onto, lines, number_at_end, value, before_number, place_at_end, read_line, read_frames,
}
use sanitizer_symbolizer_too.Output.Ends.{number_at_end_sound, number_rounds-none}

-- File, line and column, as the loop leaves them.
abbrev result_of : Outcome FileLine → Outcome (Bytes × ℕ × ℕ)
result_of r = then_do r λ s. ok (s.text, s.lin, s.col)

abbrev start : Bytes → ℕ → ℕ → FileLine
start text lin col = record { text = text; back = last_of text; lin = lin; col = col }

second_round :
    (front : Bytes) (n : ℕ) (found : Option (Bytes × Bytes))
    → number_at_end front ≡ found
    → result_of (number_rounds 1 (start front n 0)) ≡ before_number front n found
unfolding number_rounds
second_round [] n found e = refl
second_round (c ∷ s) n none e =
    let (b, stopped) = number_rounds-none 0 n 0 (c ∷ s) (λ nil. cc) e in rw stopped refl
second_round (c ∷ s) n (some (front, ds)) e =
    let (split, ne, digits) = number_at_end_sound (c ∷ s) e in
    ap (λ t. result_of (number_rounds 1 (start t n 0))) split
    ∙ rw (number_rounds-take front ds ne digits 0 n 0) refl

both_rounds :
    (line : Bytes) (found : Option (Bytes × Bytes))
    → line ≢ []
    → number_at_end line ≡ found
    → result_of (number_rounds 2 (start line 0 0)) ≡ place_at_end line found
both_rounds line none ne e =
    let (b, stopped) = number_rounds-none 1 0 0 line ne e in rw stopped refl
both_rounds line (some (front, ds)) ne e =
    let (split, ne', digits) = number_at_end_sound line e in
    ap (λ t. result_of (number_rounds 2 (start t 0 0))) split
    ∙ rw (number_rounds-take front ds ne' digits 1 0 0)
        (second_round front (value ds) (number_at_end front) refl)

NoneOf-nil : (s : Bytes) → NoneOf [] s
unfolding elem
NoneOf-nil [] = tt
NoneOf-nil (c ∷ s) = (refl, NoneOf-nil s)

whole_token : (s : Bytes) → (extract_token s []).0 ≡ s
whole_token s = ap (λ r. r.0) (extract_token-none s [] (NoneOf-nil s))

-- What ParseFileLineInfo and then ParseSymbolizeAddrOutput make of the result of the loop.
abbrev stored : Bytes → Bytes → FileLine → Outcome (FrameDat × Bytes)
stored func rest s = ok (
  record { func = chars func; file = chars (extract_token s.text []).0; lin = s.lin; col = s.col },
  rest,
)

abbrev cleaned : Bytes → FrameDat × Bytes → Outcome (FrameDat × Bytes)
cleaned func (frame, rest) =
    then_do (clean_file frame.file frame.lin)
      λ file. ok (record frame { func = unknown_to_null func; file = file }, rest)

abbrev frame_at : Bytes → Bytes × ℕ × ℕ → Outcome FrameDat
frame_at func (file, lin, col) = ok (record {
  func = unknown_to_null func;
  file = unknown_to_null (cut_unknown_line file lin);
  lin = lin;
  col = col;
})

abbrev in_front_of : Bytes → FrameDat → Outcome (FrameDat × Bytes)
in_front_of rest frame = ok (frame, rest)

finish :
    (func rest : Bytes) (r : Outcome FileLine)
    → then_do (then_do r (stored func rest)) (cleaned func)
      ≡ then_do (then_do (result_of r) (frame_at func)) (in_front_of rest)
unfolding clean_file
finish func rest (ok s) = rw (whole_token s.text) refl
finish func rest die = refl
finish func rest undefined = refl
finish func rest spent = refl

frame_line :
    (func line rest text : Bytes)
    → extract_token text (codes "\n") ≡ (line, rest)
    → parse_frame func text ≡ then_do (read_line func line) λ frame. ok (frame, rest)
unfolding parse_frame parse_file_line_info read_line clean_file
frame_line func [] rest text e = rw e refl
frame_line func (c ∷ s) rest text e =
    let last : length (c ∷ s) - 1 ≡ length s = omega arith in
    rw
      (
        e,
        length-ne-zero {s = c ∷ s} (λ nil. cc),
        last,
        ← both_rounds (c ∷ s) (number_at_end (c ∷ s)) (λ nil. cc) refl,
      )
      (finish func rest (number_rounds 2 (start (c ∷ s) 0 0)))

-- The first line, and the lines behind it.
lines_step :
    (c : ℕ) (s : Bytes)
    → lines (c ∷ s)
      ≡ (extract_token (c ∷ s) (codes "\n")).0 ∷ lines (extract_token (c ∷ s) (codes "\n")).1
unfolding lines extract_token strcspn elem
lines_step c [] = elim (Bool-cases (c == b'\n')) [ inl stop ↦ rw stop refl | inr go ↦ rw go refl ]
lines_step c (d ∷ s) = elim (Bool-cases (c == b'\n')) [
  | inl stop ↦ rw stop refl
  | inr go ↦ rw go (ap (onto c) (lines_step d s))
]

-- Old frames in front.
abbrev behind : List FrameDat → Outcome (List FrameDat) → Outcome (List FrameDat)
behind old r = then_do r λ new. ok (old ++ new)

behind-cons :
    (old : List FrameDat) (f : FrameDat) (r : Outcome (List FrameDat))
    → behind (old ++ f ∷ []) r ≡ behind old (then_do r λ new. ok (f ∷ new))
behind-cons old f (ok new) = ap ok (append_assoc old (f ∷ []) new)
behind-cons old f die = refl
behind-cons old f undefined = refl
behind-cons old f spent = refl

-- Behind a frame is what the rest of the loop reads.
module _ (fuel : ℕ)
    (ih : (t : Bytes) (old : List FrameDat)
      → length t < fuel
      → frames_loop fuel t old ≡ behind old (read_frames (lines t))) where
  frame_then :
      (old : List FrameDat) (rest : Bytes) (r : Outcome FrameDat)
      → length rest < fuel
      → then_do
          (then_do r (in_front_of rest))
          (λ (frame, str). frames_loop fuel str (old ++ frame ∷ []))
        ≡ behind old
            (then_do r λ frame. then_do (read_frames (lines rest)) λ frames. ok (frame ∷ frames))
  frame_then old rest (ok frame) h =
      ih rest (old ++ frame ∷ []) h ∙ behind-cons old frame (read_frames (lines rest))
  frame_then old rest die h = refl
  frame_then old rest undefined h = refl
  frame_then old rest spent h = refl

  -- The loop behind a function name.
  named :
      (old : List FrameDat) (func rest : Bytes)
      → func ≢ []
      → length rest < fuel
      → then_do (parse_frame func rest) (λ (frame, str). frames_loop fuel str (old ++ frame ∷ []))
        ≡ behind old (read_frames (func ∷ lines rest))
  unfolding read_frames lines read_line extract_token strcspn
  named old [] rest ne h = absurd (ne refl)
  named old (d ∷ f) [] ne h = rw (frame_line (d ∷ f) [] [] [] refl) refl
  named old (d ∷ f) (x ∷ r) ne h =
      let line = (extract_token (x ∷ r) (codes "\n")).0 in
      let rest = (extract_token (x ∷ r) (codes "\n")).1 in
      rw (frame_line (d ∷ f) line rest (x ∷ r) refl, lines_step x r)
        (frame_then old rest (read_line (d ∷ f) line)
          (omega (arith, length-extract_token-le (x ∷ r) (codes "\n"))))

  round :
      (text : Bytes) (old : List FrameDat) (func rest : Bytes)
      → extract_token text (codes "\n") ≡ (func, rest)
      → lines text ≡ func ∷ lines rest
      → length func + length rest ≤ fuel
      → frames_loop (suc fuel) text old ≡ behind old (read_frames (lines text))
  unfolding frames_loop read_frames
  round text old [] rest e split h = rw (e, frames_loop, split, append-nil) refl
  round text old (d ∷ f) rest e split h =
      rw (e, frames_loop, length-ne-zero {s = d ∷ f} (λ nil. cc), split)
        (named old (d ∷ f) rest (λ nil. cc) (omega arith))

frames_loop-read_frames :
    (fuel : ℕ) (text : Bytes) (old : List FrameDat)
    → length text < fuel
    → frames_loop fuel text old ≡ behind old (read_frames (lines text))
unfolding frames_loop read_frames lines extract_token strcspn
frames_loop-read_frames zero text old h = absurd (omega arith)
frames_loop-read_frames (suc fuel) [] old h = ap ok (sym (append-nil old))
frames_loop-read_frames (suc fuel) (c ∷ s) old h =
    round fuel (frames_loop-read_frames fuel) (c ∷ s) old (extract_token (c ∷ s) (codes "\n")).0
      (extract_token (c ∷ s) (codes "\n")).1 refl (lines_step c s)
      (omega (arith, length-extract_token-le (c ∷ s) (codes "\n")))

-- On every text ParseSymbolizeAddrOutput does what the reference reader does: the text is
-- split into lines, frames are read from two lines each up to an empty line or the end, and of
-- a second line the numbers behind its last and its next to last colon are taken, if these are
-- digits to the end; the frames are appended to those of the structure. Both are undefined on
-- the same texts: where the second line of a frame is missing or empty, or nothing stands
-- before the colon of its last number.
pub parse_symbolize_addr_output-read_frames :
    (str : Bytes) (res : AddrInfo)
    → parse_symbolize_addr_output str res
      ≡ then_do
          (read_frames (lines str))
          λ frames. ok (record res { frames = res.frames ++ frames })
unfolding parse_symbolize_addr_output
parse_symbolize_addr_output-read_frames str res =
    rw (frames_loop-read_frames (length str + 1) str res.frames (omega arith))
      (collect (read_frames (lines str)))
  where
    collect :
        (r : Outcome (List FrameDat))
        → then_do (behind res.frames r) (λ frames. ok (record res { frames = frames }))
          ≡ then_do r λ frames. ok (record res { frames = res.frames ++ frames })
    collect (ok frames) = refl
    collect die = refl
    collect undefined = refl
    collect spent = refl
