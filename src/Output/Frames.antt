-- ===== src/Output/Frames.antt =====
-- Whole replies for code addresses: a printer of frames, and what `ParseSymbolizeAddrOutput` reads.
use sanitizer_symbolizer_too.Prelude.{
  ℕ, zero, suc, ◌+◌, ◌-◌, ◌≤◌, ◌<◌, ◌≡◌, ◌≢◌, refl, ap, true, false, ◌⊎◌, inl, inr, List, [], ◌∷◌,
  ◌++◌, map, arith, Bytes, codes, ltb, ◌==◌, Bool-cases, length, length-append, take-append, All,
  append_assoc, append-nil, ok,
}
use native.Mathlib.Nat.{add-zero, zero-add, suc-add}
use sanitizer_symbolizer_too.Clib.{elem, byte_at, strcspn}
use sanitizer_symbolizer_too.Common.Names.{HasNo}
use sanitizer_symbolizer_too.Info.{indeterminate, chars, FrameDat, AddrInfo}
use sanitizer_symbolizer_too.Token.{extract_token}
use sanitizer_symbolizer_too.Token.Splits.{extract_token-append}
use sanitizer_symbolizer_too.Output.{
  unknown_to_null, cut_unknown_line, clean_file, parse_frame, frames_loop,
  parse_symbolize_addr_output,
}
use sanitizer_symbolizer_too.Output.Numbers.{byte_at-append, byte_at-All}
use sanitizer_symbolizer_too.Output.Lines.{
  Place, unknown, at_line, at_column, print_place, FitsPlace, place_read, HasNo-NoneOf,
  newline-elem, length-ne-zero, parse_file_line_info-print_place,
}

-- A frame as a symbolizer prints it.
pub record Printed : Type 0 where
  pub func : Bytes
  pub file : Bytes
  pub place : Place

-- The `:?` is cut from file names of two bytes and more. A column behind line 0 is read, and the
-- file name must then not end like the short form.
abbrev pub IsClean : Bytes → Place → Type 0
IsClean file unknown = 2 ≤ length file
IsClean file (at_line n) = Unit {0}
IsClean file (at_column l c) = (0 < l) ⊎ HasNo b':' file

pub record Fits (p : Printed) : Type 0 where
  pub func_ne_nil : p.func ≢ []
  pub func_line : HasNo b'\n' p.func
  pub file_ne_nil : p.file ≢ []
  pub file_line : HasNo b'\n' p.file
  pub fits_place : FitsPlace p.file p.place
  pub is_clean : IsClean p.file p.place

-- The text of a reply: two lines for each frame, and then `tail`.
unfoldable pub print_frames : List Printed → Bytes → Bytes
print_frames [] tail = tail
print_frames (p ∷ ps) tail =
    p.func ++ b'\n' ∷ ((p.file ++ print_place p.place) ++ b'\n' ∷ print_frames ps tail)

-- What a reader is to get: a null pointer for `??`, and 0 for a number that is not printed.
unfoldable pub frame_of : Printed → FrameDat
frame_of p = record {
  func = unknown_to_null p.func;
  file = unknown_to_null p.file;
  lin = elim p.place [ unknown ↦ 0 | at_line n ↦ n | at_column l c ↦ l ];
  col = elim p.place [ unknown ↦ 0 | at_line n ↦ 0 | at_column l c ↦ c ];
}

cut_unknown : (file : Bytes) → 2 ≤ length file → cut_unknown_line (file ++ codes ":?") 0 ≡ file
unfolding byte_at
cut_unknown file h =
    let size : length (file ++ codes ":?") ≡ length file + 2 = length-append file (codes ":?") in
    let colon = byte_at-append file (codes ":?") 0 in
    let mark = byte_at-append file (codes ":?") 1 in
    let short : length file + 2 - 2 ≡ length file + 0 = omega arith in
    let shorter : length file + 2 - 1 ≡ length file + 1 = omega arith in
    let long : ltb 3 (length file + 2) ≡ true = ground arith in
    rw (size, short, shorter, colon, mark, long) (rw add-zero (take-append file (codes ":?")))

cut_none : (file : Bytes) (lin : ℕ) → (0 < lin) ⊎ HasNo b':' file → cut_unknown_line file lin ≡ file
cut_none file lin (inl h) = let e : (lin == 0) ≡ false = ground arith in rw e refl
cut_none file lin (inr h) = elim (Bool-cases (ltb 3 (length file))) [
  | inl long ↦
      let no = byte_at-All (λ c. (c == b':') ≡ false) file (length file - 2) h (ground arith) in
      rw (long, no) (ground arith)
  | inr short ↦ rw short (ground arith)
]

clean_file-place_read :
    (info : FrameDat) (file : Bytes) (place : Place)
    → info.lin ≡ 0
    → FitsPlace file place
    → IsClean file place
    → clean_file (place_read info file place).file (place_read info file place).lin
      ≡ ok (unknown_to_null file)
unfolding clean_file place_read
clean_file-place_read info file unknown e fits clean = rw (e, cut_unknown file clean) refl
clean_file-place_read info file (at_line n) e fits clean = rw (cut_none file n (inr fits.1)) refl
clean_file-place_read info file (at_column l c) e fits clean = rw (cut_none file l clean) refl

-- A frame before its line is read.
abbrev fresh : Bytes → FrameDat
fresh func = record { func = chars func; file = indeterminate; lin = 0; col = 0 }

frame_of_read :
    (func file : Bytes) (place : Place)
    → record (place_read (fresh func) file place) {
      func = unknown_to_null func;
      file = unknown_to_null file;
    }
      ≡ frame_of (record { func = func; file = file; place = place })
unfolding place_read frame_of
frame_of_read func file unknown = refl
frame_of_read func file (at_line n) = refl
frame_of_read func file (at_column l c) = refl

parse_frame-Printed :
    (p : Printed) (rest : Bytes)
    → Fits p
    → parse_frame p.func ((p.file ++ print_place p.place) ++ b'\n' ∷ rest) ≡ ok (frame_of p, rest)
unfolding parse_frame
parse_frame-Printed p rest fits =
    rw
      (
        parse_file_line_info-print_place (fresh p.func) p.file rest fits.file_ne_nil fits.file_line
            p.place fits.fits_place,
        clean_file-place_read (fresh p.func) p.file p.place refl fits.fits_place fits.is_clean,
      )
      (ap (λ frame. ok (frame, rest)) (frame_of_read p.func p.file p.place))

pub frames_loop-print_frames :
    (ps : List Printed) (fuel : ℕ) (tail : Bytes) (frames : List FrameDat)
    → All Fits ps
    → frames_loop (length ps + fuel) (print_frames ps tail) frames
      ≡ frames_loop fuel tail (frames ++ map frame_of ps)
unfolding frames_loop print_frames
frames_loop-print_frames [] fuel tail frames fits = rw (zero-add, append-nil) refl
frames_loop-print_frames (p ∷ ps) fuel tail frames (fits, later) =
    rw
      (
        suc-add,
        frames_loop,
        extract_token-append p.func b'\n'
            ((p.file ++ print_place p.place) ++ b'\n' ∷ print_frames ps tail) (codes "\n")
            (HasNo-NoneOf b'\n' p.func fits.func_line) newline-elem,
        length-ne-zero fits.func_ne_nil,
        parse_frame-Printed p (print_frames ps tail) fits,
        frames_loop-print_frames ps fuel tail (frames ++ frame_of p ∷ []) later,
      )
      (ap (frames_loop fuel tail) (append_assoc frames (frame_of p ∷ []) (map frame_of ps)))

-- Where a reply ends: at the end of the text, or at an empty line.
pub data Ends : Bytes → Type 0 where
  at_end : {tail : Bytes} → tail ≡ [] → Ends tail
  at_empty_line : {tail : Bytes} (rest : Bytes) → tail ≡ b'\n' ∷ rest → Ends tail

frames_loop-Ends :
    (fuel : ℕ) {tail : Bytes} (frames : List FrameDat)
    → Ends tail
    → 0 < fuel
    → frames_loop fuel tail frames ≡ ok frames
unfolding frames_loop extract_token strcspn elem
frames_loop-Ends zero frames ends h = absurd (omega arith)
frames_loop-Ends (suc fuel) frames (at_end e) h = rw (e, frames_loop) refl
frames_loop-Ends (suc fuel) frames (at_empty_line rest e) h = rw (e, frames_loop) refl

pub length-print_frames-le :
    (ps : List Printed) (tail : Bytes) → length ps + length tail ≤ length (print_frames ps tail)
unfolding print_frames
length-print_frames-le [] tail = omega arith
length-print_frames-le (p ∷ ps) tail = omega (
  arith,
  length-append p.func (b'\n' ∷ ((p.file ++ print_place p.place) ++ b'\n' ∷ print_frames ps tail)),
  length-append (p.file ++ print_place p.place) (b'\n' ∷ print_frames ps tail),
  length-print_frames-le ps tail,
)

-- A reply printed from frames is read back by ParseSymbolizeAddrOutput: the frames are
-- appended, in order, to those that the structure holds, with null for `??` and 0 for a number
-- that is not printed, and all else in it stays. Names are not empty and hold no line break,
-- numbers are at most LLONG_MAX, a file name with a line and no column holds no colon, one
-- with `:?` has two bytes or more, and one with line 0 and a column holds no colon; the reply
-- ends at the end of the text or at an empty line.
pub parse_symbolize_addr_output-print_frames :
    (ps : List Printed) (tail : Bytes) (res : AddrInfo)
    → All Fits ps
    → Ends tail
    → parse_symbolize_addr_output (print_frames ps tail) res
      ≡ ok (record res { frames = res.frames ++ map frame_of ps })
unfolding parse_symbolize_addr_output
parse_symbolize_addr_output-print_frames ps tail res fits ends =
    let spare = length (print_frames ps tail) + 1 - length ps in
    let enough : length (print_frames ps tail) + 1 ≡ length ps + spare =
      omega (arith, length-print_frames-le ps tail) in
    rw
      (
        enough,
        frames_loop-print_frames ps spare tail res.frames fits,
        frames_loop-Ends spare (res.frames ++ map frame_of ps) ends
            (omega (arith, length-print_frames-le ps tail)),
      )
      refl
