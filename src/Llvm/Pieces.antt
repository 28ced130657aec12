-- ===== src/Llvm/Pieces.antt =====
-- The end of a llvm-symbolizer reply: an empty line, and none before it.
use sanitizer_symbolizer_too.Prelude.{
  ℕ, zero, suc, ◌+◌, ◌-◌, ◌≤◌, ◌<◌, ◌≡◌, ◌≢◌, refl, sym, ap, ◌∙◌, true, false, ◌&&◌, List, [], ◌∷◌,
  ◌++◌, arith, Bytes, codes, leb, ◌==◌, length, length-append, All, All-append, append_assoc,
}
use native.Mathlib.Decide.{dec_le}
use sanitizer_symbolizer_too.Output.Numbers.{byte_at-append}
use sanitizer_symbolizer_too.Clib.{byte_at}
use sanitizer_symbolizer_too.Clib.Number.{decimal}
use sanitizer_symbolizer_too.Common.Names.{HasNo}
use sanitizer_symbolizer_too.Output.Lines.{
  Place, unknown, at_line, at_column, print_place, decimal-HasNo,
}
use sanitizer_symbolizer_too.Output.Frames.{Printed, Fits, print_frames}
use sanitizer_symbolizer_too.Symbolizer.{llvm, reached_end_of_output}
use sanitizer_symbolizer_too.Process.Pieces.{EndsAtEnd}

-- No two line breaks in a row, with the byte in front.
abbrev pub Apart : ℕ → Bytes → Type 0
Apart prev [] = Unit
Apart prev (c ∷ s) = ((prev == b'\n' && c == b'\n') ≡ false) × Apart c s

Apart-byte_at :
    (prev : ℕ) (s : Bytes) (i : ℕ)
    → Apart prev s
    → suc i < length s
    → (byte_at s (suc i) == b'\n' && byte_at s i == b'\n') ≡ false
unfolding byte_at
Apart-byte_at prev [] i h lt = absurd (omega arith)
Apart-byte_at prev (c ∷ []) i h lt = absurd (omega arith)
Apart-byte_at prev (c ∷ d ∷ s) zero h lt = ground (arith, h.1.0)
Apart-byte_at prev (c ∷ d ∷ s) (suc i) h lt = Apart-byte_at c (d ∷ s) i h.1 (omega arith)

pub Apart-rest :
    (prev : ℕ) (s t : Bytes)
    → HasNo b'\n' s
    → (prev == b'\n') ≡ false
    → Apart b'\n' t
    → Apart prev (s ++ b'\n' ∷ t)
Apart-rest prev [] t h e later = (ground arith, later)
Apart-rest prev (c ∷ s) t h e later = (ground arith, Apart-rest c s t h.1 h.0 later)

-- A line that is not empty, in front of further text.
pub Apart-line :
    (prev : ℕ) (s t : Bytes) → s ≢ [] → HasNo b'\n' s → Apart b'\n' t → Apart prev (s ++ b'\n' ∷ t)
Apart-line prev [] t ne h later = absurd (ne refl)
Apart-line prev (c ∷ s) t ne h later =
    (let no = h.0 in ground (arith, no), Apart-rest c s t h.1 h.0 later)

byte_at-prefix : (u v : Bytes) (i : ℕ) → i < length u → byte_at (u ++ v) i ≡ byte_at u i
unfolding byte_at
byte_at-prefix [] v i h = absurd (omega arith)
byte_at-prefix (c ∷ u) v zero h = refl
byte_at-prefix (c ∷ u) v (suc i) h = byte_at-prefix u v i (omega arith)

same_byte :
    (body u v : Bytes) (i : ℕ)
    → u ++ v ≡ body ++ b'\n' ∷ []
    → i < length u
    → length u ≤ length body
    → byte_at u i ≡ byte_at body i
same_byte body u v i whole inside short =
    sym (byte_at-prefix u v i inside)
    ∙ ap (λ t. byte_at t i) whole
    ∙ byte_at-prefix body (b'\n' ∷ []) i (omega arith)

shorter : (body u v : Bytes) → u ++ v ≡ body ++ b'\n' ∷ [] → v ≢ [] → length u ≤ length body
shorter body u [] whole ne = absurd (ne refl)
shorter body u (c ∷ v) whole ne =
    omega (arith, length-append u (c ∷ v), length-append body (b'\n' ∷ []), ap length whole)

pub not_ended :
    (body u v : Bytes)
    → Apart 0 body
    → u ++ v ≡ body ++ b'\n' ∷ []
    → v ≢ []
    → reached_end_of_output llvm u ≡ false
unfolding reached_end_of_output
not_ended body u v apart whole ne = elim (dec_le 2 (length u)) [
  | no short ↦ (let few : leb 2 (length u) ≡ false = ground arith in rw few refl)
  | yes long ↦
      let short = shorter body u v whole ne in
      let last : length u - 1 ≡ suc (length u - 2) = omega arith in
      let two = Apart-byte_at 0 body (length u - 2) apart (omega arith) in
      let enough : leb 2 (length u) ≡ true = ground arith in
      rw
        (
          enough,
          same_byte body u v (length u - 1) whole (omega arith) short,
          same_byte body u v (length u - 2) whole (omega arith) short,
          last,
          two,
        )
        refl
]

abbrev pub EndsBlank : Bytes → Type 0
EndsBlank s = (x : Bytes) × (s ≡ x ++ b'\n' ∷ b'\n' ∷ [])

pub EndsBlank-append : (a : Bytes) {s : Bytes} → EndsBlank s → EndsBlank (a ++ s)
EndsBlank-append a (x, e) =
    (a ++ x, ap (λ t. a ++ t) e ∙ sym (append_assoc a x (b'\n' ∷ b'\n' ∷ [])))

at_end :
    (x tail : Bytes) {s : Bytes} (i k : ℕ)
    → s ≡ x ++ tail
    → i ≡ length x + k
    → byte_at s i ≡ byte_at tail k
at_end x tail {s} i k e place =
    ap (byte_at s) place ∙ ap (λ t. byte_at t (length x + k)) e ∙ byte_at-append x tail k

pub ended : {s : Bytes} → EndsBlank s → reached_end_of_output llvm s ≡ true
unfolding reached_end_of_output byte_at
ended {s} (x, e) =
    let size : length s ≡ length x + 2 = ap length e ∙ length-append x (b'\n' ∷ b'\n' ∷ []) in
    let enough : leb 2 (length s) ≡ true = ground arith in
    rw
      (
        enough,
        at_end x (b'\n' ∷ b'\n' ∷ []) (length s - 2) 0 e (omega arith),
        at_end x (b'\n' ∷ b'\n' ∷ []) (length s - 1) 1 e (omega arith),
      )
      refl

line-HasNo : (p : Printed) → Fits p → HasNo b'\n' (p.file ++ print_place p.place)
unfolding print_place
line-HasNo p fits = All-append _ p.file (print_place p.place) fits.file_line (place p.place)
  where
    place : (q : Place) → HasNo b'\n' (print_place q)
    place unknown = (refl, (refl, tt))
    place (at_line n) = (refl, decimal-HasNo b'\n' n refl)
    place (at_column l c) = (
      refl,
      All-append _ (decimal l) (b':' ∷ decimal c) (decimal-HasNo b'\n' l refl)
          (refl, decimal-HasNo b'\n' c refl),
    )

print_frames-append :
    (ps : List Printed) (a b : Bytes) → print_frames ps (a ++ b) ≡ print_frames ps a ++ b
unfolding print_frames
print_frames-append [] a b = refl
print_frames-append (p ∷ ps) a b =
    let line = p.file ++ print_place p.place in
    rw (print_frames-append ps a b) (
      ap (λ t. p.func ++ b'\n' ∷ t) (sym (append_assoc line (b'\n' ∷ print_frames ps a) b))
      ∙ sym (append_assoc p.func (b'\n' ∷ (line ++ b'\n' ∷ print_frames ps a)) b))

print_frames-Apart : (prev : ℕ) (ps : List Printed) → All Fits ps → Apart prev (print_frames ps [])
unfolding print_frames
print_frames-Apart prev [] fits = tt
print_frames-Apart prev (p ∷ ps) (fits, later) =
    Apart-line prev p.func _ fits.func_ne_nil fits.func_line (
      Apart-line b'\n' (p.file ++ print_place p.place) (print_frames ps [])
        (append_ne_nil p.file (print_place p.place) fits.file_ne_nil) (line-HasNo p fits)
        (print_frames-Apart b'\n' ps later))
  where
    append_ne_nil : (a b : Bytes) → a ≢ [] → a ++ b ≢ []
    append_ne_nil [] b ne e = ne refl
    append_ne_nil (c ∷ a) b ne e = cc

print_frames-EndsBlank : (ps : List Printed) → ps ≢ [] → EndsBlank (print_frames ps (codes "\n"))
unfolding print_frames
print_frames-EndsBlank [] ne = absurd (ne refl)
print_frames-EndsBlank (p ∷ []) ne =
    EndsBlank-append p.func (EndsBlank-append (b'\n' ∷ (p.file ++ print_place p.place)) ([], refl))
print_frames-EndsBlank (p ∷ q ∷ ps) ne = EndsBlank-append p.func (
    EndsBlank-append (b'\n' ∷ (p.file ++ print_place p.place))
      (EndsBlank-append (b'\n' ∷ []) (print_frames-EndsBlank (q ∷ ps) (λ e. cc))))

-- ReachedEndOfOutput of llvm-symbolizer tells the end of a reply of printed frames, at least
-- one, where the reply is complete and at no shorter part of it, so it does not matter where
-- the pipe cuts the reply. The frames fit as for the parser of the replies.
pub print_frames-EndsAtEnd :
    (ps : List Printed) → ps ≢ [] → All Fits ps → EndsAtEnd llvm (print_frames ps (codes "\n"))
print_frames-EndsAtEnd ps ne fits = (
  ended (print_frames-EndsBlank ps ne),
  λ u v whole more.
      not_ended (print_frames ps []) u v (print_frames-Apart 0 ps fits)
        (whole ∙ print_frames-append ps [] (codes "\n")) more,
)
