-- ===== src/Llvm/SymbolPieces.antt =====
-- The end of a llvm-symbolizer reply for a data address.
use sanitizer_symbolizer_too.Prelude.{
  ℕ, ◌≡◌, ◌≢◌, refl, ◌∙◌, [], ◌∷◌, ◌++◌, Bytes, All-append, append_assoc,
}
use sanitizer_symbolizer_too.Clib.Number.{decimal}
use sanitizer_symbolizer_too.Common.Names.{HasNo}
use sanitizer_symbolizer_too.Output.Lines.{append-ne-nil, decimal-HasNo}
use sanitizer_symbolizer_too.Output.Symbol.{Source, not_printed, printed, print_symbol}
use sanitizer_symbolizer_too.Symbolizer.{llvm}
use sanitizer_symbolizer_too.Process.Pieces.{EndsAtEnd}
use sanitizer_symbolizer_too.Llvm.Pieces.{
  Apart, Apart-rest, Apart-line, not_ended, EndsBlank, EndsBlank-append, ended,
}

-- The file name is on one line.
abbrev pub OneLine : Source → Type 0
OneLine not_printed = Unit {0}
OneLine (printed file line) = HasNo b'\n' file

abbrev numbers : ℕ → ℕ → Bytes
numbers start size = decimal start ++ b' ' ∷ decimal size

numbers-ne-nil : (start size : ℕ) → numbers start size ≢ []
numbers-ne-nil start size = append-ne-nil (decimal start) b' ' (decimal size)

numbers-HasNo : (start size : ℕ) → HasNo b'\n' (numbers start size)
numbers-HasNo start size =
    All-append _ (decimal start) (b' ' ∷ decimal size) (decimal-HasNo b'\n' start refl)
      (refl, decimal-HasNo b'\n' size refl)

-- The lines in front of the empty one.
symbol_lines : Bytes → ℕ → ℕ → Source → Bytes
symbol_lines name start size not_printed = name ++ b'\n' ∷ (numbers start size ++ b'\n' ∷ [])
symbol_lines name start size (printed file line) =
    name ++ b'\n' ∷ (numbers start size ++ b'\n' ∷ ((file ++ b':' ∷ decimal line) ++ b'\n' ∷ []))

symbol_lines-Apart :
    (name : Bytes) (start size : ℕ) (source : Source)
    → HasNo b'\n' name
    → OneLine source
    → Apart 0 (symbol_lines name start size source)
unfolding symbol_lines
symbol_lines-Apart name start size not_printed h one = Apart-rest 0 name _ h refl (
    Apart-line b'\n' (numbers start size) [] (numbers-ne-nil start size) (numbers-HasNo start size)
      tt)
symbol_lines-Apart name start size (printed file line) h one = Apart-rest 0 name _ h refl (
    Apart-line b'\n' (numbers start size) _ (numbers-ne-nil start size) (numbers-HasNo start size) (
      Apart-line b'\n' (file ++ b':' ∷ decimal line) [] (append-ne-nil file b':' (decimal line))
        (All-append _ file (b':' ∷ decimal line) one (refl, decimal-HasNo b'\n' line refl)) tt))

symbol_lines-print_symbol :
    (name : Bytes) (start size : ℕ) (source : Source)
    → print_symbol name start size source ≡ symbol_lines name start size source ++ b'\n' ∷ []
unfolding symbol_lines print_symbol
symbol_lines-print_symbol name start size not_printed = simp append_assoc refl
symbol_lines-print_symbol name start size (printed file line) = simp append_assoc refl

print_symbol-EndsBlank :
    (name : Bytes) (start size : ℕ) (source : Source)
    → EndsBlank (print_symbol name start size source)
unfolding print_symbol
print_symbol-EndsBlank name start size not_printed =
    EndsBlank-append name
      (EndsBlank-append (b'\n' ∷ decimal start) (EndsBlank-append (b' ' ∷ decimal size) ([], refl)))
print_symbol-EndsBlank name start size (printed file line) = EndsBlank-append name (
    EndsBlank-append (b'\n' ∷ decimal start) (
      EndsBlank-append (b' ' ∷ decimal size)
        (EndsBlank-append (b'\n' ∷ file) (EndsBlank-append (b':' ∷ decimal line) ([], refl)))))

pub print_symbol-EndsAtEnd :
    (name : Bytes) (start size : ℕ) (source : Source)
    → HasNo b'\n' name
    → OneLine source
    → EndsAtEnd llvm (print_symbol name start size source)
print_symbol-EndsAtEnd name start size source h one = (
  ended (print_symbol-EndsBlank name start size source),
  λ u v whole more.
      not_ended (symbol_lines name start size source) u v
        (symbol_lines-Apart name start size source h one)
        (whole ∙ symbol_lines-print_symbol name start size source) more,
)
