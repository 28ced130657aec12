-- ===== src/Output/Symbol.antt =====
-- Replies for data addresses, and what `ParseSymbolizeDataOutput` reads.
use sanitizer_symbolizer_too.Prelude.{
  ℕ, ◌≤◌, ◌≡◌, refl, true, false, [], ◌∷◌, ◌++◌, arith, Bytes, codes,
}
use sanitizer_symbolizer_too.Clib.{strcspn, elem}
use sanitizer_symbolizer_too.Clib.Number.{to_uptr, atoll, decimal, to_uptr-atoll-decimal, llong_max}
use sanitizer_symbolizer_too.Common.{is_digit}
use sanitizer_symbolizer_too.Common.Names.{HasNo}
use sanitizer_symbolizer_too.Info.{chars, DataInfo}
use sanitizer_symbolizer_too.Token.{extract_token, extract_uptr}
use sanitizer_symbolizer_too.Token.Splits.{extract_token-append}
use sanitizer_symbolizer_too.Output.{parse_symbolize_data_output}
use sanitizer_symbolizer_too.Output.Lines.{HasNo-NoneOf, decimal-HasNo}

-- The third line: newer symbolizers print it, older ones do not.
pub data Source : Type 0 where
  not_printed : Source
  printed : Bytes → ℕ → Source

-- Name, then start and size, then the place; an empty line ends the reply.
unfoldable pub print_symbol : Bytes → ℕ → ℕ → Source → Bytes
print_symbol name start size not_printed =
    name ++ b'\n' ∷ (decimal start ++ b' ' ∷ (decimal size ++ b'\n' ∷ b'\n' ∷ []))
print_symbol name start size (printed file line) =
    name
    ++ b'\n'
      ∷ (decimal start
          ++ b' ' ∷ (decimal size ++ b'\n' ∷ (file ++ b':' ∷ (decimal line ++ b'\n' ∷ b'\n' ∷ []))))

-- The file name of a reply with no third line is a line break, and the line is 0.
abbrev pub source_file : Source → Bytes
source_file not_printed = codes "\n"
source_file (printed file line) = file

abbrev pub source_line : Source → ℕ
source_line not_printed = 0
source_line (printed file line) = line

abbrev pub FitsSource : Source → Type 0
FitsSource not_printed = Unit {0}
FitsSource (printed file line) = HasNo b':' file × (line ≤ llong_max)

self_elem : (d : ℕ) → elem d (d ∷ []) ≡ true
unfolding elem
self_elem d = ground arith

extract_decimal :
    (n d : ℕ) (rest : Bytes)
    → n ≤ llong_max
    → is_digit d ≡ false
    → extract_uptr (decimal n ++ d ∷ rest) (d ∷ []) ≡ (n, rest)
unfolding extract_uptr
extract_decimal n d rest fits h =
    rw
      (
        extract_token-append (decimal n) d rest (d ∷ []) (HasNo-NoneOf d _ (decimal-HasNo d n h))
            (self_elem d),
        to_uptr-atoll-decimal n fits,
      )
      refl

extract_name :
    (s : Bytes) (d : ℕ) (rest : Bytes)
    → HasNo d s
    → extract_token (s ++ d ∷ rest) (d ∷ []) ≡ (s, rest)
extract_name s d rest h = extract_token-append s d rest (d ∷ []) (HasNo-NoneOf d s h) (self_elem d)

-- The last two fields, on the text behind the size.
source_rest : Source → Bytes
source_rest not_printed = codes "\n"
source_rest (printed file line) = file ++ b':' ∷ (decimal line ++ b'\n' ∷ b'\n' ∷ [])

read_source :
    (s : Source)
    → FitsSource s
    → ((extract_token (source_rest s) (codes ":")).0 ≡ source_file s)
      × ((extract_uptr (extract_token (source_rest s) (codes ":")).1 (codes "\n")).0
          ≡ source_line s)
unfolding source_rest
read_source not_printed fits =
    unfold extract_token extract_uptr strcspn elem to_uptr atoll in (refl, refl)
read_source (printed file line) (no_colon, fits) =
    rw
      (
        extract_name file b':' (decimal line ++ b'\n' ∷ b'\n' ∷ []) no_colon,
        extract_decimal line b'\n' (b'\n' ∷ []) fits refl,
      )
      (refl, refl)

print_symbol-source_rest :
    (name : Bytes) (start size : ℕ) (s : Source)
    → print_symbol name start size s
      ≡ name ++ b'\n' ∷ (decimal start ++ b' ' ∷ (decimal size ++ b'\n' ∷ source_rest s))
unfolding print_symbol source_rest
print_symbol-source_rest name start size not_printed = refl
print_symbol-source_rest name start size (printed file line) = refl

-- A printed reply for a data address is read back by ParseSymbolizeDataOutput, with its third
-- line or without it, where the file name is a line break and the line 0, and all else in the
-- structure stays. The name holds no line break, the file name no colon, and the numbers are
-- at most LLONG_MAX.
pub parse_symbolize_data_output-print_symbol :
    (name : Bytes) (start size : ℕ) (s : Source) (info : DataInfo)
    → HasNo b'\n' name
    → start ≤ llong_max
    → size ≤ llong_max
    → FitsSource s
    → parse_symbolize_data_output (print_symbol name start size s) info ≡ record info {
      name = chars name;
      start = start;
      size = size;
      file = chars (source_file s);
      line = source_line s;
    }
unfolding parse_symbolize_data_output
parse_symbolize_data_output-print_symbol name start size s info h fits_start fits_size fits =
    let (f, l) = read_source s fits in
    rw
      (
        print_symbol-source_rest name start size s,
        extract_name name b'\n' (decimal start ++ b' ' ∷ (decimal size ++ b'\n' ∷ source_rest s)) h,
        extract_decimal start b' ' (decimal size ++ b'\n' ∷ source_rest s) fits_start refl,
        extract_decimal size b'\n' (source_rest s) fits_size refl,
        f,
        l,
      )
      refl
