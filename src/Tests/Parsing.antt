-- ===== src/Tests/Parsing.antt =====
-- The parsers of lib/use_llvm_symbolizer.cpp, the token helpers and `StripModuleName`, on concrete
-- texts.
use sanitizer_symbolizer_too.Prelude.{
  ℕ, ◌≡◌, refl, subst, Bool, true, false, not, ◌&&◌, ◌⊎◌, inl, inr, none, some, List, [], ◌∷◌, ◌++◌,
  map, arith, Bytes, codes, ◌==◌, Bool-cases, ok, undefined,
}
use sanitizer_symbolizer_too.Clib.Laws.{NoneOf}
use sanitizer_symbolizer_too.Clib.Number.{decimal}
use sanitizer_symbolizer_too.Common.{ModuleArch, strip_module_name}
use sanitizer_symbolizer_too.Common
use sanitizer_symbolizer_too.Common.Names.{HasNo, IsBaseName, strip_module_name_lem}
use sanitizer_symbolizer_too.Info.{nullptr, chars, DataInfo, FrameDat, AddrInfo}
use sanitizer_symbolizer_too.Token.{extract_token, extract_token_up_to_delimiter}
use sanitizer_symbolizer_too.Token.Splits.{
  Split, UpTo, extract_token-Split, extract_token_up_to_delimiter_lem,
}
use sanitizer_symbolizer_too.Output.{
  parse_file_line_info, parse_symbolize_addr_output, parse_symbolize_data_output,
}
use sanitizer_symbolizer_too.Output.Lines.{
  unknown, at_column, print_place, place_read, parse_file_line_info-print_place,
}
use sanitizer_symbolizer_too.Output.Frames.{
  Printed, Fits, at_empty_line, print_frames, frame_of, parse_symbolize_addr_output-print_frames,
}
use sanitizer_symbolizer_too.Output.Total.{
  Parses, empty_line, parse_symbolize_addr_output-Parses, parse_symbolize_addr_output-BadLine,
}
use sanitizer_symbolizer_too.Output.Symbol.{
  printed, print_symbol, parse_symbolize_data_output-print_symbol,
}

unfoldable pub has_no : ℕ → Bytes → Bool
has_no c [] = true
has_no c (d ∷ s) = not (d == c) && has_no c s

-- A test for `HasNo`, on concrete texts.
pub has_no-HasNo : (c : ℕ) (s : Bytes) → has_no c s ≡ true → HasNo c s
unfolding has_no
has_no-HasNo c [] h = tt
has_no-HasNo c (d ∷ s) h = elim (Bool-cases (d == c)) [
  | inl e ↦ (let f : false ≡ true = subst (λ b. (not b && has_no c s) ≡ true) e h in cc)
  | inr e ↦ (e, has_no-HasNo c s (subst (λ b. (not b && has_no c s) ≡ true) e h))
]

abbrev in_main : Printed
in_main = record { func = codes "main"; file = codes "/tmp/a:b.c"; place = at_column 12 7 }

abbrev in_library : Printed
in_library = record { func = codes "??"; file = codes "lib.so"; place = unknown }

in_main-Fits : Fits in_main
unfolding has_no
in_main-Fits = record {
  func_ne_nil = λ e. cc;
  func_line = has_no-HasNo b'\n' (codes "main") refl;
  file_ne_nil = λ e. cc;
  file_line = has_no-HasNo b'\n' (codes "/tmp/a:b.c") refl;
  fits_place = (omega arith, omega arith);
  is_clean = inl (omega arith);
}

in_library-Fits : Fits in_library
unfolding has_no
in_library-Fits = record {
  func_ne_nil = λ e. cc;
  func_line = has_no-HasNo b'\n' (codes "??") refl;
  file_ne_nil = λ e. cc;
  file_line = has_no-HasNo b'\n' (codes "lib.so") refl;
  fits_place = tt;
  is_clean = omega arith;
}

abbrev frames : List Printed
frames = in_main ∷ in_library ∷ []

abbrev request : AddrInfo
request = record {
  module_name = nullptr;
  module_offset = 64;
  module_arch = Common.unknown;
  frames = [];
}

abbrev data_request : DataInfo
data_request = record {
  module_name = nullptr;
  module_offset = 64;
  module_arch = Common.unknown;
  file = nullptr;
  line = 0;
  name = nullptr;
  start = 0;
  size = 0;
}

print_frames-frames :
    print_frames frames (codes "\n") ≡ codes "main\n/tmp/a:b.c:12:7\n??\nlib.so:?\n\n"
unfolding print_frames print_place decimal
print_frames-frames = refl

parse_symbolize_addr_output-print_frames_example :
    parse_symbolize_addr_output (print_frames frames (codes "\n")) request
    ≡ ok (record request { frames = [] ++ map frame_of frames })
parse_symbolize_addr_output-print_frames_example =
    parse_symbolize_addr_output-print_frames frames (codes "\n") request
      (in_main-Fits, (in_library-Fits, tt)) (at_empty_line [] refl)

parse_symbolize_data_output-print_symbol_example :
    parse_symbolize_data_output
      (print_symbol (codes "counter") 4096 8 (printed (codes "a.c") 3))
      data_request
    ≡ record data_request {
      name = chars (codes "counter");
      start = 4096;
      size = 8;
      file = chars (codes "a.c");
      line = 3;
    }
unfolding has_no
parse_symbolize_data_output-print_symbol_example =
    parse_symbolize_data_output-print_symbol (codes "counter") 4096 8 (printed (codes "a.c") 3)
      data_request (has_no-HasNo b'\n' (codes "counter") refl) (omega arith) (omega arith)
      (has_no-HasNo b':' (codes "a.c") refl, omega arith)

parse_symbolize_addr_output-Parses_example :
    Parses request (parse_symbolize_addr_output (codes "f\n::\ng") request)
parse_symbolize_addr_output-Parses_example =
    parse_symbolize_addr_output-Parses (codes "f\n::\ng") request

parse_symbolize_addr_output-BadLine_example :
    parse_symbolize_addr_output
      (print_frames (in_main ∷ []) (codes "f" ++ b'\n' ∷ ([] ++ b'\n' ∷ codes "rest")))
      request
    ≡ undefined
parse_symbolize_addr_output-BadLine_example =
    parse_symbolize_addr_output-BadLine (in_main ∷ []) (codes "f") [] (codes "rest") request
      (in_main-Fits, tt) (λ e. cc) (refl, tt) (empty_line refl)

abbrev no_info : FrameDat
no_info = record { func = nullptr; file = nullptr; lin = 0; col = 0 }

parse_file_line_info-print_place_example :
    parse_file_line_info no_info
      ((codes "a:b.c" ++ print_place (at_column 12 7)) ++ b'\n' ∷ codes "x")
    ≡ ok (place_read no_info (codes "a:b.c") (at_column 12 7), codes "x")
unfolding has_no
parse_file_line_info-print_place_example =
    parse_file_line_info-print_place no_info (codes "a:b.c") (codes "x") (λ e. cc)
      (has_no-HasNo b'\n' (codes "a:b.c") refl) (at_column 12 7) (omega arith, omega arith)

extract_token-Split_example :
    NoneOf (codes " \n") (extract_token (codes "12 8\n") (codes " \n")).0
    × Split
        (codes "12 8\n")
        (codes " \n")
        (extract_token (codes "12 8\n") (codes " \n")).0
        (extract_token (codes "12 8\n") (codes " \n")).1
extract_token-Split_example = extract_token-Split (codes "12 8\n") (codes " \n")

extract_token_up_to_delimiter_lem_example :
    UpTo
      (codes "a--b--c")
      (codes "--")
      (extract_token_up_to_delimiter (codes "a--b--c") (codes "--")).0
      (extract_token_up_to_delimiter (codes "a--b--c") (codes "--")).1
extract_token_up_to_delimiter_lem_example =
    extract_token_up_to_delimiter_lem (codes "a--b--c") (codes "--")

strip_module_name_lem_example :
    ((some (codes "/bin/addr2line") ≡ none)
      × (strip_module_name (some (codes "/bin/addr2line")) ≡ none))
    ⊎ ((path : Bytes) × (base : Bytes) × (some (codes "/bin/addr2line") ≡ some path)
        × (strip_module_name (some (codes "/bin/addr2line")) ≡ some base)
        × IsBaseName path base)
strip_module_name_lem_example = strip_module_name_lem (some (codes "/bin/addr2line"))
