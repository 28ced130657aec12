-- ===== src/Tests/Starts.antt =====
-- The first command of a process, and a request for data.
use sanitizer_symbolizer_too.Prelude.{
  ◌<◌, ◌≡◌, refl, true, some, [], ◌∷◌, ◌++◌, arith, Bytes, codes, length, ok,
}
use sanitizer_symbolizer_too.Clib.{byte_at, c_str}
use sanitizer_symbolizer_too.Clib.Number.{decimal, hexadecimal}
use sanitizer_symbolizer_too.Common
use sanitizer_symbolizer_too.Common.Names.{HasNo}
use sanitizer_symbolizer_too.Info.{nullptr, chars, DataInfo}
use sanitizer_symbolizer_too.Output.Symbol.{printed, print_symbol}
use sanitizer_symbolizer_too.System.{done, writes_to, Os}
use sanitizer_symbolizer_too.Files.{read_from_file}
use sanitizer_symbolizer_too.Symbolizer.{llvm, reached_end_of_output, get_arg_v, symbolizer_arch}
use sanitizer_symbolizer_too.Process
use sanitizer_symbolizer_too.Process.{
  read_from_symbolizer, read_buffer, read_rounds, finish_read, cut_terminator,
}
use sanitizer_symbolizer_too.Process.Pieces.{Arrives}
use sanitizer_symbolizer_too.Process.Delivery.{joined, reads_log}
use sanitizer_symbolizer_too.Process.FirstUse.{
  Spawn, StartsWell, unused, restarted_once, log_asked, send_command-StartsWell,
}
use sanitizer_symbolizer_too.Llvm
use sanitizer_symbolizer_too.Llvm.{format_command}
use sanitizer_symbolizer_too.Llvm.Answers.{data_command_for}
use sanitizer_symbolizer_too.Llvm.Requests.{symbolize_data-print_symbol}
use sanitizer_symbolizer_too.Tests.Parsing.{has_no, has_no-HasNo}
use sanitizer_symbolizer_too.Tests.Processes.{path, started, command, silent_os}
use sanitizer_symbolizer_too.Tests.Requests.{talking_os, pieces, symbolizer, started-IsReady}

-- The pipes are 12, 13 and 14, 15.
abbrev first_spawn : Spawn
first_spawn = record {
  reply_end = 12;
  reply_child_end = 13;
  command_child_end = 14;
  command_end = 15;
  pid = 100;
}

first_spawn-StartsWell : StartsWell talking_os llvm path [] first_spawn
unfolding get_arg_v symbolizer_arch
first_spawn-StartsWell = record {
  file = refl;
  first = refl;
  first_high = refl;
  second = refl;
  second_high = refl;
  forked = refl;
  positive = refl;
  runs = refl;
}

first_reply :
    read_from_symbolizer talking_os 2
      (restarted_once llvm path first_spawn)
      (log_asked talking_os llvm path [] first_spawn command)
    ≡ ok (
      (true, record (restarted_once llvm path first_spawn) { buffer = joined pieces ++ 0 ∷ [] }),
      reads_log 12 pieces (log_asked talking_os llvm path [] first_spawn command),
    )
unfolding read_from_symbolizer read_buffer read_rounds read_from_file reached_end_of_output byte_at
    joined reads_log
first_reply = refl

send_command-StartsWell_example :
    Process.send_command talking_os 2 (unused llvm path) command []
    ≡ ok (
      (
        some (c_str (joined pieces ++ 0 ∷ [])),
        record (restarted_once llvm path first_spawn) { buffer = joined pieces ++ 0 ∷ [] },
      ),
      reads_log 12 pieces (log_asked talking_os llvm path [] first_spawn command),
    )
send_command-StartsWell_example =
    send_command-StartsWell talking_os 2 llvm path [] first_spawn first_spawn-StartsWell command
      (omega arith) refl first_reply

-- Requests for data.
abbrev symbol_piece : Bytes
symbol_piece = codes "v\n16 4\na.c:7\n\n"

abbrev symbol_os : Os
symbol_os = record silent_os { read = λ l fd size. done symbol_piece }

abbrev variable : DataInfo
variable = record {
  module_name = chars (codes "a.out");
  module_offset = 32;
  module_arch = Common.unknown;
  file = nullptr;
  line = 0;
  name = nullptr;
  start = 0;
  size = 0;
}

abbrev data_asked : Bytes
data_asked = data_command_for (codes "a.out") variable

data_asked-short : length data_asked < 16384
unfolding format_command hexadecimal
data_asked-short = omega arith

symbol_delivered : Arrives symbol_os 10 [] (writes_to 13 data_asked ∷ []) (symbol_piece ∷ [])
symbol_delivered = ((refl, refl), tt)

symbol_piece-print_symbol :
    joined (symbol_piece ∷ []) ≡ print_symbol (codes "v") 16 4 (printed (codes "a.c") 7)
unfolding joined print_symbol decimal
symbol_piece-print_symbol = refl

symbol_piece-HasNo : HasNo 0 (joined (symbol_piece ∷ []))
unfolding joined has_no
symbol_piece-HasNo = has_no-HasNo 0 (joined (symbol_piece ∷ [])) refl

symbolize_data-print_symbol_example :
    Llvm.symbolize_data symbol_os 1 symbolizer variable []
    ≡ ok (
      (
        true,
        record {
          symbolizer_process =
              some (record started { buffer = joined (symbol_piece ∷ []) ++ 0 ∷ [] });
          buffer = data_asked;
        },
        record variable {
          name = chars (codes "v");
          start = 16;
          size = 4;
          file = chars (codes "a.c");
          line = 7;
        },
      ),
      reads_log 10 (symbol_piece ∷ []) (writes_to 13 data_asked ∷ []),
    )
unfolding has_no
symbolize_data-print_symbol_example =
    symbolize_data-print_symbol symbol_os 1 started started-IsReady symbolizer variable
      (codes "a.out") [] (symbol_piece ∷ []) (codes "v") 16 4 (printed (codes "a.c") 7) refl refl
      data_asked-short refl symbol_delivered symbol_piece-print_symbol symbol_piece-HasNo
      (has_no-HasNo b'\n' (codes "v") refl) (omega arith) (omega arith)
      (has_no-HasNo b':' (codes "a.c") refl, omega arith) (has_no-HasNo b'\n' (codes "a.c") refl)
      (omega arith)
