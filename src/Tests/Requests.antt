-- ===== src/Tests/Requests.antt =====
-- Whole requests and the life of the globals, under a child that answers in two pieces.
use sanitizer_symbolizer_too.Prelude.{
  ◌+◌, ◌*◌, ◌<◌, ◌≡◌, refl, subst, inl, inr, true, some, List, [], ◌∷◌, ◌++◌, map, arith, Bytes,
  codes, length, All, ok,
}
use sanitizer_symbolizer_too.Clib.{byte_at, c_str, strcmp_eq}
use sanitizer_symbolizer_too.Clib.Number.{decimal, hexadecimal}
use sanitizer_symbolizer_too.Common
use sanitizer_symbolizer_too.Common.Names.{HasNo}
use sanitizer_symbolizer_too.Info.{chars, AddrInfo}
use sanitizer_symbolizer_too.Output.Lines.{at_line, print_place}
use sanitizer_symbolizer_too.Output.Frames.{Printed, Fits, print_frames, frame_of}
use sanitizer_symbolizer_too.System.{done, reads_from, writes_to, Log, Os}
use sanitizer_symbolizer_too.System.Post.{Ends}
use sanitizer_symbolizer_too.Symbolizer.{reached_end_of_output}
use sanitizer_symbolizer_too.Process.Pieces.{Arrives}
use sanitizer_symbolizer_too.Process.Delivery.{joined, reads_log}
use sanitizer_symbolizer_too.Process.Starts.{Comes, IsLawful}
use sanitizer_symbolizer_too.Process.Ends.{send_command-Ends}
use sanitizer_symbolizer_too.Process.Restarts.{Budget}
use sanitizer_symbolizer_too.Process
use sanitizer_symbolizer_too.Llvm.{LlvmSymbolizer, format_command, symbolize_addr}
use sanitizer_symbolizer_too.Llvm.Answers.{command_for}
use sanitizer_symbolizer_too.Llvm.Requests.{IsReady, symbolize_addr-print_frames}
use sanitizer_symbolizer_too.Interface.{
  Globals, initial, run_llvm_symbolizer, llvm_symbolizer, new_data_info, san_sym_tool_fini,
}
use sanitizer_symbolizer_too.Interface.Lifecycle.{IsOwned, Refuses, san_sym_tool_fini-Refuses}
use sanitizer_symbolizer_too.Output.Total.{IsValid, IsReadable}
use sanitizer_symbolizer_too.Tests.Parsing.{has_no, has_no-HasNo}
use sanitizer_symbolizer_too.Tests.Processes.{
  silent_os, started, unstarted, unstarted-Lives, command,
}

abbrev pub answered : Printed
answered = record { func = codes "f"; file = codes "a.c"; place = at_line 7 }

pub answered-Fits : Fits answered
unfolding has_no
answered-Fits = record {
  func_ne_nil = λ e. cc;
  func_line = (refl, tt);
  file_ne_nil = λ e. cc;
  file_line = has_no-HasNo b'\n' (codes "a.c") refl;
  fits_place = (omega arith, has_no-HasNo b':' (codes "a.c") refl);
  is_clean = tt;
}

abbrev pub pieces : List Bytes
pieces = codes "f\na" ∷ codes ".c:7\n\n" ∷ []

abbrev pub next_piece : Log → Bytes
next_piece (reads_from fd ∷ l) = codes ".c:7\n\n"
next_piece _ = codes "f\na"

abbrev pub talking_os : Os
talking_os = record silent_os {
  read = λ l fd size. done (next_piece l);
  pipe = λ l. done (10 + 2 * length l, 11 + 2 * length l);
}

abbrev pub request : AddrInfo
request = record {
  module_name = chars (codes "a.out");
  module_offset = 64;
  module_arch = Common.unknown;
  frames = [];
}

abbrev pub symbolizer : LlvmSymbolizer
symbolizer = record { symbolizer_process = some started; buffer = [] }

pub started-IsReady : IsReady started 10 13
started-IsReady = record {
  kind = refl;
  reading = refl;
  writing = refl;
  alive = refl;
  rounds = omega arith;
}

abbrev pub asked : Bytes
asked = command_for (codes "a.out") request

pub asked-short : length asked < 16384
unfolding format_command hexadecimal
asked-short = omega arith

pub delivered : Arrives talking_os 10 [] (writes_to 13 asked ∷ []) pieces
delivered = ((refl, refl), ((refl, refl), tt))

pub pieces-print_frames : joined pieces ≡ print_frames (answered ∷ []) (codes "\n")
unfolding joined print_frames print_place decimal
pieces-print_frames = refl

pub pieces-HasNo : HasNo 0 (joined pieces)
unfolding joined has_no
pieces-HasNo = has_no-HasNo 0 (joined pieces) refl

symbolize_addr-print_frames_example :
    symbolize_addr talking_os 2 symbolizer request []
    ≡ ok (
      (
        true,
        record {
          symbolizer_process = some (record started { buffer = joined pieces ++ 0 ∷ [] });
          buffer = asked;
        },
        record request { frames = [] ++ map frame_of (answered ∷ []) },
      ),
      reads_log 10 pieces (writes_to 13 asked ∷ []),
    )
symbolize_addr-print_frames_example =
    symbolize_addr-print_frames talking_os 2 started started-IsReady symbolizer request
      (codes "a.out") [] pieces (answered ∷ []) refl refl asked-short refl delivered
      pieces-print_frames pieces-HasNo (λ e. cc) (answered-Fits, tt) (omega arith)

-- A child that is asked replies in two pieces.
talking_os-IsLawful : IsLawful talking_os 2
unfolding Comes reached_end_of_output byte_at c_str
talking_os-IsLawful = record {
  high_pipes = λ l {a} {b} e.
      let first : 10 + 2 * length l ≡ a = cc in
      let second : 11 + 2 * length l ≡ b = cc in ground arith;
  positive_pid = λ l {pid} e. let hundred : 100 ≡ pid = cc in ground arith;
  readers_stay = λ l fd command e. cc;
  replies = λ l input output command some_command taken. inr (inr (inr (inl refl)));
}

send_command-Ends_example :
    Ends (Budget unstarted []) (Process.send_command talking_os 2 unstarted command [])
send_command-Ends_example =
    send_command-Ends talking_os 2 talking_os-IsLawful 2 unstarted command [] (omega arith)
      (λ e. cc) (refl, refl) unstarted-Lives

abbrev in_use : Globals
in_use = record {
  data_info_buf = some new_data_info;
  addr_info_buf = some (record request { frames = frame_of answered ∷ [] });
  san_sym_tool = some (llvm_symbolizer symbolizer);
  running_this_tool = run_llvm_symbolizer;
}

in_use-IsOwned : IsOwned in_use
unfolding frame_of strcmp_eq
in_use-IsOwned = record {
  data_owned = λ d e.
      let same : new_data_info ≡ d = cc in
      subst (λ x. IsValid x.file × IsValid x.name) same (tt, tt);
  addr_owned = λ a e.
      let same : record request { frames = frame_of answered ∷ [] } ≡ a = cc in
      subst (λ x. All IsReadable x.frames) same ((tt, tt), tt);
}

san_sym_tool_fini-Refuses_example :
    Ends (λ g' l'. (g' ≡ initial) × Refuses silent_os g') (san_sym_tool_fini silent_os in_use [])
san_sym_tool_fini-Refuses_example = san_sym_tool_fini-Refuses silent_os in_use [] in_use-IsOwned
