-- ===== src/Tests/Sessions.antt =====
-- A client's calls, from the start of the program to its end.
use sanitizer_symbolizer_too.Prelude.{◌≡◌, refl, none, some, List, [], ◌∷◌, ◌++◌, arith, codes, ok}
use sanitizer_symbolizer_too.Clib.{byte_at, c_str, elem, strcspn, strcmp_eq, starts_with}
use sanitizer_symbolizer_too.Clib.Number.{
  digits_onto, hexadecimal, digits_value, to_llong, signed_value, atoll, to_uptr,
}
use sanitizer_symbolizer_too.Common.{strrchr, strip_module_name}
use sanitizer_symbolizer_too.Token.{extract_token}
use sanitizer_symbolizer_too.Info.{chars, FrameDat}
use sanitizer_symbolizer_too.Output.{
  skip_digits_back, number_rounds, parse_file_line_info, clean_file, parse_frame, frames_loop,
  parse_symbolize_addr_output,
}
use sanitizer_symbolizer_too.Output.Frames.{frame_of}
use sanitizer_symbolizer_too.Output.Total.{IsReadable}
use sanitizer_symbolizer_too.System.{Log}
use sanitizer_symbolizer_too.System.Post.{Post}
use sanitizer_symbolizer_too.Files.{close_valid, file_exists, read_from_file, write_to_file}
use sanitizer_symbolizer_too.Child.{
  create_two_high_numbered_pipes, pipe_rounds, close_pairs, start_subprocess, kill_child_process,
  is_process_running,
}
use sanitizer_symbolizer_too.Symbolizer.{
  new_process, reached_end_of_output, get_arg_v, symbolizer_arch,
}
use sanitizer_symbolizer_too.Process
use sanitizer_symbolizer_too.Process.{
  is_running, kill_if_running, restart, start_symbolizer_subprocess, watch_child, launch_with,
  launch, launch_if, read_rounds, read_buffer, finish_read, read_from_symbolizer,
  write_to_symbolizer, send_on, send_command_impl, attempts,
}
use sanitizer_symbolizer_too.Llvm
use sanitizer_symbolizer_too.Llvm.{
  new_llvm_symbolizer, does_not_fit, format_command, format_and_send_command,
}
use sanitizer_symbolizer_too.Interface
use sanitizer_symbolizer_too.Interface.{
  Globals, initial, with_buffers, llvm_symbolizer, run_llvm_symbolizer, yes_init_done,
  yes_send_done, yes_read_done, err_outofbound, choose_tool, init_tool, san_sym_tool_init, free_ptr,
  free_frames, san_sym_tool_free_addr_res, san_sym_tool_free_data_res, stop_tool, san_sym_tool_fini,
  san_sym_tool_send_addr_dat, san_sym_tool_read_addr_dat,
}
use sanitizer_symbolizer_too.Interface.Calls.{
  Call, init, fini, addr_free, addr_send, addr_read, Reply, nothing, code, sent, frame, call,
}
use sanitizer_symbolizer_too.Interface.Session.{off, view, IsWellFormed}
use sanitizer_symbolizer_too.Interface.Steps.{Obeys}
use sanitizer_symbolizer_too.Interface.Requests.{call-Obeys}
use sanitizer_symbolizer_too.Interface.Traces.{
  Trace, ended, called, Follows, Trace-Follows-initial, addr_send-addr_read,
}
use sanitizer_symbolizer_too.System.{writes_to}
use sanitizer_symbolizer_too.Process.Delivery.{joined, reads_log}
use sanitizer_symbolizer_too.Llvm.Requests.{symbolize_addr-print_frames}
use sanitizer_symbolizer_too.Tests.Processes.{started}
use sanitizer_symbolizer_too.Tests.Requests.{
  answered, answered-Fits, talking_os, pieces, request, symbolizer, asked, asked-short, delivered,
  started-IsReady, pieces-print_frames, pieces-HasNo,
}

abbrev calls : List (Call × Reply)
calls =
    (init (some (codes "llvm-symbolizer")), code yes_init_done)
    ∷ (addr_send (chars (codes "a.out")) 64, sent yes_send_done (some 1))
    ∷ (addr_read 0, frame yes_read_done (some (frame_of answered)))
    ∷ (addr_free, nothing)
    ∷ (addr_read 0, frame err_outofbound none)
    ∷ (fini, nothing)
    ∷ []

trace : (l : Log) × Trace talking_os initial [] calls initial l
unfolding call san_sym_tool_init init_tool choose_tool strip_module_name strrchr starts_with
    new_llvm_symbolizer new_process san_sym_tool_send_addr_dat Interface.symbolize_addr
    Llvm.symbolize_addr format_and_send_command does_not_fit format_command hexadecimal digits_onto
    Process.send_command attempts send_command_impl send_on restart kill_if_running is_running
    start_symbolizer_subprocess launch launch_if launch_with watch_child file_exists close_valid
    create_two_high_numbered_pipes pipe_rounds close_pairs start_subprocess is_process_running
    get_arg_v symbolizer_arch write_to_symbolizer write_to_file read_from_symbolizer read_buffer
    read_rounds read_from_file reached_end_of_output byte_at c_str parse_symbolize_addr_output
    frames_loop extract_token strcspn elem parse_frame parse_file_line_info number_rounds
    skip_digits_back clean_file strcmp_eq atoll signed_value to_llong digits_value to_uptr frame_of
    san_sym_tool_read_addr_dat san_sym_tool_free_addr_res free_frames free_ptr san_sym_tool_fini
    stop_tool Llvm.stop_the_world Process.kill kill_child_process san_sym_tool_free_data_res
trace = (
  _,
  called 3 refl
      (called 3 refl (called 3 refl (called 3 refl (called 3 refl (called 3 refl ended))))),
)

Trace-Follows-initial_example : IsWellFormed initial × Follows off calls (view initial)
Trace-Follows-initial_example = Trace-Follows-initial talking_os calls trace.1

-- A tool whose child runs.
abbrev pub tool : Globals
tool = with_buffers initial (llvm_symbolizer symbolizer) run_llvm_symbolizer

tool-IsWellFormed : IsWellFormed tool
tool-IsWellFormed =
    ((tt, tt), tt, (started, refl, record { within_limit = omega arith; used_up = λ f. cc }))

call-Obeys_example :
    Post
      (Obeys (addr_send (chars (codes "a.out")) 64) tool)
      (call talking_os 2 (addr_send (chars (codes "a.out")) 64) tool [])
call-Obeys_example =
    call-Obeys talking_os 2 (addr_send (chars (codes "a.out")) 64) tool [] tool-IsWellFormed

-- The globals behind one frame.
abbrev filled : Globals
filled = record tool {
  san_sym_tool = some (
      llvm_symbolizer (record {
        symbolizer_process = some (record started { buffer = joined pieces ++ 0 ∷ [] });
        buffer = asked;
      }));
  addr_info_buf = some (record request { frames = frame_of answered ∷ [] });
}

addr_send-one :
    call talking_os 2 (addr_send (chars (codes "a.out")) 64) tool []
    ≡ ok ((sent yes_send_done (some 1), filled), reads_log 10 pieces (writes_to 13 asked ∷ []))
unfolding call san_sym_tool_send_addr_dat Interface.symbolize_addr
addr_send-one =
    let answer =
      symbolize_addr-print_frames talking_os 2 started started-IsReady symbolizer request
        (codes "a.out") [] pieces (answered ∷ []) refl refl asked-short refl delivered
        pieces-print_frames pieces-HasNo (λ e. cc) (answered-Fits, tt) (omega arith) in
    rw answer refl

addr_send-addr_read_example :
    (f : FrameDat) × (call talking_os 0
        (addr_read 0)
        filled
        (reads_log 10 pieces (writes_to 13 asked ∷ []))
      ≡ ok ((frame yes_read_done (some f), filled), reads_log 10 pieces (writes_to 13 asked ∷ [])))
    × IsReadable f
addr_send-addr_read_example =
    addr_send-addr_read talking_os 2 0 tool [] (chars (codes "a.out")) 64 1 0 tool-IsWellFormed
      addr_send-one (omega arith)
