-- ===== src/Tests/Clients.antt =====
-- The demo, run.
use sanitizer_symbolizer_too.Prelude.{◌≡◌, refl, false, some, [], ◌∷◌, arith, codes, ok}
use sanitizer_symbolizer_too.Clib.{byte_at, c_str, elem, strcspn, strcmp_eq}
use sanitizer_symbolizer_too.Clib.Number.{
  digits_onto, hexadecimal, digits_value, to_llong, signed_value, atoll, to_uptr,
}
use sanitizer_symbolizer_too.Token.{extract_token}
use sanitizer_symbolizer_too.Output.{
  skip_digits_back, number_rounds, parse_file_line_info, clean_file, parse_frame, frames_loop,
  parse_symbolize_addr_output,
}
use sanitizer_symbolizer_too.System.{accesses, Log, Os}
use sanitizer_symbolizer_too.System.Post.{Post}
use sanitizer_symbolizer_too.Files.{read_from_file, write_to_file}
use sanitizer_symbolizer_too.Symbolizer.{reached_end_of_output}
use sanitizer_symbolizer_too.Process
use sanitizer_symbolizer_too.Process.{
  read_rounds, read_buffer, finish_read, read_from_symbolizer, write_to_symbolizer, send_on,
  send_command_impl, attempts,
}
use sanitizer_symbolizer_too.Llvm
use sanitizer_symbolizer_too.Llvm.{does_not_fit, format_command, format_and_send_command}
use sanitizer_symbolizer_too.Interface
use sanitizer_symbolizer_too.Interface.{
  Globals, initial, with_buffers, addr2line_pool, run_addr2line, err_path_not_executable,
  san_sym_tool_init, free_ptr, free_frames, san_sym_tool_free_addr_res, san_sym_tool_send_addr_dat,
  san_sym_tool_read_addr_dat,
}
use sanitizer_symbolizer_too.Interface.Calls.{call}
use sanitizer_symbolizer_too.Demo.{
  Line, using, init_failed, code_at, frame_line, use_llvm, or_text, show_frame, frame_rounds,
  code_round, code_rounds, data_rounds, run_tool,
}
use sanitizer_symbolizer_too.Demo
use sanitizer_symbolizer_too.Demo.Fails.{failed_lines, IsBlank, data_rounds-Fails}
use sanitizer_symbolizer_too.Demo.Runs.{Ending, main-Ending}
use sanitizer_symbolizer_too.Tests.Processes.{silent_os}
use sanitizer_symbolizer_too.Tests.Requests.{talking_os}
use sanitizer_symbolizer_too.Tests.Sessions.{tool}

-- Two addresses, under a child that answers each with a frame.
code_rounds-two :
    (g : Globals) × (l : Log) × (code_rounds talking_os 2 3 65 64 tool []
      ≡ ok (
        (
          code_at 64
              ∷ frame_line (codes "f") (codes "a.c") 7 0
              ∷ code_at 65
              ∷ frame_line (codes "f") (codes "a.c") 7 0
              ∷ [],
          g,
        ),
        l,
      ))
unfolding code_rounds code_round frame_rounds show_frame or_text call san_sym_tool_send_addr_dat
    Interface.symbolize_addr Llvm.symbolize_addr format_and_send_command does_not_fit format_command
    hexadecimal digits_onto Process.send_command attempts send_command_impl send_on
    write_to_symbolizer write_to_file read_from_symbolizer read_buffer read_rounds read_from_file
    reached_end_of_output byte_at c_str parse_symbolize_addr_output frames_loop extract_token
    strcspn elem parse_frame parse_file_line_info number_rounds skip_digits_back clean_file
    strcmp_eq atoll signed_value to_llong digits_value to_uptr san_sym_tool_read_addr_dat
    san_sym_tool_free_addr_res free_frames free_ptr
code_rounds-two = (_, _, refl)

-- No program may be executed.
abbrev closed_os : Os
closed_os = record silent_os { access = λ l path. false }

main-closed :
    Demo.main closed_os 2 []
    ≡ ok (using use_llvm ∷ init_failed err_path_not_executable ∷ [], accesses (some use_llvm) ∷ [])
unfolding Demo.main run_tool call san_sym_tool_init
main-closed = refl

main-Ending_example : Post (λ lines l'. Ending lines) (Demo.main closed_os 2 [])
main-Ending_example = main-Ending closed_os 2

-- addr2line behind its initialisation.
abbrev pool_started : Globals
pool_started =
    with_buffers initial
      (addr2line_pool (record { addr2line_path = some (codes "addr2line"); addr2line_pool = [] }))
      run_addr2line

pool_started-IsBlank : IsBlank pool_started
pool_started-IsBlank = record {
  well_formed = ((tt, tt), tt, record { few = omega arith; distinct = tt; named = tt });
  tool = refl;
  symbol = refl;
}

data_rounds-Fails_example :
    (g' : Globals) × (data_rounds silent_os 2 9 0x4007 0x4000 pool_started []
      ≡ ok ((failed_lines 8 0x4000, g'), []))
    × IsBlank g'
data_rounds-Fails_example =
    data_rounds-Fails silent_os 2 8 9 0x4000 0x4007 pool_started [] refl (omega arith) (omega arith)
      pool_started-IsBlank
