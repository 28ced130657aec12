-- ===== src/Tests/Services.antt =====
-- From the initialisation to a frame, under a child that starts and answers.
use sanitizer_symbolizer_too.Prelude.{
  ◌<◌, ◌≡◌, refl, true, some, [], ◌∷◌, ◌++◌, map, arith, Bytes, codes, length, ok,
}
use sanitizer_symbolizer_too.Clib.{starts_with}
use sanitizer_symbolizer_too.Clib.Number.{hexadecimal}
use sanitizer_symbolizer_too.Common.{strrchr, strip_module_name}
use sanitizer_symbolizer_too.Info.{chars}
use sanitizer_symbolizer_too.Output.Frames.{frame_of}
use sanitizer_symbolizer_too.System.{Log}
use sanitizer_symbolizer_too.Symbolizer.{llvm, get_arg_v, symbolizer_arch}
use sanitizer_symbolizer_too.Process.Pieces.{Arrives}
use sanitizer_symbolizer_too.Process.Delivery.{joined, reads_log}
use sanitizer_symbolizer_too.Process.FirstUse.{Spawn, StartsWell, restarted_once, log_asked}
use sanitizer_symbolizer_too.Llvm
use sanitizer_symbolizer_too.Llvm.{format_command}
use sanitizer_symbolizer_too.Llvm.Answers.{command_for}
use sanitizer_symbolizer_too.Llvm.First.{new_symbolizer, symbolize_addr-StartsWell}
use sanitizer_symbolizer_too.Interface.{
  Globals, initial, yes_init_done, yes_send_done, yes_read_done,
}
use sanitizer_symbolizer_too.Interface.Calls.{init, addr_send, addr_read, code, sent, frame, call}
use sanitizer_symbolizer_too.Interface.Service.{
  ready, log_ready, request_for, init-addr_send-addr_read,
}
use sanitizer_symbolizer_too.Tests.Processes.{path}
use sanitizer_symbolizer_too.Tests.Requests.{
  answered, answered-Fits, talking_os, pieces, pieces-print_frames, pieces-HasNo,
}

-- The pipes are 14, 15 and 16, 17.
abbrev spawn : Spawn
spawn = record {
  reply_end = 14;
  reply_child_end = 15;
  command_child_end = 16;
  command_end = 17;
  pid = 100;
}

spawn-StartsWell : StartsWell talking_os llvm path (log_ready path) spawn
unfolding get_arg_v symbolizer_arch
spawn-StartsWell = record {
  file = refl;
  first = refl;
  first_high = refl;
  second = refl;
  second_high = refl;
  forked = refl;
  positive = refl;
  runs = refl;
}

abbrev wanted : Bytes
wanted = command_for (codes "a.out") (request_for (codes "a.out") 64)

wanted-short : length wanted < 16384
unfolding format_command hexadecimal
wanted-short = omega arith

wanted-Arrives :
    Arrives talking_os 14 [] (log_asked talking_os llvm path (log_ready path) spawn wanted) pieces
wanted-Arrives = ((refl, refl), ((refl, refl), tt))

symbolize_addr-StartsWell_example :
    Llvm.symbolize_addr talking_os 2
      (new_symbolizer path)
      (request_for (codes "a.out") 64)
      (log_ready path)
    ≡ ok (
      (
        true,
        record {
          symbolizer_process =
              some (record (restarted_once llvm path spawn) { buffer = joined pieces ++ 0 ∷ [] });
          buffer = wanted;
        },
        record (request_for (codes "a.out") 64) { frames = [] ++ map frame_of (answered ∷ []) },
      ),
      reads_log 14 pieces (log_asked talking_os llvm path (log_ready path) spawn wanted),
    )
symbolize_addr-StartsWell_example =
    symbolize_addr-StartsWell talking_os 2 path (log_ready path) spawn spawn-StartsWell
      (request_for (codes "a.out") 64) (codes "a.out") pieces (answered ∷ []) refl wanted-short refl
      wanted-Arrives pieces-print_frames pieces-HasNo (λ e. cc) (answered-Fits, tt) (omega arith)

init-addr_send-addr_read_example :
    (g : Globals) × (l : Log) × (call talking_os 2 (init (some path)) initial []
      ≡ ok ((code yes_init_done, ready path), log_ready path))
    × (call talking_os 2 (addr_send (chars (codes "a.out")) 64) (ready path) (log_ready path)
        ≡ ok ((sent yes_send_done (some 1), g), l))
    × (call talking_os 2 (addr_read 0) g l
        ≡ ok ((frame yes_read_done (some (frame_of answered)), g), l))
unfolding strip_module_name strrchr starts_with
init-addr_send-addr_read_example =
    init-addr_send-addr_read talking_os 2 path (codes "llvm-symbolizer") (codes "a.out") 64 spawn
      pieces (answered ∷ []) 0 answered (λ e. cc) refl refl refl spawn-StartsWell wanted-short refl
      wanted-Arrives pieces-print_frames pieces-HasNo (answered-Fits, tt) (omega arith) refl
