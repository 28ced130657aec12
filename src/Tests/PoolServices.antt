-- ===== src/Tests/PoolServices.antt =====
-- From the initialisation with addr2line to a frame.
use sanitizer_symbolizer_too.Prelude.{◌≡◌, refl, some, [], ◌∷◌, arith, Bytes, codes, ok}
use sanitizer_symbolizer_too.Common.{strrchr, strip_module_name}
use sanitizer_symbolizer_too.Info.{chars}
use sanitizer_symbolizer_too.Output.Frames.{frame_of}
use sanitizer_symbolizer_too.System.{done, Log, Os}
use sanitizer_symbolizer_too.Symbolizer.{get_arg_v}
use sanitizer_symbolizer_too.Process.FirstUse.{Spawn, StartsWell, log_asked}
use sanitizer_symbolizer_too.Process.Pieces.{Arrives}
use sanitizer_symbolizer_too.Pool.{format_request}
use sanitizer_symbolizer_too.Interface.{
  Globals, initial, yes_init_done, yes_send_done, yes_read_done,
}
use sanitizer_symbolizer_too.Interface.Calls.{init, addr_send, addr_read, code, sent, frame, call}
use sanitizer_symbolizer_too.Interface.Service.{log_ready}
use sanitizer_symbolizer_too.Interface.PoolService.{
  line_kind, pool_ready, pool_init-addr_send-addr_read,
}
use sanitizer_symbolizer_too.Tests.Parsing.{has_no, has_no-HasNo}
use sanitizer_symbolizer_too.Tests.Requests.{answered, answered-Fits, talking_os}
use sanitizer_symbolizer_too.Tests.Pools.{
  line_pieces, line_pieces-joined, next_line_piece, line_reply-EndsOnce, line_reply-print_frames,
}

abbrev line_path : Bytes
line_path = codes "/usr/bin/addr2line"

abbrev line_talking_os : Os
line_talking_os = record talking_os { read = λ l fd size. done (next_line_piece l) }

abbrev line_spawn : Spawn
line_spawn = record {
  reply_end = 14;
  reply_child_end = 15;
  command_child_end = 16;
  command_end = 17;
  pid = 100;
}

line_spawn-StartsWell :
    StartsWell line_talking_os
      (line_kind (codes "a.out"))
      line_path
      (log_ready line_path)
      line_spawn
unfolding get_arg_v
line_spawn-StartsWell = record {
  file = refl;
  first = refl;
  first_high = refl;
  second = refl;
  second_high = refl;
  forked = refl;
  positive = refl;
  runs = refl;
}

line_pieces-Arrives :
    Arrives line_talking_os 14 []
      (log_asked line_talking_os
        (line_kind (codes "a.out"))
        line_path
        (log_ready line_path)
        line_spawn
        (format_request 64))
      line_pieces
line_pieces-Arrives = ((refl, refl), ((refl, refl), tt))

pool_init-addr_send-addr_read_example :
    (g : Globals) × (l : Log) × (call line_talking_os 2 (init (some line_path)) initial []
      ≡ ok ((code yes_init_done, pool_ready line_path), log_ready line_path))
    × (call line_talking_os 2
          (addr_send (chars (codes "a.out")) 64)
          (pool_ready line_path)
          (log_ready line_path)
        ≡ ok ((sent yes_send_done (some 1), g), l))
    × (call line_talking_os 2 (addr_read 0) g l
        ≡ ok ((frame yes_read_done (some (frame_of answered)), g), l))
unfolding strip_module_name strrchr has_no
pool_init-addr_send-addr_read_example =
    pool_init-addr_send-addr_read line_talking_os 2 line_path (codes "a.out") 64 line_spawn
      line_pieces b'f' (codes "\na.c:7\n") (answered ∷ []) 0 answered (λ e. cc) refl refl
      line_spawn-StartsWell refl line_pieces-Arrives line_pieces-joined
      (has_no-HasNo 0 (codes "f\na.c:7\n") refl) line_reply-EndsOnce line_reply-print_frames
      (answered-Fits, tt) (omega arith) refl
