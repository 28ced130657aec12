-- ===== src/Tests/Pools.antt =====
-- Requests through the pool of addr2line.
use sanitizer_symbolizer_too.Prelude.{
  zero, suc, ◌<◌, ◌≡◌, refl, true, some, List, [], ◌∷◌, ◌++◌, map, arith, Bytes, codes, length, ok,
}
use sanitizer_symbolizer_too.Clib.{starts_with}
use sanitizer_symbolizer_too.Clib.Number.{decimal, digits_onto}
use sanitizer_symbolizer_too.Common
use sanitizer_symbolizer_too.Info.{chars, AddrInfo}
use sanitizer_symbolizer_too.Output.Lines.{print_place}
use sanitizer_symbolizer_too.Output.Frames.{print_frames, frame_of}
use sanitizer_symbolizer_too.System.{done, reads_from, writes_to, Log, Os}
use sanitizer_symbolizer_too.System.Post.{Post}
use sanitizer_symbolizer_too.Symbolizer.{addr2line, output_terminator, SymbolizerProcess}
use sanitizer_symbolizer_too.Process.{cut_terminator}
use sanitizer_symbolizer_too.Process.Pieces.{Arrives}
use sanitizer_symbolizer_too.Process.Delivery.{joined, reads_log}
use sanitizer_symbolizer_too.Process.Terminator.{EndsOnce, cut_terminator_lem}
use sanitizer_symbolizer_too.Pool
use sanitizer_symbolizer_too.Pool.{Addr2LinePool, buffer_size, format_request, send_to_pool}
use sanitizer_symbolizer_too.Pool.Requests.{IsReady, format_request-le, pool_addr-print_frames}
use sanitizer_symbolizer_too.Pool.Invariant.{IsPool, ServedIn, send_to_pool-IsPool}
use sanitizer_symbolizer_too.Tests.Parsing.{has_no, has_no-HasNo}
use sanitizer_symbolizer_too.Tests.Processes.{started, silent_os}
use sanitizer_symbolizer_too.Tests.Requests.{answered, answered-Fits}

-- A request for `a.out`, whose process stands behind one for `b.so`.
abbrev line_tool : SymbolizerProcess
line_tool = record started { kind = addr2line (some (codes "a.out")) }

abbrev two_processes : Addr2LinePool
two_processes = record {
  addr2line_path = some (codes "/bin/addr2line");
  addr2line_pool = record started { kind = addr2line (some (codes "b.so")) } ∷ line_tool ∷ [];
}

two_processes-IsPool : IsPool two_processes.addr2line_pool
two_processes-IsPool = record {
  few = omega arith;
  distinct = (((λ e. cc), tt), (tt, tt));
  named = ((λ e. cc), ((λ e. cc), tt));
}

line_tool-IsReady : IsReady line_tool (codes "a.out") 10 13
line_tool-IsReady = record {
  kind = refl;
  reading = refl;
  writing = refl;
  alive = refl;
  rounds = omega arith;
}

abbrev pub line_pieces : List Bytes
line_pieces = codes "f\na" ∷ codes ".c:7\n??\n??:0\n" ∷ []

abbrev pub next_line_piece : Log → Bytes
next_line_piece (reads_from fd ∷ l) = codes ".c:7\n??\n??:0\n"
next_line_piece _ = codes "f\na"

abbrev line_os : Os
line_os = record silent_os { read = λ l fd size. done (next_line_piece l) }

abbrev place : AddrInfo
place = record {
  module_name = chars (codes "a.out");
  module_offset = 64;
  module_arch = Common.unknown;
  frames = [];
}

abbrev line_asked : Bytes
line_asked = format_request 64

line_delivered : Arrives line_os 10 [] (writes_to 13 line_asked ∷ []) line_pieces
line_delivered = ((refl, refl), ((refl, refl), tt))

pub line_pieces-joined : joined line_pieces ≡ codes "f\na.c:7\n" ++ output_terminator
unfolding joined
line_pieces-joined = refl

-- The mark does not begin earlier.
pub line_reply-EndsOnce : EndsOnce (codes "\na.c:7\n")
unfolding starts_with
line_reply-EndsOnce zero h = refl
line_reply-EndsOnce (suc zero) h = refl
line_reply-EndsOnce (suc (suc zero)) h = refl
line_reply-EndsOnce (suc (suc (suc zero))) h = refl
line_reply-EndsOnce (suc (suc (suc (suc zero)))) h = refl
line_reply-EndsOnce (suc (suc (suc (suc (suc zero))))) h = refl
line_reply-EndsOnce (suc (suc (suc (suc (suc (suc zero)))))) h = refl
line_reply-EndsOnce (suc (suc (suc (suc (suc (suc (suc k))))))) h = absurd (omega arith)

pub line_reply-print_frames : codes "f\na.c:7\n" ≡ print_frames (answered ∷ []) []
unfolding print_frames print_place decimal digits_onto
line_reply-print_frames = refl

pool_addr-print_frames_example :
    Pool.symbolize_addr line_os 2 two_processes place []
    ≡ ok (
      (
        true,
        record two_processes {
          addr2line_pool =
              (record started { kind = addr2line (some (codes "b.so")) } ∷ [])
              ++ record line_tool { buffer = codes "f\na.c:7\n" ++ 0 ∷ [] } ∷ [];
        },
        record place { frames = [] ++ map frame_of (answered ∷ []) },
      ),
      reads_log 10 line_pieces (writes_to 13 line_asked ∷ []),
    )
unfolding has_no
pool_addr-print_frames_example =
    pool_addr-print_frames line_os 2 two_processes
      (record started { kind = addr2line (some (codes "b.so")) } ∷ []) [] line_tool (codes "a.out")
      refl two_processes-IsPool refl place [] line_pieces b'f' (codes "\na.c:7\n") (answered ∷ [])
      line_tool-IsReady refl (omega arith) refl line_delivered line_pieces-joined
      (has_no-HasNo 0 (codes "f\na.c:7\n") refl) line_reply-EndsOnce line_reply-print_frames
      (answered-Fits, tt) (omega arith)

send_to_pool-IsPool_example :
    Post
      (λ r l'. IsPool r.1.addr2line_pool × ServedIn (codes "a.out") r.1.addr2line_pool)
      (send_to_pool line_os 2 two_processes (chars (codes "a.out")) 64 [])
send_to_pool-IsPool_example =
    send_to_pool-IsPool line_os 2 two_processes (codes "a.out") 64 [] two_processes-IsPool

format_request-le_example :
    (0 < length (format_request 4096)) × (length (format_request 4096) < buffer_size)
format_request-le_example = format_request-le 4096 (omega arith)

cut_terminator_lem_example :
    cut_terminator silent_os ((b'f' ∷ (codes "\na.c:7\n" ++ output_terminator)) ++ 0 ∷ [])
    ≡ ok (b'f' ∷ (codes "\na.c:7\n" ++ 0 ∷ []))
unfolding has_no
cut_terminator_lem_example =
    cut_terminator_lem silent_os b'f' (codes "\na.c:7\n") (has_no-HasNo 0 (codes "\na.c:7\n") refl)
      line_reply-EndsOnce
