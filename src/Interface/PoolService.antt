-- ===== src/Interface/PoolService.antt =====
-- From the initialisation with addr2line to the frames that are read.
use sanitizer_symbolizer_too.Prelude.{
  ℕ, ◌%◌, ◌^◌, ◌≤◌, ◌≡◌, ◌≢◌, refl, ap, ◌∙◌, true, some, List, [], ◌∷◌, ◌++◌, map, arith, Bytes,
  codes, length, get_elem?, All, ok,
}
use sanitizer_symbolizer_too.Common.{strip_module_name}
use sanitizer_symbolizer_too.Clib.{starts_with, strcmp_eq}
use sanitizer_symbolizer_too.Common.Names.{HasNo}
use sanitizer_symbolizer_too.Info.{chars, FrameDat}
use sanitizer_symbolizer_too.Output.Frames.{Printed, Fits, print_frames, frame_of}
use sanitizer_symbolizer_too.System.{done, Log, Os}
use sanitizer_symbolizer_too.Symbolizer.{Kind, addr2line, output_terminator}
use sanitizer_symbolizer_too.Process.Delivery.{joined, reads_log}
use sanitizer_symbolizer_too.Process.FirstUse.{
  Spawn, StartsWell, restarted_once, log_running, log_asked,
}
use sanitizer_symbolizer_too.Process.Pieces.{Arrives}
use sanitizer_symbolizer_too.Process.Terminator.{EndsOnce}
use sanitizer_symbolizer_too.Pool
use sanitizer_symbolizer_too.Pool.{Addr2LinePool, format_request, new_addr2line_pool}
use sanitizer_symbolizer_too.Pool.First.{HasRoom, pool_addr-StartsWell}
use sanitizer_symbolizer_too.Interface.{
  Globals, initial, with_buffers, addr2line_pool, run_addr2line, yes_init_done, yes_send_done,
  yes_read_done, choose_tool, init_tool, san_sym_tool_init, symbolize_addr,
  san_sym_tool_send_addr_dat,
}
use sanitizer_symbolizer_too.Interface.Calls.{init, addr_send, addr_read, code, sent, frame, call}
use sanitizer_symbolizer_too.Interface.Service.{
  log_ready, request_for, get_elem?-map, length-map, read-frame,
}

abbrev pub empty_pool : Bytes → Addr2LinePool
empty_pool path = record { addr2line_path = some path; addr2line_pool = [] }

-- The globals behind the initialisation.
abbrev pub pool_ready : Bytes → Globals
pool_ready path = with_buffers initial (addr2line_pool (empty_pool path)) run_addr2line

abbrev pub line_kind : Bytes → Kind
line_kind name = addr2line (some name)

choose_tool-addr2line :
    (path base : Bytes)
    → path ≢ []
    → base ≡ codes "addr2line"
    → choose_tool initial path base ≡ ok (yes_init_done, pool_ready path)
unfolding choose_tool new_addr2line_pool starts_with strcmp_eq
choose_tool-addr2line [] base ne e = absurd (ne refl)
choose_tool-addr2line (c ∷ path) base ne e = rw e refl

init_tool-addr2line :
    (path base : Bytes)
    → path ≢ []
    → base ≡ codes "addr2line"
    → strip_module_name (some path) ≡ some base
    → init_tool initial (some path) ≡ ok (yes_init_done, pool_ready path)
unfolding init_tool
init_tool-addr2line path base ne e named =
    rw (named, init_tool, choose_tool-addr2line path base ne e) refl

init-pool_ready :
    (os : Os) (fuel : ℕ) (path : Bytes)
    → path ≢ []
    → strip_module_name (some path) ≡ some (codes "addr2line")
    → os.access [] (some path) ≡ true
    → call os fuel (init (some path)) initial []
      ≡ ok ((code yes_init_done, pool_ready path), log_ready path)
unfolding call san_sym_tool_init
init-pool_ready os fuel path ne named allowed =
    rw (allowed, init_tool-addr2line path (codes "addr2line") ne refl named) refl

pool_sent-frames :
    (os : Os) (fuel : ℕ) (path name : Bytes) (offset : ℕ) (l l' : Log) (s : Addr2LinePool)
    (fs : List FrameDat)
    → Pool.symbolize_addr os fuel (empty_pool path) (request_for name offset) l
      ≡ ok ((true, s, record (request_for name offset) { frames = fs }), l')
    → call os fuel (addr_send (chars name) offset) (pool_ready path) l
      ≡ ok (
        (
          sent yes_send_done (some (length fs)),
          record (pool_ready path) {
            san_sym_tool = some (addr2line_pool s);
            addr_info_buf = some (record (request_for name offset) { frames = fs });
          },
        ),
        l',
      )
unfolding call san_sym_tool_send_addr_dat symbolize_addr
pool_sent-frames os fuel path name offset l l' s fs e = rw e refl

empty_pool-HasRoom : (path name : Bytes) → path ≢ [] → HasRoom (empty_pool path) path name
empty_pool-HasRoom path name ne = record {
  located = refl;
  path_ne_nil = ne;
  pool = record { few = omega arith; distinct = tt; named = tt };
  room = omega arith;
  absent = tt;
}

-- From the start of the program with addr2line: SanSymTool_init with a path that may be
-- executed and whose last component is addr2line succeeds; the first SanSymTool_addr_send then
-- starts a child for the module, succeeds and tells the number of frames that the child
-- prints; and SanSymTool_addr_read for the index of a printed frame gives that frame. The
-- start of the child goes well, the request is written in full, and the reads give, in any
-- pieces that are not empty, at most as many as the fuel, the printed frames and the end mark,
-- with no NUL and no end mark that begins earlier behind the first byte. The frames fit as for
-- the parser of the replies.
pub pool_init-addr_send-addr_read :
    (os : Os) (fuel : ℕ) (path name : Bytes) (offset : ℕ) (s : Spawn) (cs : List Bytes) (c : ℕ)
    (reply : Bytes) (ps : List Printed) (i : ℕ) (p : Printed)
    → path ≢ []
    → strip_module_name (some path) ≡ some (codes "addr2line")
    → os.access [] (some path) ≡ true
    → StartsWell os (line_kind name) path (log_ready path) s
    → os.write
        (log_running os (line_kind name) path (log_ready path) s)
        s.command_end
        (format_request (offset % 2 ^ 32))
      ≡ done (length (format_request (offset % 2 ^ 32)))
    → Arrives os s.reply_end []
        (log_asked os (line_kind name) path (log_ready path) s (format_request (offset % 2 ^ 32)))
        cs
    → joined cs ≡ (c ∷ reply) ++ output_terminator
    → HasNo 0 (c ∷ reply)
    → EndsOnce reply
    → c ∷ reply ≡ print_frames ps []
    → All Fits ps
    → length cs ≤ fuel
    → get_elem? ps i ≡ some p
    → (g : Globals) × (l : Log) × (call os fuel (init (some path)) initial []
        ≡ ok ((code yes_init_done, pool_ready path), log_ready path))
      × (call os fuel (addr_send (chars name) offset) (pool_ready path) (log_ready path)
          ≡ ok ((sent yes_send_done (some (length ps)), g), l))
      × (call os fuel (addr_read i) g l ≡ ok ((frame yes_read_done (some (frame_of p)), g), l))
pool_init-addr_send-addr_read os fuel path name offset s cs c reply ps i p ne stripped allowed well
      written given text no_nul once printed shapes enough at_i =
    let command = format_request (offset % 2 ^ 32) in
    let l' =
      reads_log s.reply_end cs (log_asked os (line_kind name) path (log_ready path) s command) in
    let tool : Addr2LinePool = record (empty_pool path) {
      addr2line_pool =
          record (restarted_once (line_kind name) path s) { buffer = (c ∷ reply) ++ 0 ∷ [] } ∷ [];
    } in
    let a = record (request_for name offset) { frames = map frame_of ps } in
    let g = record (pool_ready path) {
      san_sym_tool = some (addr2line_pool tool);
      addr_info_buf = some a;
    } in
    let sends =
      pool_sent-frames os fuel path name offset (log_ready path) l' tool (map frame_of ps) (
        pool_addr-StartsWell os fuel (empty_pool path) path name (empty_pool-HasRoom path name ne)
          (request_for name offset) (log_ready path) s cs c reply ps refl (omega arith) well written
          given text no_nul once printed shapes enough) in
    let (found, within) = get_elem?-map frame_of ps i at_i in
    (
      g,
      l',
      init-pool_ready os fuel path ne stripped allowed,
      sends ∙ ap (λ n. ok ((sent yes_send_done (some n), g), l')) (length-map frame_of ps),
      read-frame os fuel i g l' a refl found within,
    )
