-- ===== src/Pool/First.antt =====
-- The first request of `Addr2LinePool` for a module, with the start of the module's child.
use sanitizer_symbolizer_too.Prelude.{
  ℕ, ◌-◌, ◌^◌, ◌≤◌, ◌<◌, ◌≡◌, ◌≢◌, refl, sym, ap, ◌∙◌, true, false, inl, inr, Option, none, some,
  List, [], ◌∷◌, ◌++◌, map, arith, Bytes, leb, Bool-cases, Option-cases, length, take, take-all,
  All, ok,
}
use sanitizer_symbolizer_too.Clib.{strcmp_eq}
use sanitizer_symbolizer_too.Clib.Laws.{strcmp_eq_iff}
use sanitizer_symbolizer_too.Common.Names.{HasNo}
use sanitizer_symbolizer_too.Info.{chars, AddrInfo}
use sanitizer_symbolizer_too.Output.{parse_symbolize_addr_output}
use sanitizer_symbolizer_too.Output.Frames.{
  Printed, Fits, print_frames, frame_of, at_end, parse_symbolize_addr_output-print_frames,
}
use sanitizer_symbolizer_too.System.{done, Log, Os}
use sanitizer_symbolizer_too.Symbolizer.{addr2line, SymbolizerProcess, output_terminator}
use sanitizer_symbolizer_too.Process.{send_command}
use sanitizer_symbolizer_too.Process.Delivery.{joined, reads_log, c_str-append}
use sanitizer_symbolizer_too.Process.Terminator.{EndsOnce, read_addr2line}
use sanitizer_symbolizer_too.Process.FirstUse.{
  Spawn, StartsWell, unused, new_process-unused, restarted_once, log_running, log_asked,
  send_command-StartsWell,
}
use sanitizer_symbolizer_too.Process.Pieces.{Arrives, whole-Delivers}
use sanitizer_symbolizer_too.Pool.{
  Addr2LinePool, pool_max, buffer_size, module_name, serves, find_process, choose_process,
  new_addr2line_process, format_request, send_to_pool, symbolize_addr,
}
use sanitizer_symbolizer_too.Pool.Invariant.{IsPool, names}
use sanitizer_symbolizer_too.Pool.Pieces.{reply-EndsAtEnd}
use sanitizer_symbolizer_too.Pool.Requests.{format_request-le}

find_process-absent :
    (name : Bytes) (front ps : List SymbolizerProcess)
    → All (λ y. y ≢ none) (names ps)
    → All (λ y. y ≢ some name) (names ps)
    → find_process name front ps ≡ ok none
unfolding find_process serves
find_process-absent name front [] named other = refl
find_process-absent name front (q ∷ ps) named other = elim (Option-cases (module_name q)) [
  | inl e ↦ absurd (named.0 e)
  | inr (own, e) ↦ elim (Bool-cases (strcmp_eq name own)) [
    | inl same ↦ absurd (other.0 (e ∙ ap some (sym ((strcmp_eq_iff name own).0 same))))
    | inr differ ↦
        rw
          (
            e,
            find_process,
            serves,
            differ,
            find_process-absent name (front ++ q ∷ []) ps named.1 other.1,
          )
          refl
  ]
]

-- A pool that has room and no process for the module.
pub record HasRoom (s : Addr2LinePool) (path name : Bytes) : Type 0 where
  pub located : s.addr2line_path ≡ some path
  pub path_ne_nil : path ≢ []
  pub pool : IsPool s.addr2line_pool
  pub room : length s.addr2line_pool < pool_max
  pub absent : All (λ y. y ≢ some name) (names s.addr2line_pool)

abbrev pub new_line_process : Bytes → Bytes → SymbolizerProcess
new_line_process path name = unused (addr2line (some name)) path

module _ (os : Os) (fuel : ℕ) (s : Addr2LinePool) (path name : Bytes)
    (has : HasRoom s path name) where
  choose_process-absent :
      (l : Log)
      → choose_process os s name l
        ≡ ok (
          (
            s,
            record { front = s.addr2line_pool; process = new_line_process path name; behind = [] },
          ),
          l,
        )
  unfolding choose_process new_addr2line_process
  choose_process-absent l =
      let not_full : leb pool_max (length s.addr2line_pool) ≡ false = ground (arith, has.room) in
      rw
        (
          find_process-absent name [] s.addr2line_pool has.pool.named has.absent,
          not_full,
          has.located,
          new_process-unused (addr2line (some name)) path has.path_ne_nil,
        )
        refl

  serves-new : serves name (new_line_process path name) ≡ ok true
  unfolding serves
  serves-new =
      (let hit : strcmp_eq name name ≡ true = (strcmp_eq_iff name name).1 refl in rw hit refl)

  send_to_pool-absent :
      (module_offset : ℕ) (l : Log) {r : Option Bytes} {q : SymbolizerProcess} {l' : Log}
      → module_offset < 2 ^ 64
      → send_command os fuel (new_line_process path name) (format_request module_offset) l
        ≡ ok ((r, q), l')
      → send_to_pool os fuel s (chars name) module_offset l
        ≡ ok ((r, record s { addr2line_pool = s.addr2line_pool ++ q ∷ [] }), l')
  unfolding send_to_pool
  send_to_pool-absent module_offset l {r} {q} {l'} small answer =
      let uncut : take (buffer_size - 1) (format_request module_offset)
          ≡ format_request module_offset =
        take-all (buffer_size - 1) (format_request module_offset)
          (omega (arith, format_request-le module_offset small)) in
      rw (choose_process-absent l, serves-new, uncut, answer) refl

  -- wait
  pub pool_addr-StartsWell :
      (info : AddrInfo) (l : Log) (spawn : Spawn) (cs : List Bytes) (c : ℕ) (reply : Bytes)
      (ps : List Printed)
      → info.module_name ≡ chars name
      → info.module_offset < 2 ^ 64
      → StartsWell os (addr2line (some name)) path l spawn
      → os.write
          (log_running os (addr2line (some name)) path l spawn)
          spawn.command_end
          (format_request info.module_offset)
        ≡ done (length (format_request info.module_offset))
      → Arrives os spawn.reply_end []
          (log_asked os (addr2line (some name)) path l spawn (format_request info.module_offset))
          cs
      → joined cs ≡ (c ∷ reply) ++ output_terminator
      → HasNo 0 (c ∷ reply)
      → EndsOnce reply
      → c ∷ reply ≡ print_frames ps []
      → All Fits ps
      → length cs ≤ fuel
      → symbolize_addr os fuel s info l
        ≡ ok (
          (
            true,
            record s {
              addr2line_pool =
                  s.addr2line_pool
                  ++ record (restarted_once (addr2line (some name)) path spawn) {
                    buffer = (c ∷ reply) ++ 0 ∷ [];
                  }
                    ∷ [];
            },
            record info { frames = info.frames ++ map frame_of ps },
          ),
          reads_log spawn.reply_end cs (
              log_asked os
                (addr2line (some name))
                path
                l
                spawn
                (format_request info.module_offset)),
        )
  unfolding symbolize_addr
  pool_addr-StartsWell info l spawn cs c reply ps named small well written given text no_nul once
        printed shapes enough =
      let kind = addr2line (some name) in
      let command = format_request info.module_offset in
      let asked = log_asked os kind path l spawn command in
      let delivered =
        whole-Delivers os kind spawn.reply_end ((c ∷ reply) ++ output_terminator) asked cs
          (reply-EndsAtEnd (some name) c reply once) text given in
      let read =
        read_addr2line os fuel (restarted_once kind path spawn) asked (some name) cs c reply refl
          refl delivered enough text no_nul.1 once in
      let answer =
        send_command-StartsWell os fuel kind path l spawn well command
          (format_request-le info.module_offset small).0 written read in
      let sent =
        ap (λ x. send_to_pool os fuel s x info.module_offset l) named
        ∙ send_to_pool-absent info.module_offset l small answer in
      let parsed =
        ap (λ t. parse_symbolize_addr_output t info) (c_str-append (c ∷ reply) no_nul ∙ printed)
        ∙ parse_symbolize_addr_output-print_frames ps [] info shapes (at_end refl) in
      rw (sent, parsed) refl
