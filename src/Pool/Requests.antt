-- ===== src/Pool/Requests.antt =====
-- Requests through `Addr2LinePool`: the command, its place in the buffer, the process that is asked,
-- and what its reply is read as.
use sanitizer_symbolizer_too.Prelude.{
  ℕ, ◌-◌, ◌^◌, ◌≤◌, ◌<◌, ◌≡◌, ◌≢◌, refl, sym, ap, subst, ◌∙◌, true, false, inl, inr, Option, none,
  some, List, [], ◌∷◌, ◌++◌, map, arith, Bytes, codes, Bool-cases, Option-cases, length,
  length-append, take, take-all, All, append_assoc, append-nil, ok,
}
use sanitizer_symbolizer_too.Clib.{strcmp_eq}
use sanitizer_symbolizer_too.Clib.Laws.{strcmp_eq_iff}
use sanitizer_symbolizer_too.Clib.Number.{hexadecimal, length-hexadecimal-le}
use sanitizer_symbolizer_too.Common.Names.{HasNo}
use sanitizer_symbolizer_too.Info.{chars, AddrInfo}
use sanitizer_symbolizer_too.Output.{parse_symbolize_addr_output}
use sanitizer_symbolizer_too.Output.Frames.{
  Printed, Fits, print_frames, frame_of, at_end, parse_symbolize_addr_output-print_frames,
}
use sanitizer_symbolizer_too.System.{done, writes_to, Log, Os}
use sanitizer_symbolizer_too.Symbolizer.{
  addr2line, SymbolizerProcess, max_times_restarted, output_terminator,
}
use sanitizer_symbolizer_too.Process.{send_command}
use sanitizer_symbolizer_too.Process.Delivery.{
  joined, reads_log, c_str-append, send_command-answered,
}
use sanitizer_symbolizer_too.Process.Terminator.{EndsOnce, read_addr2line}
use sanitizer_symbolizer_too.Process.Pieces.{Arrives, whole-Delivers}
use sanitizer_symbolizer_too.Pool.Pieces.{reply-EndsAtEnd}
use sanitizer_symbolizer_too.Pool.{
  Addr2LinePool, buffer_size, dummy_address, module_name, serves, find_process, choose_process,
  format_request, send_to_pool, symbolize_addr,
}
use sanitizer_symbolizer_too.Pool.Invariant.{IsPool, Distinct, names}

-- The request for an offset of at most 64 bits is not empty and is shorter than the buffer of
-- Addr2LinePool::SendCommand, so it is never cut.
pub format_request-le :
    (module_offset : ℕ)
    → module_offset < 2 ^ 64
    → (0 < length (format_request module_offset))
      × (length (format_request module_offset) < buffer_size)
unfolding format_request
format_request-le n h =
    let first = length-hexadecimal-le n h in
    let second = length-hexadecimal-le dummy_address (omega arith) in
    let rest = codes "\n0x" ++ (hexadecimal dummy_address ++ codes "\n") in
    let size = length-append (hexadecimal n) rest in
    let size' = length-append (hexadecimal dummy_address) (codes "\n") in (omega arith, omega arith)

-- The processes in front of that for the module are passed.
find_process_lem :
    (name : Bytes) (acc front : List SymbolizerProcess) (p : SymbolizerProcess)
    (behind : List SymbolizerProcess)
    → module_name p ≡ some name
    → All (λ y. y ≢ none) (names front)
    → All (λ y. y ≢ some name) (names front)
    → find_process name acc (front ++ p ∷ behind)
      ≡ ok (some (record { front = acc ++ front; process = p; behind = behind }))
unfolding find_process serves
find_process_lem name acc [] p behind e named other =
    let hit : strcmp_eq name name ≡ true = (strcmp_eq_iff name name).1 refl in
    rw (e, find_process, serves, hit, append-nil) refl
find_process_lem name acc (q ∷ front) p behind e named other = elim (Option-cases (module_name q)) [
  | inl e' ↦ absurd (named.0 e')
  | inr (own, e') ↦ elim (Bool-cases (strcmp_eq name own)) [
    | inl same ↦ absurd (other.0 (e' ∙ ap some (sym ((strcmp_eq_iff name own).0 same))))
    | inr differ ↦
        rw
          (
            e',
            find_process,
            serves,
            differ,
            find_process_lem name (acc ++ q ∷ []) front p behind e named.1 other.1,
          )
          (ap (λ x. ok (some (record { front = x; process = p; behind = behind })))
            (append_assoc acc (q ∷ []) front))
  ]
]

All-front :
    (P : Option Bytes → Type 0) (front : List SymbolizerProcess) (p : SymbolizerProcess)
    (behind : List SymbolizerProcess)
    → All P (names (front ++ p ∷ behind))
    → All P (names front)
All-front P [] p behind h = tt
All-front P (q ∷ front) p behind h = (h.0, All-front P front p behind h.1)

-- No process in front is for the module of `p`.
Distinct-front :
    (front : List SymbolizerProcess) (p : SymbolizerProcess) (behind : List SymbolizerProcess)
    {name : Bytes}
    → module_name p ≡ some name
    → Distinct (names (front ++ p ∷ behind))
    → All (λ y. y ≢ some name) (names front)
Distinct-front [] p behind e h = tt
Distinct-front (q ∷ front) p behind {name} e (fresh, later) =
    ((λ same. apart front fresh (e ∙ sym same)), Distinct-front front p behind e later)
  where
    apart :
        (xs : List SymbolizerProcess)
        → All (λ y. y ≢ module_name q) (names (xs ++ p ∷ behind))
        → module_name p ≢ module_name q
    apart [] f = f.0
    apart (x ∷ xs) f = apart xs f.1

-- What an addr2line process that waits for a command looks like.
pub record IsReady (p : SymbolizerProcess) (name : Bytes) (input output : ℕ) : Type 0 where
  pub kind : p.kind ≡ addr2line (some name)
  pub reading : p.input_fd ≡ some input
  pub writing : p.output_fd ≡ some output
  pub alive : p.failed_to_start ≡ false
  pub rounds : p.times_restarted < max_times_restarted

module _ (os : Os) (fuel : ℕ) (s : Addr2LinePool) (front behind : List SymbolizerProcess)
    (p : SymbolizerProcess) (name : Bytes) (whole : s.addr2line_pool ≡ front ++ p ∷ behind)
    (pool : IsPool s.addr2line_pool) (own : module_name p ≡ some name) where
  choose_process-present :
      (l : Log)
      → choose_process os s name l
        ≡ ok ((s, record { front = front; process = p; behind = behind }), l)
  unfolding choose_process
  choose_process-present l =
      let named =
        All-front _ front p behind
          (subst (λ ps. All (λ y. y ≢ none) (names ps)) whole pool.named) in
      let other =
        Distinct-front front p behind own (subst (λ ps. Distinct (names ps)) whole pool.distinct) in
      let found : find_process name [] s.addr2line_pool
          ≡ ok (some (record { front = front; process = p; behind = behind })) =
        ap (find_process name []) whole ∙ find_process_lem name [] front p behind own named other in
      rw found refl

  serves-own : serves name p ≡ ok true
  unfolding serves
  serves-own =
      let hit : strcmp_eq name name ≡ true = (strcmp_eq_iff name name).1 refl in
      rw (own, serves, hit) refl

  -- The answer of the module's process is the pool's.
  send_to_pool-present :
      (module_offset : ℕ) (l : Log) {r : Option Bytes} {q : SymbolizerProcess} {l' : Log}
      → module_offset < 2 ^ 64
      → send_command os fuel p (format_request module_offset) l ≡ ok ((r, q), l')
      → send_to_pool os fuel s (chars name) module_offset l
        ≡ ok ((r, record s { addr2line_pool = front ++ q ∷ behind }), l')
  unfolding send_to_pool
  send_to_pool-present module_offset l {r} {q} {l'} small answer =
      let uncut : take (buffer_size - 1) (format_request module_offset)
          ≡ format_request module_offset =
        take-all (buffer_size - 1) (format_request module_offset)
          (omega (arith, format_request-le module_offset small)) in
      rw (choose_process-present l, serves-own, uncut, answer) refl

  -- A request through Addr2LinePool::SymbolizeAddr for a module that a process of the pool is
  -- for: the pool holds at most 16 processes, each for a module of its own, the offset fits 64
  -- bits, and the process has both descriptors, is not marked as failed and has restarts left.
  -- If the write takes the request in full, and the reads give, in any pieces that are not
  -- empty, at most as many as the fuel, a printed reply and the end mark, with no NUL and no end
  -- mark that begins earlier behind the first byte, then it succeeds, writes the request once,
  -- reads each piece once, cuts the end mark off, appends the printed frames, and changes no
  -- other process. The frames fit as for the parser of the replies.
  pub pool_addr-print_frames :
      {input output : ℕ} (info : AddrInfo) (l : Log) (cs : List Bytes) (c : ℕ) (reply : Bytes)
      (ps : List Printed)
      → IsReady p name input output
      → info.module_name ≡ chars name
      → info.module_offset < 2 ^ 64
      → os.write l output (format_request info.module_offset)
        ≡ done (length (format_request info.module_offset))
      → Arrives os input [] (writes_to output (format_request info.module_offset) ∷ l) cs
      → joined cs ≡ (c ∷ reply) ++ output_terminator
      → HasNo 0 (c ∷ reply)
      → EndsOnce reply
      → c ∷ reply ≡ print_frames ps []
      → All Fits ps
      → length cs ≤ fuel
      → symbolize_addr os fuel s info l
        ≡ ok (
          (
            true,
            record s {
              addr2line_pool = front ++ record p { buffer = (c ∷ reply) ++ 0 ∷ [] } ∷ behind;
            },
            record info { frames = info.frames ++ map frame_of ps },
          ),
          reads_log input cs (writes_to output (format_request info.module_offset) ∷ l),
        )
  unfolding symbolize_addr
  pool_addr-print_frames info l cs c reply ps ready named small written given text no_nul once
        printed shapes enough =
      let command = format_request info.module_offset in
      let delivered =
        whole-Delivers os (addr2line (some name)) _ ((c ∷ reply) ++ output_terminator)
          (writes_to _ command ∷ l) cs (reply-EndsAtEnd (some name) c reply once) text given in
      let answer =
        send_command-answered os fuel p command l ready.reading ready.writing
          (format_request-le info.module_offset small).0 written
          (read_addr2line os fuel p (writes_to _ command ∷ l) (some name) cs c reply ready.reading
            ready.kind delivered enough text no_nul.1 once)
          ready.alive ready.rounds in
      let sent =
        ap (λ x. send_to_pool os fuel s x info.module_offset l) named
        ∙ send_to_pool-present info.module_offset l small answer in
      let parsed =
        ap (λ t. parse_symbolize_addr_output t info) (c_str-append (c ∷ reply) no_nul ∙ printed)
        ∙ parse_symbolize_addr_output-print_frames ps [] info shapes (at_end refl) in
      rw (sent, parsed) refl
