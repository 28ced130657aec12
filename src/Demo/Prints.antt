-- ===== src/Demo/Prints.antt =====
-- What the demo prints of a child that answers each of its requests for code.
use sanitizer_symbolizer_too.Prelude.{
  ℕ, zero, suc, ◌+◌, ◌%◌, ◌^◌, ◌≤◌, ◌<◌, ◌≡◌, ◌≢◌, refl, ap, ◌∙◌, true, false, some, List, [], ◌∷◌,
  ◌++◌, map, arith, Bytes, codes, leb, length, All, ok,
}
use sanitizer_symbolizer_too.Clib.Number.{length-hexadecimal-le}
use sanitizer_symbolizer_too.Common.{unknown}
use sanitizer_symbolizer_too.Common.Names.{HasNo}
use sanitizer_symbolizer_too.Info.{chars, AddrInfo}
use sanitizer_symbolizer_too.Output.Frames.{Printed, Fits, print_frames, frame_of}
use sanitizer_symbolizer_too.System.{done, writes_to, Log, Os}
use sanitizer_symbolizer_too.Symbolizer.{SymbolizerProcess}
use sanitizer_symbolizer_too.Process.Delivery.{joined, reads_log}
use sanitizer_symbolizer_too.Process.Pieces.{Arrives}
use sanitizer_symbolizer_too.Llvm.{buffer_size, format_command}
use sanitizer_symbolizer_too.Llvm.Requests.{IsReady, symbolize_addr-print_frames}
use sanitizer_symbolizer_too.Interface.{
  Globals, yes_send_done, symbolize_addr, san_sym_tool_send_addr_dat,
}
use sanitizer_symbolizer_too.Interface.Calls.{addr_send, sent, call}
use sanitizer_symbolizer_too.Interface.Service.{length-map}
use sanitizer_symbolizer_too.Interface.TooLong.{addr_asked, length-format_command}
use sanitizer_symbolizer_too.Demo.{Line, code_at, use_prog, code_round, code_rounds}
use sanitizer_symbolizer_too.Demo.Shows.{line_of, serving, frame_rounds-line_of, freed}

-- The command of the demo for an address.
abbrev pub demo_command : ℕ → Bytes
demo_command i = format_command (codes "CODE") use_prog (i % 2 ^ 32) unknown

demo_command-short : (i : ℕ) → length (demo_command i) < buffer_size
demo_command-short i = omega (
  arith,
  length-format_command (codes "CODE") use_prog (i % 2 ^ 32),
  length-hexadecimal-le (i % 2 ^ 32) (omega arith),
)

-- The command is taken, and the child prints frames, in some pieces.
pub record Answered (os : Os) (fuel input output i : ℕ) (l : Log) (ps : List Printed)
    (cs : List Bytes) : Type 0 where
  pub taken : os.write l output (demo_command i) ≡ done (length (demo_command i))
  pub arrives : Arrives os input [] (writes_to output (demo_command i) ∷ l) cs
  pub text : joined cs ≡ print_frames ps (codes "\n")
  pub no_nul : HasNo 0 (joined cs)
  pub some_frame : ps ≢ []
  pub shapes : All Fits ps
  pub enough : length cs ≤ fuel

-- Each address in turn is answered.
unfoldable pub AllAnswered : Os → ℕ → ℕ → ℕ → ℕ → Log → List (List Printed × List Bytes) → Type 0
AllAnswered os fuel input output i l [] = Unit
AllAnswered os fuel input output i l ((ps, cs) ∷ rs) =
    Answered os fuel input output i l ps cs
    × AllAnswered os fuel input output (suc i)
        (reads_log input cs (writes_to output (demo_command i) ∷ l)) rs

-- The lines for the addresses from `i` on.
unfoldable pub demo_text : ℕ → List (List Printed × List Bytes) → List Line
demo_text i [] = []
demo_text i ((ps, cs) ∷ rs) = code_at i ∷ (map line_of ps ++ demo_text (suc i) rs)

module _ (os : Os) (fuel : ℕ) {input output : ℕ} where
  address_sent :
      (i : ℕ) (l : Log) (ps : List Printed) (cs : List Bytes) (g : Globals) (p : SymbolizerProcess)
      (command : Bytes) (a : AddrInfo)
      → IsReady p input output
      → Answered os fuel input output i l ps cs
      → call os fuel (addr_send (chars use_prog) i) (serving g p command a []) l
        ≡ ok (
          (
            sent yes_send_done (some (length (map frame_of ps))),
            serving g
                (record p { buffer = joined cs ++ 0 ∷ [] })
                (demo_command i)
                (addr_asked use_prog (i % 2 ^ 32) a)
                (map frame_of ps),
          ),
          reads_log input cs (writes_to output (demo_command i) ∷ l),
        )
  unfolding call san_sym_tool_send_addr_dat symbolize_addr
  address_sent i l ps cs g p command a ready answer =
      let asked : AddrInfo = record (addr_asked use_prog (i % 2 ^ 32) a) { frames = [] } in
      rw
        (symbolize_addr-print_frames os fuel p ready
          (record { symbolizer_process = some p; buffer = command }) asked use_prog l cs ps refl
          refl (demo_command-short i) answer.taken answer.arrives answer.text answer.no_nul
          answer.some_frame answer.shapes answer.enough)
        refl

  -- The loop of code_each over a range of addresses whose last one is below UINT_MAX, with a
  -- round for each and one more, with llvm-symbolizer as the tool, on a process with both
  -- descriptors that is not marked as failed and has restarts left, and no frames held: if each
  -- command is written in full and the reads that follow give the printed frames for that
  -- address, at least one, with no NUL, in any pieces that are not empty, at most as many as the
  -- fuel, then the loop returns, and the demo prints for each address in turn its line and a
  -- line for each frame with the name and the file as the child printed them, `??` included, and
  -- the numbers, 0 for one that is not printed. The frames fit as for the parser of the replies.
  pub code_rounds-Answered :
      (rs : List (List Printed × List Bytes)) (rounds i tail : ℕ) (l : Log) (g : Globals)
      (p : SymbolizerProcess) (command : Bytes) (a : AddrInfo)
      → i + length rs ≡ tail + 1
      → tail + 1 < 2 ^ 32
      → length rs < rounds
      → IsReady p input output
      → AllAnswered os fuel input output i l rs
      → (g' : Globals) × (l' : Log) × (code_rounds os fuel rounds tail i
            (serving g p command a [])
            l
          ≡ ok ((demo_text i rs, g'), l'))
  unfolding code_rounds code_round AllAnswered demo_text
  code_rounds-Answered rs zero i tail l g p command a range small enough ready answers =
      absurd (omega arith)
  code_rounds-Answered [] (suc rounds) i tail l g p command a range small enough ready answers =
      let past : leb i tail ≡ false = ground arith in (serving g p command a [], l, rw past refl)
  code_rounds-Answered ((ps, cs) ∷ rs) (suc rounds) i tail l g p command a range small enough ready
        (answer, answers) =
      let within : leb i tail ≡ true = ground arith in
      let next : suc i % 2 ^ 32 ≡ suc i = omega arith in
      let q = record p { buffer = joined cs ++ 0 ∷ [] } in
      let asked = addr_asked use_prog (i % 2 ^ 32) a in
      let l1 = reads_log input cs (writes_to output (demo_command i) ∷ l) in
      let again : IsReady q input output = record {
        kind = ready.kind;
        reading = ready.reading;
        writing = ready.writing;
        alive = ready.alive;
        rounds = ready.rounds;
      } in
      let (g', l', rest) =
        code_rounds-Answered rs rounds (suc i) tail l1 g q (demo_command i) asked (omega arith)
          small (omega arith) again answers in
      let rest' =
        ap (λ x. code_rounds os fuel rounds tail x (serving g q (demo_command i) asked []) l1) next
        ∙ rest in
      let shown =
        frame_rounds-line_of os fuel ps [] (map frame_of ps) 0 g q (demo_command i) asked l1 refl
          refl in
      (
        g',
        l',
        rw
            (
              within,
              address_sent i l ps cs g p command a ready answer,
              length-map frame_of ps,
              shown,
              freed os fuel ps g q (demo_command i) asked l1,
              rest',
            )
            refl,
      )
