-- ===== src/Llvm/Requests.antt =====
-- Whole requests: the command, the child's reply in pieces, and what it is read as.
use sanitizer_symbolizer_too.Prelude.{
  ℕ, ◌≤◌, ◌<◌, ◌≡◌, ◌≢◌, ap, ◌∙◌, true, false, some, List, [], ◌∷◌, ◌++◌, map, Bytes, codes, length,
  All, ok,
}
use sanitizer_symbolizer_too.Common.Names.{HasNo}
use sanitizer_symbolizer_too.Clib.Number.{llong_max}
use sanitizer_symbolizer_too.Info.{chars, AddrInfo, DataInfo}
use sanitizer_symbolizer_too.Output.Frames.{Printed, Fits, print_frames, frame_of}
use sanitizer_symbolizer_too.Output.Symbol.{
  Source, FitsSource, print_symbol, source_file, source_line,
}
use sanitizer_symbolizer_too.System.{done, writes_to, Log, Os}
use sanitizer_symbolizer_too.Symbolizer.{llvm, SymbolizerProcess, max_times_restarted}
use sanitizer_symbolizer_too.Process.{send_command}
use sanitizer_symbolizer_too.Process.Delivery.{
  Delivers, joined, reads_log, read_llvm, c_str-append, send_command-answered,
}
use sanitizer_symbolizer_too.Process.Pieces.{Arrives, whole-Delivers}
use sanitizer_symbolizer_too.Llvm.Pieces.{print_frames-EndsAtEnd}
use sanitizer_symbolizer_too.Llvm.SymbolPieces.{OneLine, print_symbol-EndsAtEnd}
use sanitizer_symbolizer_too.Llvm.{LlvmSymbolizer, buffer_size, symbolize_addr, symbolize_data}
use sanitizer_symbolizer_too.Llvm.Answers.{
  command_for, data_command_for, format_command-pos, answered_frames, answered_symbol,
}

-- What a process that waits for a command looks like.
pub record IsReady (p : SymbolizerProcess) (input output : ℕ) : Type 0 where
  pub kind : p.kind ≡ llvm
  pub reading : p.input_fd ≡ some input
  pub writing : p.output_fd ≡ some output
  pub alive : p.failed_to_start ≡ false
  pub rounds : p.times_restarted < max_times_restarted

module _ (os : Os) (fuel : ℕ) (p : SymbolizerProcess) {input output : ℕ}
    (ready : IsReady p input output) where
  ready_answer :
      (command : Bytes) (l : Log) (cs : List Bytes)
      → 0 < length command
      → os.write l output command ≡ done (length command)
      → Delivers os llvm input [] (writes_to output command ∷ l) cs
      → HasNo 0 (joined cs)
      → length cs ≤ fuel
      → send_command os fuel p command l
        ≡ ok (
          (some (joined cs), record p { buffer = joined cs ++ 0 ∷ [] }),
          reads_log input cs (writes_to output command ∷ l),
        )
  ready_answer command l cs some_text written given no_nul enough =
      send_command-answered os fuel p command l ready.reading ready.writing some_text written
        (read_llvm os fuel p (writes_to output command ∷ l) cs ready.reading ready.kind given
          enough)
        ready.alive ready.rounds
      ∙ ap
          (λ t. ok (
            (some t, record p { buffer = joined cs ++ 0 ∷ [] }),
            reads_log input cs (writes_to output command ∷ l),
          ))
          (c_str-append (joined cs) no_nul)

  -- A request of LLVMSymbolizer::SymbolizeAddr, whose module name is a string and whose command
  -- is shorter than the buffer, on a process with both descriptors that is not marked as failed
  -- and has restarts left: if the write takes the command in full and the child prints at least
  -- one frame, with no NUL, and the reply arrives in any pieces that are not empty, at most as
  -- many as the fuel, then it succeeds, writes the command once, reads each piece once, keeps
  -- the whole reply and a NUL in the process's buffer, and appends the printed frames, in order,
  -- to those of the structure. The frames fit as for the parser of the replies.
  pub symbolize_addr-print_frames :
      (s : LlvmSymbolizer) (info : AddrInfo) (name : Bytes) (l : Log) (cs : List Bytes)
      (ps : List Printed)
      → s.symbolizer_process ≡ some p
      → info.module_name ≡ chars name
      → length (command_for name info) < buffer_size
      → os.write l output (command_for name info) ≡ done (length (command_for name info))
      → Arrives os input [] (writes_to output (command_for name info) ∷ l) cs
      → joined cs ≡ print_frames ps (codes "\n")
      → HasNo 0 (joined cs)
      → ps ≢ []
      → All Fits ps
      → length cs ≤ fuel
      → symbolize_addr os fuel s info l
        ≡ ok (
          (
            true,
            record {
              symbolizer_process = some (record p { buffer = joined cs ++ 0 ∷ [] });
              buffer = command_for name info;
            },
            record info { frames = info.frames ++ map frame_of ps },
          ),
          reads_log input cs (writes_to output (command_for name info) ∷ l),
        )
  symbolize_addr-print_frames s info name l cs ps e named fits written given text no_nul ne shapes
        enough =
      let delivered =
        whole-Delivers os llvm input (print_frames ps (codes "\n"))
          (writes_to output (command_for name info) ∷ l) cs (print_frames-EndsAtEnd ps ne shapes)
          text given in
      answered_frames os fuel s l e info name ps named fits
        (ready_answer (command_for name info) l cs
          (format_command-pos (codes "CODE") name info.module_offset info.module_arch) written
          delivered no_nul enough)
        text shapes

  -- A request of LLVMSymbolizer::SymbolizeData, under the conditions of the one for a code
  -- address: if the child prints a symbol, with no NUL, that arrives in any pieces that are not
  -- empty, at most as many as the fuel, it succeeds and stores the name, the start, the size,
  -- and the file and line or their defaults. The name and the file name hold no line break, the
  -- file name no colon, and the numbers are at most LLONG_MAX.
  pub symbolize_data-print_symbol :
      (s : LlvmSymbolizer) (info : DataInfo) (name : Bytes) (l : Log) (cs : List Bytes)
      (func : Bytes) (start size : ℕ) (source : Source)
      → s.symbolizer_process ≡ some p
      → info.module_name ≡ chars name
      → length (data_command_for name info) < buffer_size
      → os.write l output (data_command_for name info) ≡ done (length (data_command_for name info))
      → Arrives os input [] (writes_to output (data_command_for name info) ∷ l) cs
      → joined cs ≡ print_symbol func start size source
      → HasNo 0 (joined cs)
      → HasNo b'\n' func
      → start ≤ llong_max
      → size ≤ llong_max
      → FitsSource source
      → OneLine source
      → length cs ≤ fuel
      → symbolize_data os fuel s info l
        ≡ ok (
          (
            true,
            record {
              symbolizer_process = some (record p { buffer = joined cs ++ 0 ∷ [] });
              buffer = data_command_for name info;
            },
            record info {
              name = chars func;
              start = start;
              size = size;
              file = chars (source_file source);
              line = source_line source;
            },
          ),
          reads_log input cs (writes_to output (data_command_for name info) ∷ l),
        )
  symbolize_data-print_symbol s info name l cs func start size source e named fits written given
        text no_nul one_line small small' fits' one enough =
      let delivered =
        whole-Delivers os llvm input (print_symbol func start size source)
          (writes_to output (data_command_for name info) ∷ l) cs
          (print_symbol-EndsAtEnd func start size source one_line one) text given in
      answered_symbol os fuel s l e info name func start size source named fits
        (ready_answer (data_command_for name info) l cs
          (format_command-pos (codes "DATA") name info.module_offset info.module_arch) written
          delivered no_nul enough)
        text one_line small small' fits'
