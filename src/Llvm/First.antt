-- ===== src/Llvm/First.antt =====
-- The first request of an LLVMSymbolizer, with the start of its child.
use sanitizer_symbolizer_too.Prelude.{
  ℕ, ◌≤◌, ◌<◌, ◌≡◌, ◌≢◌, refl, ◌∙◌, true, some, List, [], ◌∷◌, ◌++◌, map, Bytes, codes, length, All,
  ok,
}
use sanitizer_symbolizer_too.Common.Names.{HasNo}
use sanitizer_symbolizer_too.Info.{chars, AddrInfo}
use sanitizer_symbolizer_too.Output.Frames.{Printed, Fits, print_frames, frame_of}
use sanitizer_symbolizer_too.System.{done, Log, Os}
use sanitizer_symbolizer_too.Symbolizer.{llvm}
use sanitizer_symbolizer_too.Process.Delivery.{joined, reads_log, read_llvm, c_str-append}
use sanitizer_symbolizer_too.Process.FirstUse.{
  Spawn, StartsWell, unused, new_process-unused, restarted_once, log_running, log_asked,
  send_command-StartsWell,
}
use sanitizer_symbolizer_too.Process.Pieces.{Arrives, whole-Delivers}
use sanitizer_symbolizer_too.Llvm.Pieces.{print_frames-EndsAtEnd}
use sanitizer_symbolizer_too.Llvm.{LlvmSymbolizer, buffer_size, new_llvm_symbolizer, symbolize_addr}
use sanitizer_symbolizer_too.Llvm.Answers.{command_for, format_command-pos, answered_frames}

-- The symbolizer as its constructor makes it.
abbrev pub new_symbolizer : Bytes → LlvmSymbolizer
new_symbolizer path = record { symbolizer_process = some (unused llvm path); buffer = [] }

pub new_llvm_symbolizer-eq :
    (path : Bytes) → path ≢ [] → new_llvm_symbolizer (some path) ≡ ok (new_symbolizer path)
unfolding new_llvm_symbolizer
new_llvm_symbolizer-eq path ne = rw (new_process-unused llvm path ne) refl

module _ (os : Os) (fuel : ℕ) (path : Bytes) (l : Log) (s : Spawn)
    (well : StartsWell os llvm path l s) where
  -- The first request for a code address of an LLVMSymbolizer as its constructor makes it: if
  -- the start of the child goes well, the module name is a string, the command is shorter than
  -- the buffer and is written in full, and the child prints at least one frame, with no NUL,
  -- that arrive in any pieces that are not empty, at most as many as the fuel, then it succeeds,
  -- reads each piece once from the pipe of the child, and appends the printed frames, with one
  -- restart counted. The frames fit as for the parser of the replies.
  pub symbolize_addr-StartsWell :
      (info : AddrInfo) (name : Bytes) (cs : List Bytes) (ps : List Printed)
      → info.module_name ≡ chars name
      → length (command_for name info) < buffer_size
      → os.write (log_running os llvm path l s) s.command_end (command_for name info)
        ≡ done (length (command_for name info))
      → Arrives os s.reply_end [] (log_asked os llvm path l s (command_for name info)) cs
      → joined cs ≡ print_frames ps (codes "\n")
      → HasNo 0 (joined cs)
      → ps ≢ []
      → All Fits ps
      → length cs ≤ fuel
      → symbolize_addr os fuel (new_symbolizer path) info l
        ≡ ok (
          (
            true,
            record {
              symbolizer_process =
                  some (record (restarted_once llvm path s) { buffer = joined cs ++ 0 ∷ [] });
              buffer = command_for name info;
            },
            record info { frames = info.frames ++ map frame_of ps },
          ),
          reads_log s.reply_end cs (log_asked os llvm path l s (command_for name info)),
        )
  symbolize_addr-StartsWell info name cs ps named fits written given text no_nul ne shapes enough =
      let command = command_for name info in
      let some_text = format_command-pos (codes "CODE") name info.module_offset info.module_arch in
      let delivered =
        whole-Delivers os llvm s.reply_end (print_frames ps (codes "\n"))
          (log_asked os llvm path l s command) cs (print_frames-EndsAtEnd ps ne shapes) text
          given in
      let read =
        read_llvm os fuel (restarted_once llvm path s) (log_asked os llvm path l s command) cs refl
          refl delivered enough in
      answered_frames os fuel (new_symbolizer path) l refl info name ps named fits
        (send_command-StartsWell os fuel llvm path l s well command some_text written read)
        (c_str-append (joined cs) no_nul ∙ text) shapes
