-- ===== src/Llvm/Answers.antt =====
-- What LLVMSymbolizer makes of its process's answer to a command.
use sanitizer_symbolizer_too.Prelude.{
  ℕ, ◌-◌, ◌≤◌, ◌<◌, ◌≡◌, refl, ap, subst, ◌∙◌, true, Option, none, some, List, [], ◌∷◌, ◌++◌, map,
  arith, Bytes, codes, length, take, take-all, All, ok,
}
use sanitizer_symbolizer_too.Common.{ModuleArch}
use sanitizer_symbolizer_too.Common.Names.{HasNo}
use sanitizer_symbolizer_too.Clib.Number.{llong_max}
use sanitizer_symbolizer_too.Info.{CharPtr, chars, AddrInfo, DataInfo}
use sanitizer_symbolizer_too.Output.{parse_symbolize_addr_output, parse_symbolize_data_output}
use sanitizer_symbolizer_too.Output.Frames.{
  Printed, Fits, print_frames, frame_of, at_empty_line, parse_symbolize_addr_output-print_frames,
}
use sanitizer_symbolizer_too.Output.Symbol.{
  Source, FitsSource, print_symbol, source_file, source_line,
  parse_symbolize_data_output-print_symbol,
}
use sanitizer_symbolizer_too.System.{Log, Os}
use sanitizer_symbolizer_too.Symbolizer.{SymbolizerProcess}
use sanitizer_symbolizer_too.Process.{send_command}
use sanitizer_symbolizer_too.Llvm.{
  LlvmSymbolizer, buffer_size, does_not_fit-short, format_command, ask_process,
  format_and_send_command, symbolize_addr, symbolize_data,
}

-- The command for a code address, and that for a data address.
abbrev pub command_for : Bytes → AddrInfo → Bytes
command_for name info = format_command (codes "CODE") name info.module_offset info.module_arch

abbrev pub data_command_for : Bytes → DataInfo → Bytes
data_command_for name info = format_command (codes "DATA") name info.module_offset info.module_arch

pub format_command-pos :
    (command_prefix name : Bytes) (offset : ℕ) (arch : ModuleArch)
    → 0 < length (format_command command_prefix name offset arch)
unfolding format_command
format_command-pos [] name offset arch = omega arith
format_command-pos (c ∷ s) name offset arch = omega arith

-- A symbolizer that holds a process, and the process's answer to a command.
module _ (os : Os) (fuel : ℕ) (s : LlvmSymbolizer) (l : Log) {p q : SymbolizerProcess} {l' : Log}
    {text : Bytes} (held : s.symbolizer_process ≡ some p) where
  asked :
      (o : Option SymbolizerProcess) (command : Bytes) (t : LlvmSymbolizer)
      → o ≡ some p
      → send_command os fuel p command l ≡ ok ((some text, q), l')
      → ask_process os fuel t o command l
        ≡ ok ((some text, record t { symbolizer_process = some q }), l')
  asked none command t e answer = cc
  asked (some r) command t e answer =
      let same : p ≡ r = cc in
      rw (subst (λ x. send_command os fuel x command l ≡ ok ((some text, q), l')) same answer) refl

  command_sent :
      (command_prefix name : Bytes) (ptr : CharPtr) (offset : ℕ) (arch : ModuleArch)
      → ptr ≡ chars name
      → length (format_command command_prefix name offset arch) < buffer_size
      → send_command os fuel p (format_command command_prefix name offset arch) l
        ≡ ok ((some text, q), l')
      → format_and_send_command os fuel s command_prefix ptr offset arch l
        ≡ ok (
          (
            some text,
            record {
              symbolizer_process = some q;
              buffer = format_command command_prefix name offset arch;
            },
          ),
          l',
        )
  unfolding format_and_send_command
  command_sent command_prefix name ptr offset arch named fits answer =
      let command = format_command command_prefix name offset arch in
      let whole : take (buffer_size - 1) command ≡ command =
        take-all (buffer_size - 1) command (omega arith) in
      let short = does_not_fit-short command fits in
      rw (named, short, whole)
        (asked s.symbolizer_process command (record s { buffer = command }) held answer)

  -- An answer that is printed frames fills them in.
  pub answered_frames :
      (info : AddrInfo) (name : Bytes) (ps : List Printed)
      → info.module_name ≡ chars name
      → length (command_for name info) < buffer_size
      → send_command os fuel p (command_for name info) l ≡ ok ((some text, q), l')
      → text ≡ print_frames ps (codes "\n")
      → All Fits ps
      → symbolize_addr os fuel s info l
        ≡ ok (
          (
            true,
            record { symbolizer_process = some q; buffer = command_for name info },
            record info { frames = info.frames ++ map frame_of ps },
          ),
          l',
        )
  unfolding symbolize_addr
  answered_frames info name ps named fits answer printed shapes =
      let parsed =
        ap (λ t. parse_symbolize_addr_output t info) printed
        ∙ parse_symbolize_addr_output-print_frames ps (codes "\n") info shapes
            (at_empty_line [] refl) in
      rw
        (
          command_sent (codes "CODE") name info.module_name info.module_offset info.module_arch
              named fits answer,
          parsed,
        )
        refl

  -- An answer that is a printed symbol fills it in.
  pub answered_symbol :
      (info : DataInfo) (name func : Bytes) (start size : ℕ) (source : Source)
      → info.module_name ≡ chars name
      → length (data_command_for name info) < buffer_size
      → send_command os fuel p (data_command_for name info) l ≡ ok ((some text, q), l')
      → text ≡ print_symbol func start size source
      → HasNo b'\n' func
      → start ≤ llong_max
      → size ≤ llong_max
      → FitsSource source
      → symbolize_data os fuel s info l
        ≡ ok (
          (
            true,
            record { symbolizer_process = some q; buffer = data_command_for name info },
            record info {
              name = chars func;
              start = start;
              size = size;
              file = chars (source_file source);
              line = source_line source;
            },
          ),
          l',
        )
  unfolding symbolize_data
  answered_symbol info name func start size source named fits answer printed one_line small small'
        fits' =
      let parsed =
        ap (λ t. parse_symbolize_data_output t info) printed
        ∙ parse_symbolize_data_output-print_symbol func start size source info one_line small small'
            fits' in
      rw
        (
          command_sent (codes "DATA") name info.module_name info.module_offset info.module_arch
              named fits answer,
          parsed,
        )
        refl
