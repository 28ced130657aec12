-- ===== src/Llvm.antt =====
-- lib/use_llvm_symbolizer.cpp: `LLVMSymbolizer`.
pub mod Answers
pub mod Requests
pub mod First
pub mod Pieces
pub mod SymbolPieces
use sanitizer_symbolizer_too.Prelude.{
  ℕ, ◌-◌, ◌*◌, ◌^◌, ◌≤◌, ◌<◌, ◌≡◌, refl, Bool, true, false, inl, inr, Option, none, some, [], ◌∷◌,
  ◌++◌, arith, Bytes, codes, ltb, leb, if◌then◌else◌, Bool-cases, length, take, Outcome, ok, die,
  undefined, then_do,
}
use sanitizer_symbolizer_too.Prelude.Int.{ℤ, pos, negsuc}
use sanitizer_symbolizer_too.Clib.Number.{hexadecimal}
use sanitizer_symbolizer_too.Common.{ModuleArch, unknown, module_arch_to_string}
use sanitizer_symbolizer_too.Info.{CharPtr, indeterminate, nullptr, chars, DataInfo, AddrInfo}
use sanitizer_symbolizer_too.Output.{parse_symbolize_addr_output, parse_symbolize_data_output}
use sanitizer_symbolizer_too.System.{command_too_long, says, Os}
use sanitizer_symbolizer_too.System.Monad.{Sys, pure, ◌>>=◌, ◌>>◌, emit, say_sth, lift}
use sanitizer_symbolizer_too.Symbolizer.{SymbolizerProcess, llvm, new_process}
use sanitizer_symbolizer_too.Process.{kill, send_command}

-- `buffer_` holds the command that was formatted last.
pub record LlvmSymbolizer : Type 0 where
  pub symbolizer_process : Option SymbolizerProcess
  pub buffer : Bytes

abbrev pub buffer_size : ℕ
buffer_size = 16 * 1024

unfoldable pub new_llvm_symbolizer : Option Bytes → Outcome LlvmSymbolizer
new_llvm_symbolizer path =
    then_do (new_process llvm path false)
      λ p. ok (record { symbolizer_process = some p; buffer = [] })

abbrev pub is_unknown : ModuleArch → Bool
is_unknown unknown = true
is_unknown _ = false

-- The text that `snprintf` is to write, before it is cut to the buffer.
unfoldable pub format_command : Bytes → Bytes → ℕ → ModuleArch → Bytes
format_command command_prefix module_name module_offset arch =
    command_prefix
    ++ (codes " \""
        ++ (module_name
            ++ ((if is_unknown arch then [] else b':' ∷ module_arch_to_string arch)
                ++ (codes "\" 0x" ++ (hexadecimal module_offset ++ codes "\n")))))

-- What `snprintf` returns for a text of that length: a negative number where the length does not
-- fit in an `int`.
unfoldable snprintf_result : ℕ → ℤ
snprintf_result size = if ltb size (2 ^ 31) then pos size else negsuc 0

-- `size_needed >= static_cast<int>(kBufferSize)`
unfoldable is_too_long : ℤ → Bool
is_too_long (pos size_needed) = leb buffer_size size_needed
is_too_long (negsuc n) = false

unfoldable pub does_not_fit : Bytes → Bool
unfolding snprintf_result is_too_long
does_not_fit command = is_too_long (snprintf_result (length command))

pub does_not_fit-short :
    (command : Bytes) → length command < buffer_size → does_not_fit command ≡ false
unfolding does_not_fit
does_not_fit-short command short =
    let as_int : ltb (length command) (2 ^ 31) ≡ true = ground arith in
    let fits : leb buffer_size (length command) ≡ false = ground arith in rw (as_int, fits) refl

pub does_not_fit-long :
    (command : Bytes)
    → buffer_size ≤ length command
    → length command < 2 ^ 31
    → does_not_fit command ≡ true
unfolding does_not_fit
does_not_fit-long command long bounded =
    let as_int : ltb (length command) (2 ^ 31) ≡ true = ground arith in
    let over : leb buffer_size (length command) ≡ true = ground arith in rw (as_int, over) refl

module _ (os : Os) (fuel : ℕ) where
  abbrev pub ask_process :
      LlvmSymbolizer → Option SymbolizerProcess → Bytes → Sys (Option Bytes × LlvmSymbolizer)
  ask_process s none command = lift undefined
  ask_process s (some p) command = do
    res ← send_command os fuel p command
    pure (res.0, record s { symbolizer_process = some res.1 })

  -- The buffer holds the command as far as it has room, also where `snprintf` fails; then the test
  -- does not hold, and the command is sent as it was cut.
  unfoldable pub format_and_send_command :
      LlvmSymbolizer → Bytes → CharPtr → ℕ → ModuleArch → Sys (Option Bytes × LlvmSymbolizer)
  format_and_send_command s command_prefix indeterminate module_offset arch = lift undefined
  format_and_send_command s command_prefix nullptr module_offset arch = lift die
  format_and_send_command s command_prefix (chars module_name) module_offset arch =
      let command = format_command command_prefix module_name module_offset arch in
      let s' = record s { buffer = take (buffer_size - 1) command } in
      if does_not_fit command
      then (do say_sth command_too_long; pure (none, s'))
      else ask_process s' s'.symbolizer_process s'.buffer

  unfoldable pub symbolize_addr : LlvmSymbolizer → AddrInfo → Sys (Bool × LlvmSymbolizer × AddrInfo)
  symbolize_addr s info = do
    res ←
        format_and_send_command s (codes "CODE") info.module_name info.module_offset
          info.module_arch
    elim res.0 [
      | none ↦ pure (false, res.1, info)
      | some buf ↦ (do
        info' ← lift (parse_symbolize_addr_output buf info)
        pure (true, res.1, info'))
    ]

  unfoldable pub symbolize_data : LlvmSymbolizer → DataInfo → Sys (Bool × LlvmSymbolizer × DataInfo)
  symbolize_data s info = do
    res ←
        format_and_send_command s (codes "DATA") info.module_name info.module_offset
          info.module_arch
    elim res.0 [
      | none ↦ pure (false, res.1, info)
      | some buf ↦ pure (true, res.1, parse_symbolize_data_output buf info)
    ]

unfoldable pub stop_the_world : Os → LlvmSymbolizer → Sys LlvmSymbolizer
stop_the_world os s = elim s.symbolizer_process [
  | none ↦ pure s
  | some p ↦ (do res ← kill os p; pure (record s { symbolizer_process = none }))
]
