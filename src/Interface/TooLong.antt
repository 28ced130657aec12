-- ===== src/Interface/TooLong.antt =====
-- Requests of llvm-symbolizer for modules with long names: which commands fit the buffer, and what
-- the interface does with one that does not.
use sanitizer_symbolizer_too.Prelude.{
  ℕ, ◌+◌, ◌-◌, ◌%◌, ◌^◌, ◌≤◌, ◌<◌, ◌≡◌, ◌≢◌, refl, false, none, some, [], ◌∷◌, ◌++◌, arith, Bytes,
  codes, length, length-append, take, ok,
}
use sanitizer_symbolizer_too.Clib.Number.{hexadecimal, hexadecimal-ne-nil, length-hexadecimal-le}
use sanitizer_symbolizer_too.Common.{unknown}
use sanitizer_symbolizer_too.Info.{chars, AddrInfo, DataInfo}
use sanitizer_symbolizer_too.System.{command_too_long, says, Log, Os}
use sanitizer_symbolizer_too.Llvm
use sanitizer_symbolizer_too.Llvm.{
  LlvmSymbolizer, buffer_size, does_not_fit-long, format_command, format_and_send_command,
}
use sanitizer_symbolizer_too.Interface.{
  Globals, llvm_symbolizer, err_symbolize_failed, symbolize_addr, symbolize_data,
  san_sym_tool_send_addr_dat, san_sym_tool_send_data_dat,
}
use sanitizer_symbolizer_too.Interface.Calls.{addr_send, data_send, code, sent, call}

pub length-format_command :
    (command_prefix name : Bytes) (offset : ℕ)
    → length (format_command command_prefix name offset unknown)
      ≡ length command_prefix + length name + length (hexadecimal offset) + 7
unfolding format_command
length-format_command command_prefix name offset =
    let digits = hexadecimal offset ++ codes "\n" in
    omega (
      arith,
      length-append command_prefix (codes " \"" ++ (name ++ (codes "\" 0x" ++ digits))),
      length-append name (codes "\" 0x" ++ digits),
      length-append (hexadecimal offset) (codes "\n"),
    )

-- The structures behind the assignments of a request.
abbrev pub addr_asked : Bytes → ℕ → AddrInfo → AddrInfo
addr_asked name offset a = record a {
  module_name = chars name;
  module_offset = offset;
  module_arch = unknown;
}

abbrev pub data_asked : Bytes → ℕ → DataInfo → DataInfo
data_asked name offset d = record d {
  module_name = chars name;
  module_offset = offset;
  module_arch = unknown;
}

-- The symbolizer behind a command that was cut.
abbrev pub with_command : LlvmSymbolizer → Bytes → Bytes → ℕ → LlvmSymbolizer
with_command s name command_prefix offset = record s {
  buffer = take (buffer_size - 1) (format_command command_prefix name offset unknown);
}

length-pos_of : (s : Bytes) → s ≢ [] → 0 < length s
length-pos_of [] ne = absurd (ne refl)
length-pos_of (c ∷ s) ne = omega arith

module _ (os : Os) (fuel : ℕ) (s : LlvmSymbolizer) (name : Bytes)
    (long : buffer_size ≤ length name + 12) (bounded : length name + 27 < 2 ^ 31) where
  refused :
      (command_prefix : Bytes) (offset : ℕ) (l : Log)
      → length command_prefix ≡ 4
      → offset < 2 ^ 64
      → format_and_send_command os fuel s command_prefix (chars name) offset unknown l
        ≡ ok (
          (
            none,
            record s {
              buffer = take (buffer_size - 1) (format_command command_prefix name offset unknown);
            },
          ),
          says command_too_long ∷ l,
        )
  unfolding format_and_send_command
  refused command_prefix offset l four small =
      let command = format_command command_prefix name offset unknown in
      let size = length-format_command command_prefix name offset in
      let digits = length-pos_of _ (hexadecimal-ne-nil offset) in
      let digits' = length-hexadecimal-le offset small in
      rw (does_not_fit-long command (omega (arith, size, digits)) (omega (arith, size, digits')))
        refl

  addr_refused :
      (a : AddrInfo) (offset : ℕ) (l : Log)
      → offset < 2 ^ 64
      → Llvm.symbolize_addr os fuel s (addr_asked name offset a) l
        ≡ ok (
          (false, with_command s name (codes "CODE") offset, addr_asked name offset a),
          says command_too_long ∷ l,
        )
  unfolding Llvm.symbolize_addr
  addr_refused a offset l small = rw (refused (codes "CODE") offset l refl small) refl

  data_refused :
      (d : DataInfo) (offset : ℕ) (l : Log)
      → offset < 2 ^ 64
      → Llvm.symbolize_data os fuel s (data_asked name offset d) l
        ≡ ok (
          (false, with_command s name (codes "DATA") offset, data_asked name offset d),
          says command_too_long ∷ l,
        )
  unfolding Llvm.symbolize_data
  data_refused d offset l small = rw (refused (codes "DATA") offset l refl small) refl

  -- With llvm-symbolizer running, a module name of 16372 bytes or more, and of fewer than 2^31 -
  -- 27, so that the length of the command is an int, makes SanSymTool_addr_send and
  -- SanSymTool_data_send return err_symbolize_failed: the only event is the warning, so nothing
  -- is written and no child is started, the count of frames is not set, the request is stored,
  -- the results that the structures hold are kept, the process is unchanged, and the buffer
  -- holds the first 16383 bytes of the command.
  pub call_too_long :
      (g : Globals) (a : AddrInfo) (d : DataInfo) (offset : ℕ) (l : Log)
      → g.san_sym_tool ≡ some (llvm_symbolizer s)
      → g.addr_info_buf ≡ some a
      → g.data_info_buf ≡ some d
      → (call os fuel (addr_send (chars name) offset) g l
          ≡ ok (
            (
              sent err_symbolize_failed none,
              record g {
                san_sym_tool =
                    some (llvm_symbolizer (with_command s name (codes "CODE") (offset % 2 ^ 32)));
                addr_info_buf = some (addr_asked name (offset % 2 ^ 32) a);
              },
            ),
            says command_too_long ∷ l,
          ))
        × (call os fuel (data_send (chars name) offset) g l
            ≡ ok (
              (
                code err_symbolize_failed,
                record g {
                  san_sym_tool =
                      some (llvm_symbolizer (with_command s name (codes "DATA") (offset % 2 ^ 32)));
                  data_info_buf = some (data_asked name (offset % 2 ^ 32) d);
                },
              ),
              says command_too_long ∷ l,
            ))
  unfolding call san_sym_tool_send_addr_dat san_sym_tool_send_data_dat symbolize_addr symbolize_data
  call_too_long g a d offset l tool addr_buf data_buf = (
    rw (tool, addr_buf, addr_refused a (offset % 2 ^ 32) l (omega arith)) refl,
    rw (tool, data_buf, data_refused d (offset % 2 ^ 32) l (omega arith)) refl,
  )
