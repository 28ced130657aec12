-- ===== src/Interface/Calls.antt =====
-- include/sanitizer_symbolizer_tool.h: the calls of a client, and what each gives back.
use sanitizer_symbolizer_too.Prelude.{ℕ, ◌%◌, ◌^◌, Option, Bytes}
use sanitizer_symbolizer_too.Info.{CharPtr, FrameDat}
use sanitizer_symbolizer_too.System.{Os}
use sanitizer_symbolizer_too.System.Monad.{Sys, pure, ◌>>=◌, lift}
use sanitizer_symbolizer_too.Interface.{
  RetCode, Globals, DataRead, san_sym_tool_init, san_sym_tool_fini, san_sym_tool_free_addr_res,
  san_sym_tool_free_data_res, san_sym_tool_send_addr_dat, san_sym_tool_send_data_dat,
  san_sym_tool_read_addr_dat, san_sym_tool_read_data_dat,
}

pub data Call : Type 0 where
  init : Option Bytes → Call
  fini addr_free data_free data_read : Call
  addr_send : CharPtr → ℕ → Call
  addr_read : ℕ → Call
  data_send : CharPtr → ℕ → Call

-- The code that is returned, and the out parameters that are set.
pub data Reply : Type 0 where
  nothing : Reply
  code : RetCode → Reply
  sent : RetCode → Option ℕ → Reply
  frame : RetCode → Option FrameDat → Reply
  symbol : RetCode → Option DataRead → Reply

module _ (os : Os) (fuel : ℕ) where
  -- The functions of the `extern "C"` block. An offset is converted to `unsigned int`.
  unfoldable pub call : Call → Globals → Sys (Reply × Globals)
  call (init path) g = do res ← san_sym_tool_init os path g; pure (code res.0, res.1)
  call fini g = do g' ← san_sym_tool_fini os g; pure (nothing, g')
  call addr_free g = do g' ← lift (san_sym_tool_free_addr_res g); pure (nothing, g')
  call data_free g = do g' ← lift (san_sym_tool_free_data_res g); pure (nothing, g')
  call data_read g = let (ret, out) = san_sym_tool_read_data_dat g in pure (symbol ret out, g)
  call (addr_send name offset) g = do
    res ← san_sym_tool_send_addr_dat os fuel name (offset % 2 ^ 32) g
    pure (sent res.0 res.1, res.2)
  call (addr_read idx) g =
      let (ret, out) = san_sym_tool_read_addr_dat idx g in pure (frame ret out, g)
  call (data_send name offset) g = do
    res ← san_sym_tool_send_data_dat os fuel name (offset % 2 ^ 32) g
    pure (code res.0, res.1)
