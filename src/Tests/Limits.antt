-- ===== src/Tests/Limits.antt =====
-- A module name that is too long for a command.
use sanitizer_symbolizer_too.Prelude.{
  ℕ, zero, suc, ◌≡◌, refl, ap, none, some, [], ◌∷◌, arith, Bytes, codes, length, ok,
}
use sanitizer_symbolizer_too.Info.{chars}
use sanitizer_symbolizer_too.System.{command_too_long, says}
use sanitizer_symbolizer_too.Interface.{
  Globals, initial, with_buffers, new_addr_info, new_data_info, llvm_symbolizer,
  run_llvm_symbolizer, err_symbolize_failed,
}
use sanitizer_symbolizer_too.Interface.Calls.{addr_send, data_send, code, sent, call}
use sanitizer_symbolizer_too.Interface.TooLong.{addr_asked, data_asked, with_command, call_too_long}
use sanitizer_symbolizer_too.Tests.Processes.{silent_os}
use sanitizer_symbolizer_too.Tests.Requests.{symbolizer}

long_name : ℕ → Bytes
long_name zero = []
long_name (suc n) = b'a' ∷ long_name n

length-long_name : (n : ℕ) → length (long_name n) ≡ n
unfolding long_name
length-long_name zero = refl
length-long_name (suc n) = ap suc (length-long_name n)

abbrev running : Globals
running = with_buffers initial (llvm_symbolizer symbolizer) run_llvm_symbolizer

call_too_long_example :
    (call silent_os 2 (addr_send (chars (long_name 16372)) 64) running []
      ≡ ok (
        (
          sent err_symbolize_failed none,
          record running {
            san_sym_tool =
                some
                  (llvm_symbolizer (with_command symbolizer (long_name 16372) (codes "CODE") 64));
            addr_info_buf = some (addr_asked (long_name 16372) 64 new_addr_info);
          },
        ),
        says command_too_long ∷ [],
      ))
    × (call silent_os 2 (data_send (chars (long_name 16372)) 64) running []
        ≡ ok (
          (
            code err_symbolize_failed,
            record running {
              san_sym_tool =
                  some
                    (llvm_symbolizer (with_command symbolizer (long_name 16372) (codes "DATA") 64));
              data_info_buf = some (data_asked (long_name 16372) 64 new_data_info);
            },
          ),
          says command_too_long ∷ [],
        ))
call_too_long_example =
    call_too_long silent_os 2 symbolizer (long_name 16372) (omega (arith, length-long_name 16372))
      (omega (arith, length-long_name 16372)) running new_addr_info new_data_info 64 [] refl refl
      refl
