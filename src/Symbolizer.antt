-- ===== src/Symbolizer.antt =====
-- lib/symbolizer.h and lib/symbolizer.cpp: the fields of `SymbolizerProcess`, its constructor and its
-- constants, and what its two subclasses in lib/use_llvm_symbolizer.cpp and lib/use_addr2line.cpp
-- tell it: the arguments of the child and the end of a reply.
use sanitizer_symbolizer_too.Prelude.{
  ℕ, ◌-◌, Bool, true, false, ◌&&◌, if◌then◌else◌, Option, none, some, List, [], ◌∷◌, ◌++◌, Bytes,
  codes, ltb, leb, ◌==◌, length, drop, Outcome, ok, die,
}
use sanitizer_symbolizer_too.Clib.{byte_at, strcmp_eq}
use sanitizer_symbolizer_too.System.{
  Fd, Pid, Target, x86_64h, x86_64, i386, loongarch64, riscv64, aarch64, arm, powerpc64_big,
  powerpc64_little, s390x, s390, other,
}

-- The subclass. An addr2line process holds its module's name, null once it is freed.
pub data Kind : Type 0 where
  llvm : Kind
  addr2line : Option Bytes → Kind

-- -1 is `none`, for a descriptor and for a pid.
pub record SymbolizerProcess : Type 0 where
  pub kind : Kind
  pub active_pid : Pid
  pub path : Bytes
  pub input_fd : Fd
  pub output_fd : Fd
  pub buffer : Bytes
  pub times_restarted : ℕ
  pub failed_to_start : Bool
  pub reported_invalid_path : Bool
  pub use_posix_spawn : Bool

abbrev pub max_times_restarted : ℕ
max_times_restarted = 5

abbrev pub symbolizer_startup_time_millis : ℕ
symbolizer_startup_time_millis = 10

abbrev pub arg_v_max : ℕ
arg_v_max = 16

-- The constructor, with its two CHECKs on the path.
unfoldable pub new_process : Kind → Option Bytes → Bool → Outcome SymbolizerProcess
new_process kind none use_posix_spawn = die
new_process kind (some []) use_posix_spawn = die
new_process kind (some (c ∷ path)) use_posix_spawn = ok (record {
  kind = kind;
  active_pid = none;
  path = c ∷ path;
  input_fd = none;
  output_fd = none;
  buffer = [];
  times_restarted = 0;
  failed_to_start = false;
  reported_invalid_path = false;
  use_posix_spawn = use_posix_spawn;
})

abbrev pub is_same_module : Bytes → Bool
is_same_module path = false

abbrev pub output_terminator : Bytes
output_terminator = codes "??\n??:0\n"

-- An empty line.
abbrev llvm_reached_end : Bytes → Bool
llvm_reached_end buffer =
    leb 2 (length buffer)
    && byte_at buffer (length buffer - 1) == b'\n'
    && byte_at buffer (length buffer - 2) == b'\n'

-- The answer to the dummy address, behind something else.
abbrev addr2line_reached_end : Bytes → Bool
addr2line_reached_end buffer =
    ltb 8 (length buffer) && strcmp_eq (drop (length buffer - 8) buffer) output_terminator

-- The virtual call.
unfoldable pub reached_end_of_output : Kind → Bytes → Bool
reached_end_of_output llvm buffer = llvm_reached_end buffer
reached_end_of_output (addr2line module_name) buffer = addr2line_reached_end buffer

unfoldable pub symbolizer_arch : Target → Bytes
symbolizer_arch x86_64h = codes "--default-arch=x86_64h"
symbolizer_arch x86_64 = codes "--default-arch=x86_64"
symbolizer_arch i386 = codes "--default-arch=i386"
symbolizer_arch loongarch64 = codes "--default-arch=loongarch64"
symbolizer_arch riscv64 = codes "--default-arch=riscv64"
symbolizer_arch aarch64 = codes "--default-arch=arm64"
symbolizer_arch arm = codes "--default-arch=arm"
symbolizer_arch powerpc64_big = codes "--default-arch=powerpc64"
symbolizer_arch powerpc64_little = codes "--default-arch=powerpc64le"
symbolizer_arch s390x = codes "--default-arch=s390x"
symbolizer_arch s390 = codes "--default-arch=s390"
symbolizer_arch other = codes "--default-arch=unknown"

-- The settings of lib/common.h.
abbrev llvm_symbolizer_demangle : Bool
llvm_symbolizer_demangle = false

abbrev llvm_symbolizer_inlines : Bool
llvm_symbolizer_inlines = true

abbrev addr2line_demangle : Bool
addr2line_demangle = false

abbrev addr2line_inlines : Bool
addr2line_inlines = true

-- The arguments, up to the null pointer that ends them.
abbrev llvm_arg_v : Target → Bytes → List (Option Bytes)
llvm_arg_v target path_to_binary =
    some path_to_binary
    ∷ some (if llvm_symbolizer_demangle then codes "--demangle" else codes "--no-demangle")
    ∷ some (if llvm_symbolizer_inlines then codes "--inlines" else codes "--no-inlines")
    ∷ some (symbolizer_arch target)
    ∷ none
    ∷ []

abbrev addr2line_arg_v : Option Bytes → Bytes → List (Option Bytes)
addr2line_arg_v module_name path_to_binary =
    some path_to_binary
    ∷ ((if addr2line_demangle then some (codes "-C") ∷ [] else [])
        ++ ((if addr2line_inlines then some (codes "-i") ∷ [] else [])
            ++ some (codes "-fe") ∷ module_name ∷ none ∷ []))

-- The virtual call.
unfoldable pub get_arg_v : Target → Kind → Bytes → List (Option Bytes)
get_arg_v target llvm path_to_binary = llvm_arg_v target path_to_binary
get_arg_v target (addr2line module_name) path_to_binary = addr2line_arg_v module_name path_to_binary
