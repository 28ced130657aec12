-- ===== src/Common.antt =====
-- lib/common.h and lib/common.cpp: characters, module architectures and module names, on POSIX.
pub mod Names
use sanitizer_symbolizer_too.Prelude.{
  ℕ, zero, suc, ◌+◌, ◌-◌, ◌*◌, ◌/◌, ◌%◌, ◌^◌, ◌≤◌, ◌<◌, ◌≡◌, ◌≢◌, ◌↔◌, refl, sym, ap, subst, ◌∙◌,
  ◌≡⟨◌⟩◌, ◌∎, Bool, true, false, not, ◌&&◌, ◌||◌, ◌⊎◌, inl, inr, Option, none, some, List, [], ◌∷◌,
  ◌++◌, map, arith, Bytes, codes, ltb, leb, ◌==◌, ==-refl, ==-ne, if◌then◌else◌, Bool-cases,
  Option-cases, length, length-append, length-drop-le, take, drop, take-append, take-length,
  drop-length, take-append-drop, length-take_of_le, drop-append, get_elem?, All, All-append,
  append_assoc, append-nil, Outcome, ok, die, undefined, spent, then_do, then_do-eq-ok,
}

pub data ModuleArch : Type 0 where
  unknown i386 x86_64 x86_64h armv6 armv7 armv7s armv7k arm64 : ModuleArch
  loongarch64 riscv64 hexagon : ModuleArch

unfoldable pub module_arch_to_string : ModuleArch → Bytes
module_arch_to_string unknown = []
module_arch_to_string i386 = codes "i386"
module_arch_to_string x86_64 = codes "x86_64"
module_arch_to_string x86_64h = codes "x86_64h"
module_arch_to_string armv6 = codes "armv6"
module_arch_to_string armv7 = codes "armv7"
module_arch_to_string armv7s = codes "armv7s"
module_arch_to_string armv7k = codes "armv7k"
module_arch_to_string arm64 = codes "arm64"
module_arch_to_string loongarch64 = codes "loongarch64"
module_arch_to_string riscv64 = codes "riscv64"
module_arch_to_string hexagon = codes "hexagon"

unfoldable pub is_space : ℕ → Bool
is_space c = c == b' ' || c == b'\n' || c == b'\t' || c == 12 || c == b'\r' || c == 11

abbrev pub is_digit : ℕ → Bool
is_digit c = leb b'0' c && leb c b'9'

unfoldable pub to_lower : ℕ → ℕ
to_lower c = if leb b'A' c && leb c b'Z' then c + b'a' - b'A' else c

-- The text behind the last `c`, which `strrchr` points to.
unfoldable pub strrchr : Bytes → ℕ → Option Bytes
strrchr [] c = none
strrchr (d ∷ s) c = elim (strrchr s c) [
  | some rest ↦ some rest
  | none ↦ if d == c then some s else none
]

-- A null pointer is `none`. `SANITIZER_WINDOWS` is 0, so the first test is never entered.
unfoldable pub strip_module_name : Option Bytes → Option Bytes
unfolding strrchr
strip_module_name none = none
strip_module_name (some m) = elim (strrchr m b'/') [ some rest ↦ some rest | none ↦ some m ]
