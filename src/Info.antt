-- ===== src/Info.antt =====
-- lib/symbolizer.h: the structures that a request fills in.
use sanitizer_symbolizer_too.Prelude.{ℕ, List, Bytes}
use sanitizer_symbolizer_too.Common.{ModuleArch}

-- A `char *`: not yet initialised, null, or a string that it points to.
pub data CharPtr : Type 0 where
  indeterminate nullptr : CharPtr
  chars : Bytes → CharPtr

-- A `uptr` is a number below 2 ^ 64.
pub record DataInfo : Type 0 where
  pub module_name : CharPtr
  pub module_offset : ℕ
  pub module_arch : ModuleArch
  pub file : CharPtr
  pub line : ℕ
  pub name : CharPtr
  pub start : ℕ
  pub size : ℕ

pub record FrameDat : Type 0 where
  pub func : CharPtr
  pub file : CharPtr
  pub lin : ℕ
  pub col : ℕ

pub record AddrInfo : Type 0 where
  pub module_name : CharPtr
  pub module_offset : ℕ
  pub module_arch : ModuleArch
  pub frames : List FrameDat
