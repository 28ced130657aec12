-- ===== src/Interface.antt =====
-- lib/interface.cpp: the globals and the functions of include/sanitizer_symbolizer_tool.h.
pub mod Lifecycle
pub mod Calls
pub mod Tools
pub mod Session
pub mod Steps
pub mod Sends
pub mod Requests
pub mod Traces
pub mod Service
pub mod PoolService
pub mod TooLong
use sanitizer_symbolizer_too.Prelude.{
  ℕ, Bool, true, false, not, Option, none, some, List, [], ◌∷◌, Bytes, codes, leb, if◌then◌else◌,
  length, get_elem?, Outcome, ok, undefined, then_do,
}
use sanitizer_symbolizer_too.Clib.{starts_with, strcmp_eq}
use sanitizer_symbolizer_too.Common.{unknown, strip_module_name}
use sanitizer_symbolizer_too.Info.{
  CharPtr, indeterminate, nullptr, chars, FrameDat, DataInfo, AddrInfo,
}
use sanitizer_symbolizer_too.System.{accesses, Os}
use sanitizer_symbolizer_too.System.Monad.{Sys, pure, ◌>>=◌, ◌>>◌, answer, lift}
use sanitizer_symbolizer_too.Llvm.{LlvmSymbolizer, new_llvm_symbolizer}
use sanitizer_symbolizer_too.Llvm
use sanitizer_symbolizer_too.Pool.{Addr2LinePool, new_addr2line_pool}
use sanitizer_symbolizer_too.Pool

pub data ToolCode : Type 0 where
  run_nothing run_llvm_symbolizer run_addr2line : ToolCode

pub data RetCode : Type 0 where
  yes_init_done yes_fini_done yes_send_done yes_read_done : RetCode
  err_path_not_executable err_path_corrupted err_unsupported_tool : RetCode
  err_symbolize_failed err_has_nullptr err_outofbound : RetCode

-- `SymbolizerTool` and its two subclasses.
pub data SymbolizerTool : Type 0 where
  llvm_symbolizer : LlvmSymbolizer → SymbolizerTool
  addr2line_pool : Addr2LinePool → SymbolizerTool

-- The static variables; a null pointer is `none`.
pub record Globals : Type 0 where
  pub data_info_buf : Option DataInfo
  pub addr_info_buf : Option AddrInfo
  pub san_sym_tool : Option SymbolizerTool
  pub running_this_tool : ToolCode

abbrev pub initial : Globals
initial = record {
  data_info_buf = none;
  addr_info_buf = none;
  san_sym_tool = none;
  running_this_tool = run_nothing;
}

-- `new DataInfo()` and `new AddrInfo()` clear every field.
abbrev pub new_data_info : DataInfo
new_data_info = record {
  module_name = nullptr;
  module_offset = 0;
  module_arch = unknown;
  file = nullptr;
  line = 0;
  name = nullptr;
  start = 0;
  size = 0;
}

abbrev pub new_addr_info : AddrInfo
new_addr_info = record {
  module_name = nullptr;
  module_offset = 0;
  module_arch = unknown;
  frames = [];
}

abbrev pub is_empty : Bytes → Bool
is_empty [] = true
is_empty (c ∷ s) = false

-- The globals behind a successful initialisation.
abbrev pub with_buffers : Globals → SymbolizerTool → ToolCode → Globals
with_buffers g tool code = record {
  data_info_buf = some new_data_info;
  addr_info_buf = some new_addr_info;
  san_sym_tool = some tool;
  running_this_tool = code;
}

-- The branches on the binary's name, for a path that is not null.
unfoldable pub choose_tool : Globals → Bytes → Bytes → Outcome (RetCode × Globals)
choose_tool g path binary_name =
    if is_empty path
    then ok (err_path_corrupted, g)
    else if starts_with binary_name (codes "llvm-symbolizer")
    then (then_do (new_llvm_symbolizer (some path))
        λ s. ok (yes_init_done, with_buffers g (llvm_symbolizer s) run_llvm_symbolizer))
    else if strcmp_eq binary_name (codes "addr2line")
    then ok (
      yes_init_done,
      with_buffers g (addr2line_pool (new_addr2line_pool (some path))) run_addr2line,
    )
    else ok (err_unsupported_tool, g)

-- A null path that passes `access` makes the buffers only.
unfoldable pub init_tool : Globals → Option Bytes → Outcome (RetCode × Globals)
init_tool g none = ok (
  yes_init_done,
  record g { data_info_buf = some new_data_info; addr_info_buf = some new_addr_info },
)
init_tool g (some path) = elim (strip_module_name (some path)) [
  | none ↦ undefined
  | some name ↦ choose_tool g path name
]

module _ (os : Os) where
  unfoldable pub san_sym_tool_init : Option Bytes → Globals → Sys (RetCode × Globals)
  san_sym_tool_init path g = do
    executable ← answer (λ l. os.access l path) (accesses path)
    if not executable then pure (err_path_not_executable, g) else lift (init_tool g path)

-- `if (p) { free(p); p = nullptr; }`; freeing an indeterminate pointer is undefined.
unfoldable pub free_ptr : CharPtr → Outcome CharPtr
free_ptr indeterminate = undefined
free_ptr nullptr = ok nullptr
free_ptr (chars s) = ok nullptr

abbrev pub free_data_info : DataInfo → Outcome DataInfo
free_data_info d =
    then_do (free_ptr d.file)
      λ file. then_do (free_ptr d.name) λ name. ok (record d { file = file; name = name })

unfoldable pub san_sym_tool_free_data_res : Globals → Outcome Globals
san_sym_tool_free_data_res g = elim g.data_info_buf [
  | none ↦ ok g
  | some d ↦ then_do (free_data_info d) λ d'. ok (record g { data_info_buf = some d' })
]

unfoldable pub free_frames : List FrameDat → Outcome (Unit {0})
unfolding free_ptr
free_frames [] = ok tt
free_frames (f ∷ fs) =
    then_do (free_ptr f.func) λ func. then_do (free_ptr f.file) λ file. free_frames fs

unfoldable pub san_sym_tool_free_addr_res : Globals → Outcome Globals
san_sym_tool_free_addr_res g = elim g.addr_info_buf [
  | none ↦ ok g
  | some a ↦
      then_do (free_frames a.frames)
        λ done. ok (record g { addr_info_buf = some (record a { frames = [] }) })
]

unfoldable pub stop_tool : Os → SymbolizerTool → Sys (Unit {0})
stop_tool os (llvm_symbolizer s) = do s' ← Llvm.stop_the_world os s; pure tt
stop_tool os (addr2line_pool s) = do s' ← Pool.stop_the_world os s; pure tt

unfoldable pub san_sym_tool_fini : Os → Globals → Sys Globals
san_sym_tool_fini os g = do
  (elim g.san_sym_tool [ none ↦ pure tt | some tool ↦ stop_tool os tool ])
  let g1 = record g { running_this_tool = run_nothing; san_sym_tool = none }
  g2 ← lift (san_sym_tool_free_data_res g1)
  let g3 = record g2 { data_info_buf = none }
  g4 ← lift (san_sym_tool_free_addr_res g3)
  pure (record g4 { addr_info_buf = none })

module _ (os : Os) (fuel : ℕ) where
  -- The virtual calls.
  unfoldable pub symbolize_addr : SymbolizerTool → AddrInfo → Sys (Bool × SymbolizerTool × AddrInfo)
  symbolize_addr (llvm_symbolizer s) info = do
    res ← Llvm.symbolize_addr os fuel s info
    pure (res.0, llvm_symbolizer res.1, res.2)
  symbolize_addr (addr2line_pool s) info = do
    res ← Pool.symbolize_addr os fuel s info
    pure (res.0, addr2line_pool res.1, res.2)

  unfoldable pub symbolize_data : SymbolizerTool → DataInfo → Sys (Bool × SymbolizerTool × DataInfo)
  symbolize_data (llvm_symbolizer s) info = do
    res ← Llvm.symbolize_data os fuel s info
    pure (res.0, llvm_symbolizer res.1, res.2)
  symbolize_data (addr2line_pool s) info =
      let res = Pool.symbolize_data s info in pure (res.0, addr2line_pool res.1, res.2)

  -- The second part is what `*n_frames` is set to, if it is set.
  unfoldable pub san_sym_tool_send_addr_dat :
      CharPtr → ℕ → Globals → Sys (RetCode × Option ℕ × Globals)
  san_sym_tool_send_addr_dat module_name offset g = elim g.san_sym_tool [
    | none ↦ pure (err_has_nullptr, none, g)
    | some tool ↦ elim g.addr_info_buf [
      | none ↦ pure (err_has_nullptr, none, g)
      | some a ↦ (do
        let request = record a {
          module_name = module_name;
          module_offset = offset;
          module_arch = unknown;
        }
        res ← symbolize_addr tool request
        let g' = record g { san_sym_tool = some res.1; addr_info_buf = some res.2 }
        if res.0
            then pure (yes_send_done, some (length res.2.frames), g')
            else pure (err_symbolize_failed, none, g'))
    ]
  ]

  unfoldable pub san_sym_tool_send_data_dat : CharPtr → ℕ → Globals → Sys (RetCode × Globals)
  san_sym_tool_send_data_dat module_name offset g = elim g.san_sym_tool [
    | none ↦ pure (err_has_nullptr, g)
    | some tool ↦ elim g.data_info_buf [
      | none ↦ pure (err_has_nullptr, g)
      | some d ↦ (do
        let request = record d {
          module_name = module_name;
          module_offset = offset;
          module_arch = unknown;
        }
        res ← symbolize_data tool request
        let g' = record g { san_sym_tool = some res.1; data_info_buf = some res.2 }
        if res.0 then pure (yes_send_done, g') else pure (err_symbolize_failed, g'))
    ]
  ]

-- What the out parameters get, if they are set.
unfoldable pub san_sym_tool_read_addr_dat : ℕ → Globals → RetCode × Option FrameDat
san_sym_tool_read_addr_dat idx g = elim g.addr_info_buf [
  | none ↦ (err_has_nullptr, none)
  | some a ↦
      if leb (length a.frames) idx
      then (err_outofbound, none)
      else (yes_read_done, get_elem? a.frames idx)
]

pub record DataRead : Type 0 where
  pub file : CharPtr
  pub name : CharPtr
  pub line : ℕ
  pub start : ℕ
  pub size : ℕ

unfoldable pub san_sym_tool_read_data_dat : Globals → RetCode × Option DataRead
san_sym_tool_read_data_dat g = elim g.data_info_buf [
  | none ↦ (err_has_nullptr, none)
  | some d ↦ (
    yes_read_done,
    some (record { file = d.file; name = d.name; line = d.line; start = d.start; size = d.size }),
  )
]
