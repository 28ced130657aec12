-- ===== src/Pool.antt =====
-- lib/use_addr2line.cpp: `Addr2LinePool`, one process for each module.
pub mod Invariant
pub mod Requests
pub mod Pieces
pub mod First
use sanitizer_symbolizer_too.Prelude.{
  ℕ, ◌-◌, ◌^◌, Bool, true, false, Option, none, some, List, [], ◌∷◌, ◌++◌, Bytes, codes, leb,
  if◌then◌else◌, length, take, Outcome, ok, undefined, then_do,
}
use sanitizer_symbolizer_too.Clib.{strcmp_eq}
use sanitizer_symbolizer_too.Clib.Number.{hexadecimal}
use sanitizer_symbolizer_too.Info.{CharPtr, indeterminate, nullptr, chars, DataInfo, AddrInfo}
use sanitizer_symbolizer_too.Output.{parse_symbolize_addr_output}
use sanitizer_symbolizer_too.System.{Os}
use sanitizer_symbolizer_too.System.Monad.{Sys, pure, ◌>>=◌, ◌>>◌, lift, check}
use sanitizer_symbolizer_too.Symbolizer.{Kind, llvm, addr2line, SymbolizerProcess, new_process}
use sanitizer_symbolizer_too.Process.{kill, send_command}

pub record Addr2LinePool : Type 0 where
  pub addr2line_path : Option Bytes
  pub addr2line_pool : List SymbolizerProcess

abbrev pub pool_max : ℕ
pool_max = 16

abbrev pub buffer_size : ℕ
buffer_size = 64

-- The offset that asks for the end mark: all bits set.
abbrev pub dummy_address : ℕ
dummy_address = 2 ^ 64 - 1

unfoldable pub new_addr2line_pool : Option Bytes → Addr2LinePool
new_addr2line_pool path = record { addr2line_path = path; addr2line_pool = [] }

abbrev pub name_of : Kind → Option Bytes
name_of llvm = none
name_of (addr2line name) = name

-- `Addr2LineProcess::module_name`
abbrev pub module_name : SymbolizerProcess → Option Bytes
module_name p = name_of p.kind

unfoldable pub module_name_free : SymbolizerProcess → SymbolizerProcess
module_name_free p = record p { kind = addr2line none }

-- The constructor copies the name.
unfoldable pub new_addr2line_process : Option Bytes → Bytes → Outcome SymbolizerProcess
new_addr2line_process path name = new_process (addr2line (some name)) path false

-- `0 == strcmp(module_name, p->module_name())`
unfoldable pub serves : Bytes → SymbolizerProcess → Outcome Bool
serves name p = elim (module_name p) [ none ↦ undefined | some own ↦ ok (strcmp_eq name own) ]

-- Where the search ends: the processes before the one that is found, itself, and those behind it.
pub record Found : Type 0 where
  pub front : List SymbolizerProcess
  pub process : SymbolizerProcess
  pub behind : List SymbolizerProcess

unfoldable pub find_process :
    Bytes → List SymbolizerProcess → List SymbolizerProcess → Outcome (Option Found)
unfolding serves
find_process name front [] = ok none
find_process name front (p ∷ ps) = then_do (serves name p) λ hit.
    if hit
    then ok (some (record { front = front; process = p; behind = ps }))
    else find_process name (front ++ p ∷ []) ps

unfoldable pub format_request : ℕ → Bytes
format_request module_offset =
    codes "0x"
    ++ (hexadecimal module_offset ++ (codes "\n0x" ++ (hexadecimal dummy_address ++ codes "\n")))

module _ (os : Os) where
  -- Each object is deleted behind the two calls.
  unfoldable pub flush_loop : List SymbolizerProcess → Sys (Unit {0})
  flush_loop [] = pure tt
  flush_loop (p ∷ ps) = do killed ← kill os p; let freed = module_name_free killed.1; flush_loop ps

  unfoldable pub flush_pool : Addr2LinePool → Sys Addr2LinePool
  flush_pool s = do flush_loop s.addr2line_pool; pure (record s { addr2line_pool = [] })

  -- The process for the module, in its place in the pool; a new one stands at the end.
  unfoldable pub choose_process : Addr2LinePool → Bytes → Sys (Addr2LinePool × Found)
  choose_process s name = do
    found ← lift (find_process name [] s.addr2line_pool)
    elim found [
      | some f ↦ pure (s, f)
      | none ↦ (do
        s' ← (if leb pool_max (length s.addr2line_pool) then flush_pool s else pure s)
        p ← lift (new_addr2line_process s'.addr2line_path name)
        pure (s', record { front = s'.addr2line_pool; process = p; behind = [] }))
    ]

  unfoldable pub send_to_pool : ℕ → Addr2LinePool → CharPtr → ℕ → Sys (Option Bytes × Addr2LinePool)
  send_to_pool fuel s indeterminate module_offset = lift undefined
  send_to_pool fuel s nullptr module_offset = lift undefined
  send_to_pool fuel s (chars name) module_offset = do
    chosen ← choose_process s name
    let f = chosen.1
    same ← lift (serves name f.process)
    check same
    let buffer = take (buffer_size - 1) (format_request module_offset)
    res ← send_command os fuel f.process buffer
    pure (res.0, record chosen.0 { addr2line_pool = f.front ++ res.1 ∷ f.behind })

  unfoldable pub symbolize_addr :
      ℕ → Addr2LinePool → AddrInfo → Sys (Bool × Addr2LinePool × AddrInfo)
  symbolize_addr fuel s info = do
    res ← send_to_pool fuel s info.module_name info.module_offset
    elim res.0 [
      | none ↦ pure (false, res.1, info)
      | some buf ↦ (do
        info' ← lift (parse_symbolize_addr_output buf info)
        pure (true, res.1, info'))
    ]

-- addr2line knows no data.
abbrev pub symbolize_data : Addr2LinePool → DataInfo → Bool × Addr2LinePool × DataInfo
symbolize_data s info = (false, s, info)

unfoldable pub stop_the_world : Os → Addr2LinePool → Sys Addr2LinePool
unfolding flush_pool
stop_the_world os s = flush_pool os s
