-- ===== src/Interface/Lifecycle.antt =====
-- The order of calls that lib/interface.cpp expects: before an initialisation and behind
-- `SanSymToolFini` there is nothing to ask.
use sanitizer_symbolizer_too.Prelude.{
  ℕ, ◌≡◌, refl, inl, inr, Option, none, some, List, [], ◌∷◌, arith, Option-cases, All, ok,
}
use sanitizer_symbolizer_too.Info.{
  CharPtr, indeterminate, nullptr, chars, FrameDat, DataInfo, AddrInfo,
}
use sanitizer_symbolizer_too.System.{Log, Os}
use sanitizer_symbolizer_too.System.Monad.{Sys, pure}
use sanitizer_symbolizer_too.System.Post.{Ends, ends, Ends-bind}
use sanitizer_symbolizer_too.Output.Total.{IsValid, IsReadable}
use sanitizer_symbolizer_too.Files.{close_valid}
use sanitizer_symbolizer_too.Child.{kill_child_process}
use sanitizer_symbolizer_too.Symbolizer.{SymbolizerProcess}
use sanitizer_symbolizer_too.Process.{kill}
use sanitizer_symbolizer_too.Llvm.{LlvmSymbolizer}
use sanitizer_symbolizer_too.Pool.{Addr2LinePool}
use sanitizer_symbolizer_too.Llvm
use sanitizer_symbolizer_too.Pool
use sanitizer_symbolizer_too.Interface.{
  SymbolizerTool, llvm_symbolizer, addr2line_pool, free_ptr, Globals, initial, run_nothing,
  err_has_nullptr, free_frames, san_sym_tool_free_data_res, san_sym_tool_free_addr_res, stop_tool,
  san_sym_tool_fini, san_sym_tool_send_addr_dat, san_sym_tool_send_data_dat,
  san_sym_tool_read_addr_dat, san_sym_tool_read_data_dat,
}

-- Every request is refused, without a call of the system and without a change.
pub record Refuses (os : Os) (g : Globals) : Type 0 where
  pub no_addr_send :
      (fuel : ℕ) (name : CharPtr) (offset : ℕ) (l : Log)
      → san_sym_tool_send_addr_dat os fuel name offset g l ≡ ok ((err_has_nullptr, none, g), l)
  pub no_data_send :
      (fuel : ℕ) (name : CharPtr) (offset : ℕ) (l : Log)
      → san_sym_tool_send_data_dat os fuel name offset g l ≡ ok ((err_has_nullptr, g), l)
  pub no_addr_read : (idx : ℕ) → san_sym_tool_read_addr_dat idx g ≡ (err_has_nullptr, none)
  pub no_data_read : san_sym_tool_read_data_dat g ≡ (err_has_nullptr, none)

initial-Refuses : (os : Os) → Refuses os initial
unfolding san_sym_tool_send_addr_dat san_sym_tool_send_data_dat san_sym_tool_read_addr_dat
    san_sym_tool_read_data_dat
initial-Refuses os = record {
  no_addr_send = λ fuel name offset l. refl;
  no_data_send = λ fuel name offset l. refl;
  no_addr_read = λ idx. refl;
  no_data_read = refl;
}

-- Every pointer that the buffers hold is null or points to a string.
pub record IsOwned (g : Globals) : Type 0 where
  pub data_owned : (d : DataInfo) → g.data_info_buf ≡ some d → IsValid d.file × IsValid d.name
  pub addr_owned : (a : AddrInfo) → g.addr_info_buf ≡ some a → All IsReadable a.frames

pub free_ptr-IsValid : (p : CharPtr) → IsValid p → free_ptr p ≡ ok nullptr
unfolding free_ptr
free_ptr-IsValid indeterminate h = absurd h
free_ptr-IsValid nullptr h = refl
free_ptr-IsValid (chars s) h = refl

pub free_frames-All : (fs : List FrameDat) → All IsReadable fs → free_frames fs ≡ ok tt
unfolding free_frames
free_frames-All [] h = refl
free_frames-All (f ∷ fs) (h, hs) =
    rw (free_ptr-IsValid f.func h.0, free_ptr-IsValid f.file h.1, free_frames-All fs hs)

kill-Ends : (os : Os) (p : SymbolizerProcess) (l : Log) → Ends (λ r l'. Unit {0}) (kill os p l)
unfolding kill kill_child_process close_valid
kill-Ends os p l = ground arith

flush_loop-Ends :
    (os : Os) (ps : List SymbolizerProcess) (l : Log)
    → Ends (λ r l'. Unit {0}) (Pool.flush_loop os ps l)
unfolding Pool.flush_loop
flush_loop-Ends os [] l = ends tt
flush_loop-Ends os (p ∷ ps) l = Ends-bind (kill-Ends os p l) λ r l' u. flush_loop-Ends os ps l'

llvm_stop-Ends :
    (os : Os) (s : LlvmSymbolizer) (l : Log) → Ends (λ r l'. Unit {0}) (Llvm.stop_the_world os s l)
unfolding Llvm.stop_the_world
llvm_stop-Ends os s l = elim (Option-cases s.symbolizer_process) [
  | inl e ↦ rw (e, Llvm.stop_the_world) (ends tt)
  | inr (p, e) ↦ rw (e, Llvm.stop_the_world) (Ends-bind (kill-Ends os p l) λ r l' u. ends tt)
]

pool_stop-Ends :
    (os : Os) (s : Addr2LinePool) (l : Log) → Ends (λ r l'. Unit {0}) (Pool.stop_the_world os s l)
unfolding Pool.stop_the_world Pool.flush_pool
pool_stop-Ends os s l = Ends-bind (flush_loop-Ends os s.addr2line_pool l) λ r l' u. ends tt

stop_tool-Ends :
    (os : Os) (tool : SymbolizerTool) (l : Log) → Ends (λ r l'. Unit {0}) (stop_tool os tool l)
unfolding stop_tool
stop_tool-Ends os (llvm_symbolizer s) l = Ends-bind (llvm_stop-Ends os s l) λ r l' u. ends tt
stop_tool-Ends os (addr2line_pool s) l = Ends-bind (pool_stop-Ends os s l) λ r l' u. ends tt

stop_any-Ends :
    (os : Os) (tool : Option SymbolizerTool) (l : Log)
    → Ends
        (λ r l'. Unit {0})
        ((elim tool as (λ _. Sys (Unit {0})) [ none ↦ pure tt | some t ↦ stop_tool os t ]) l)
stop_any-Ends os none l = ends tt
stop_any-Ends os (some t) l = stop_tool-Ends os t l

-- The globals behind the stop of the tool.
abbrev stopped : Option DataInfo → Option AddrInfo → Globals
stopped d a = record {
  data_info_buf = d;
  addr_info_buf = a;
  san_sym_tool = none;
  running_this_tool = run_nothing;
}

free_data-stopped :
    (d : Option DataInfo) (a : Option AddrInfo)
    → ((x : DataInfo) → d ≡ some x → IsValid x.file × IsValid x.name)
    → (d' : Option DataInfo) × (san_sym_tool_free_data_res (stopped d a) ≡ ok (stopped d' a))
unfolding san_sym_tool_free_data_res
free_data-stopped none a owned = (none, refl)
free_data-stopped (some x) a owned =
    let (file, name) = owned x refl in
    (
      some (record x { file = nullptr; name = nullptr }),
      rw (free_ptr-IsValid x.file file, free_ptr-IsValid x.name name),
    )

free_addr-stopped :
    (a : Option AddrInfo)
    → ((x : AddrInfo) → a ≡ some x → All IsReadable x.frames)
    → (a' : Option AddrInfo) × (san_sym_tool_free_addr_res (stopped none a) ≡ ok (stopped none a'))
unfolding san_sym_tool_free_addr_res
free_addr-stopped none owned = (none, refl)
free_addr-stopped (some x) owned =
    (some (record x { frames = [] }), rw (free_frames-All x.frames (owned x refl)))

-- SanSymToolFini returns, whatever the tool is doing, sets the globals as at the start of the
-- program, and from then on every request is refused with err_has_nullptr, without a call of
-- the system and without a change. Each pointer in the two buffers is null or points to a
-- string.
pub san_sym_tool_fini-Refuses :
    (os : Os) (g : Globals) (l : Log)
    → IsOwned g
    → Ends (λ g' l'. (g' ≡ initial) × Refuses os g') (san_sym_tool_fini os g l)
unfolding san_sym_tool_fini
san_sym_tool_fini-Refuses os g l owned = Ends-bind (stop_any-Ends os g.san_sym_tool l) λ u l' v.
    let (d, freed) = free_data-stopped g.data_info_buf g.addr_info_buf owned.data_owned in
    let (a, freed') = free_addr-stopped g.addr_info_buf owned.addr_owned in
    rw (freed, freed') (ends (refl, initial-Refuses os))
