-- ===== src/Interface/Tools.antt =====
-- What a request does to the tool and to the structure that it fills in, for every answer of the
-- system.
use sanitizer_symbolizer_too.Prelude.{
  ℕ, ◌-◌, ◌≡◌, refl, subst, Bool, true, false, inl, inr, Option, none, some, List, ◌++◌, Bytes,
  codes, Bool-cases, Option-cases, take, All,
}
use sanitizer_symbolizer_too.Info.{
  CharPtr, indeterminate, nullptr, chars, DataInfo, FrameDat, AddrInfo,
}
use sanitizer_symbolizer_too.Common.{ModuleArch}
use sanitizer_symbolizer_too.Output.{parse_symbolize_addr_output, parse_symbolize_data_output}
use sanitizer_symbolizer_too.Output.Total.{IsValid, IsReadable, parse_symbolize_addr_output-Parses}
use sanitizer_symbolizer_too.System.{Log, Os}
use sanitizer_symbolizer_too.System.Monad.{pure, ◌>>=◌, lift}
use sanitizer_symbolizer_too.System.Post.{Post, post, Post-bind, Post-mono}
use sanitizer_symbolizer_too.Symbolizer.{SymbolizerProcess}
use sanitizer_symbolizer_too.Process.Restarts.{Lives, send_command-Budget}
use sanitizer_symbolizer_too.Llvm.{
  LlvmSymbolizer, ask_process, does_not_fit, format_command, format_and_send_command, buffer_size,
}
use sanitizer_symbolizer_too.Llvm
use sanitizer_symbolizer_too.Pool.{Addr2LinePool, send_to_pool}
use sanitizer_symbolizer_too.Pool
use sanitizer_symbolizer_too.Pool.Invariant.{IsPool, send_to_pool-IsPool}
use sanitizer_symbolizer_too.Interface.{
  SymbolizerTool, llvm_symbolizer, addr2line_pool, symbolize_addr, symbolize_data,
}

-- The symbolizer has its process, whose restarts are within the limit.
abbrev pub IsManned : LlvmSymbolizer → Type 0
IsManned s = (p : SymbolizerProcess) × (s.symbolizer_process ≡ some p) × Lives p

abbrev pub IsSound : SymbolizerTool → Type 0
IsSound (llvm_symbolizer s) = IsManned s
IsSound (addr2line_pool s) = IsPool s.addr2line_pool

abbrev pub SameTool : SymbolizerTool → SymbolizerTool → Type 0
SameTool (llvm_symbolizer s) (llvm_symbolizer s') = Unit {0}
SameTool (addr2line_pool s) (addr2line_pool s') = Unit {0}
SameTool _ _ = ⊥

-- addr2line answers no request for data.
abbrev pub OnlyLlvm : SymbolizerTool → Bool → Type 0
OnlyLlvm (llvm_symbolizer s) success = Unit {0}
OnlyLlvm (addr2line_pool s) success = success ≡ false

-- A request leaves the structure alone, or appends frames whose pointers may be read.
abbrev pub Fills : AddrInfo → Bool → AddrInfo → Type 0
Fills info false info' = info' ≡ info
Fills info true info' =
    (new : List FrameDat) × (info' ≡ record info { frames = info.frames ++ new })
    × All IsReadable new

-- A request leaves the structure alone, or sets both of its strings.
abbrev pub Describes : DataInfo → Bool → DataInfo → Type 0
Describes info false info' = info' ≡ info
Describes info true info' = IsValid info'.file × IsValid info'.name

parse-Fills :
    {S : Type 0} (P : S → Type 0) (buf : Bytes) (info : AddrInfo) (s : S) (l : Log)
    → P s
    → Post {A = Bool × S × AddrInfo}
        (λ r l'. P r.1 × Fills info r.0 r.2)
        ((lift (parse_symbolize_addr_output buf info) >>= λ info'. pure (true, s, info')) l)
parse-Fills P buf info s l h = elim (parse_symbolize_addr_output-Parses buf info) [
  | inl e ↦ rw e (post tt)
  | inr (new, e, readable) ↦ rw e (post (h, (new, refl, readable)))
]

module _ (os : Os) (fuel : ℕ) where
  ask_process-IsManned :
      (s : LlvmSymbolizer) (o : Option SymbolizerProcess) (command : Bytes) (l : Log)
      {p : SymbolizerProcess}
      → o ≡ some p
      → Lives p
      → Post (λ r l'. IsManned r.1) (ask_process os fuel s o command l)
  ask_process-IsManned s none command l e lives = cc
  ask_process-IsManned s (some q) command l {p} e lives =
      let same : p ≡ q = cc in
      Post-bind (send_command-Budget os fuel command q l (subst Lives same lives))
        λ r l' b. post (r.1, refl, b.lives)

  format_and_send_command-IsManned :
      (s : LlvmSymbolizer) (command_prefix : Bytes) (name : CharPtr) (offset : ℕ)
      (arch : ModuleArch) (l : Log)
      → IsManned s
      → Post
          (λ r l'. IsManned r.1)
          (format_and_send_command os fuel s command_prefix name offset arch l)
  unfolding format_and_send_command
  format_and_send_command-IsManned s command_prefix indeterminate offset arch l h = post tt
  format_and_send_command-IsManned s command_prefix nullptr offset arch l h = post tt
  format_and_send_command-IsManned s command_prefix (chars name) offset arch l (p, e, lives) =
      elim (Bool-cases (does_not_fit (format_command command_prefix name offset arch))) [
        | inl long ↦ rw long (post (p, e, lives))
        | inr short ↦ rw short (
            ask_process-IsManned
              (record s {
                buffer = take (buffer_size - 1) (format_command command_prefix name offset arch);
              })
              s.symbolizer_process _ l e lives)
      ]

  llvm_addr-Fills :
      (s : LlvmSymbolizer) (info : AddrInfo) (l : Log)
      → IsManned s
      → Post (λ r l'. IsManned r.1 × Fills info r.0 r.2) (Llvm.symbolize_addr os fuel s info l)
  unfolding Llvm.symbolize_addr
  llvm_addr-Fills s info l h =
      Post-bind
        (format_and_send_command-IsManned s (codes "CODE") info.module_name info.module_offset
          info.module_arch l h)
        λ (reply, s') l' manned. elim (Option-cases reply) [
          | inl e ↦ rw e (post (manned, refl))
          | inr (buf, e) ↦ rw e (parse-Fills IsManned buf info s' l' manned)
        ]

  llvm_data-Describes :
      (s : LlvmSymbolizer) (info : DataInfo) (l : Log)
      → IsManned s
      → Post (λ r l'. IsManned r.1 × Describes info r.0 r.2) (Llvm.symbolize_data os fuel s info l)
  unfolding Llvm.symbolize_data parse_symbolize_data_output
  llvm_data-Describes s info l h =
      Post-bind
        (format_and_send_command-IsManned s (codes "DATA") info.module_name info.module_offset
          info.module_arch l h)
        λ (reply, s') l' manned. elim (Option-cases reply) [
          | inl e ↦ rw e (post (manned, refl))
          | inr (buf, e) ↦ rw e (post (manned, (tt, tt)))
        ]

  any_request-IsPool :
      (s : Addr2LinePool) (name : CharPtr) (offset : ℕ) (l : Log)
      → IsPool s.addr2line_pool
      → Post (λ r l'. IsPool r.1.addr2line_pool) (send_to_pool os fuel s name offset l)
  unfolding send_to_pool
  any_request-IsPool s indeterminate offset l h = post tt
  any_request-IsPool s nullptr offset l h = post tt
  any_request-IsPool s (chars name) offset l h =
      Post-mono (send_to_pool-IsPool os fuel s name offset l h) λ r l' kept. kept.0

  line_tool-Fills :
      (s : Addr2LinePool) (info : AddrInfo) (l : Log)
      → IsPool s.addr2line_pool
      → Post
          (λ r l'. IsPool r.1.addr2line_pool × Fills info r.0 r.2)
          (Pool.symbolize_addr os fuel s info l)
  unfolding Pool.symbolize_addr
  line_tool-Fills s info l h =
      Post-bind (any_request-IsPool s info.module_name info.module_offset l h)
        λ (reply, s') l' kept. elim (Option-cases reply) [
          | inl e ↦ rw e (post (kept, refl))
          | inr (buf, e) ↦ rw e (parse-Fills (λ t. IsPool t.addr2line_pool) buf info s' l' kept)
        ]

  pub symbolize_addr-Fills :
      (tool : SymbolizerTool) (info : AddrInfo) (l : Log)
      → IsSound tool
      → Post
          (λ r l'. SameTool tool r.1 × IsSound r.1 × Fills info r.0 r.2)
          (symbolize_addr os fuel tool info l)
  unfolding symbolize_addr
  symbolize_addr-Fills (llvm_symbolizer s) info l h =
      Post-bind (llvm_addr-Fills s info l h) λ r l' k. post (tt, k.0, k.1)
  symbolize_addr-Fills (addr2line_pool s) info l h =
      Post-bind (line_tool-Fills s info l h) λ r l' k. post (tt, k.0, k.1)

  pub symbolize_data-Describes :
      (tool : SymbolizerTool) (info : DataInfo) (l : Log)
      → IsSound tool
      → Post
          (λ r l'. SameTool tool r.1 × IsSound r.1 × Describes info r.0 r.2 × OnlyLlvm tool r.0)
          (symbolize_data os fuel tool info l)
  unfolding symbolize_data
  symbolize_data-Describes (llvm_symbolizer s) info l h =
      Post-bind (llvm_data-Describes s info l h) λ r l' k. post (tt, k.0, k.1, tt)
  symbolize_data-Describes (addr2line_pool s) info l h = post (tt, h, refl, refl)
