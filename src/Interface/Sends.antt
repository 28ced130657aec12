-- ===== src/Interface/Sends.antt =====
-- A request for a code address, against the invariant of the globals and the session.
use sanitizer_symbolizer_too.Prelude.{
  ℕ, ◌%◌, ◌^◌, ◌≢◌, refl, sym, ap, subst, Bool, true, false, inl, inr, Option, none, some,
  if◌then◌else◌, length, All, All-append,
}
use sanitizer_symbolizer_too.Common.{unknown}
use sanitizer_symbolizer_too.Info.{CharPtr, DataInfo, AddrInfo}
use sanitizer_symbolizer_too.Output.Total.{IsReadable}
use sanitizer_symbolizer_too.System.{Log, Os}
use sanitizer_symbolizer_too.System.Monad.{pure}
use sanitizer_symbolizer_too.System.Post.{Post, post, Post-bind}
use sanitizer_symbolizer_too.Interface.{
  ToolCode, run_nothing, run_llvm_symbolizer, run_addr2line, RetCode, yes_send_done,
  err_symbolize_failed, SymbolizerTool, llvm_symbolizer, addr2line_pool, Globals,
  san_sym_tool_send_addr_dat,
}
use sanitizer_symbolizer_too.Interface.Tools.{Fills, IsSound, SameTool, symbolize_addr-Fills}
use sanitizer_symbolizer_too.Interface.Calls.{addr_send, sent, call}
use sanitizer_symbolizer_too.Interface.Session.{view, Fit, Runs}
use sanitizer_symbolizer_too.Interface.Steps.{globals, Obeys}

-- A tool that runs has a code, and only that of its class.
pub Runs-ne :
    (t : SymbolizerTool) (running : ToolCode) → Runs (some t) running → running ≢ run_nothing
Runs-ne (llvm_symbolizer s) run_nothing h e = h
Runs-ne (llvm_symbolizer s) run_llvm_symbolizer h e = cc
Runs-ne (llvm_symbolizer s) run_addr2line h e = h
Runs-ne (addr2line_pool s) run_nothing h e = h
Runs-ne (addr2line_pool s) run_llvm_symbolizer h e = h
Runs-ne (addr2line_pool s) run_addr2line h e = cc

pub Runs-IsSound : (t : SymbolizerTool) (running : ToolCode) → Runs (some t) running → IsSound t
Runs-IsSound (llvm_symbolizer s) run_llvm_symbolizer h = h
Runs-IsSound (addr2line_pool s) run_addr2line h = h
Runs-IsSound (llvm_symbolizer s) run_nothing h = absurd h
Runs-IsSound (llvm_symbolizer s) run_addr2line h = absurd h
Runs-IsSound (addr2line_pool s) run_nothing h = absurd h
Runs-IsSound (addr2line_pool s) run_llvm_symbolizer h = absurd h

pub IsSound-Runs :
    (t t' : SymbolizerTool) (running : ToolCode)
    → Runs (some t) running
    → SameTool t t'
    → IsSound t'
    → Runs (some t') running
IsSound-Runs (llvm_symbolizer s) (llvm_symbolizer s') run_llvm_symbolizer h same sound = sound
IsSound-Runs (addr2line_pool s) (addr2line_pool s') run_addr2line h same sound = sound
IsSound-Runs (llvm_symbolizer s) (llvm_symbolizer s') run_nothing h same sound = absurd h
IsSound-Runs (llvm_symbolizer s) (llvm_symbolizer s') run_addr2line h same sound = absurd h
IsSound-Runs (addr2line_pool s) (addr2line_pool s') run_nothing h same sound = absurd h
IsSound-Runs (addr2line_pool s) (addr2line_pool s') run_llvm_symbolizer h same sound = absurd h
IsSound-Runs (llvm_symbolizer s) (addr2line_pool s') running h same sound = absurd same
IsSound-Runs (addr2line_pool s) (llvm_symbolizer s') running h same sound = absurd same

module _ (os : Os) (fuel : ℕ) where
  -- What stands behind the answer of the tool.
  addr_answer :
      (d : DataInfo) (a : AddrInfo) (t : SymbolizerTool) (running : ToolCode) (l : Log)
      (name : CharPtr) (offset : ℕ) (success : Bool) (t' : SymbolizerTool) (info' : AddrInfo)
      → Fit (some d) (some a) (some t) running
      → Runs (some t') running
      → Fills
          (record a { module_name = name; module_offset = offset % 2 ^ 32; module_arch = unknown })
          success
          info'
      → Post {A = RetCode × Option ℕ × Globals}
          (λ r l'.
            Obeys
              (addr_send name offset)
              (globals (some d) (some a) (some t) running)
              (sent r.0 r.1, r.2)
              l')
          ((if success
              then pure (
                yes_send_done,
                some (length info'.frames),
                globals (some d) (some info') (some t') running,
              )
              else pure
                  (err_symbolize_failed, none, globals (some d) (some info') (some t') running))
            l)
  addr_answer d a t running l name offset false t' info' h runs same =
      let kept = ap (λ i. i.frames) same in
      post (
        (h.0, subst (All IsReadable) (sym kept) h.1, runs),
        inr (
            inl (
              Runs-ne t running h.2,
              refl,
              ap
                  (λ fs. record (view (globals (some d) (some a) (some t) running)) {
                    frames = some fs;
                  })
                  kept,
            )),
      )
  addr_answer d a t running l name offset true t' info' h runs (new, same, readable) =
      let grown = ap (λ i. i.frames) same in
      post (
        (
          h.0,
          subst (All IsReadable) (sym grown) (All-append IsReadable a.frames new h.1 readable),
          runs,
        ),
        inr (
            inr (
              a.frames,
              new,
              Runs-ne t running h.2,
              refl,
              readable,
              ap (λ fs. sent yes_send_done (some (length fs))) grown,
              ap
                  (λ fs. record (view (globals (some d) (some a) (some t) running)) {
                    frames = some fs;
                  })
                  grown,
            )),
      )

  pub addr_send-Obeys :
      (name : CharPtr) (offset : ℕ) (d : Option DataInfo) (a : Option AddrInfo)
      (t : Option SymbolizerTool) (running : ToolCode) (l : Log)
      → Fit d a t running
      → Post
          (Obeys (addr_send name offset) (globals d a t running))
          (call os fuel (addr_send name offset) (globals d a t running) l)
  unfolding call san_sym_tool_send_addr_dat
  addr_send-Obeys name offset none none none run_nothing l h = post (h, inl (refl, refl, refl))
  addr_send-Obeys name offset (some d) (some a) none run_nothing l h =
      post (h, inl (refl, refl, refl))
  addr_send-Obeys name offset (some d) (some a) (some t) running l h =
      let request = record a {
        module_name = name;
        module_offset = offset % 2 ^ 32;
        module_arch = unknown;
      } in
      Post-bind
        (Post-bind (symbolize_addr-Fills os fuel t request l (Runs-IsSound t running h.2))
          λ (success, t', info') l' k.
            addr_answer d a t running l' name offset success t' info' h
              (IsSound-Runs t t' running h.2 k.0 k.1) k.2)
        λ r l' k. post k
  addr_send-Obeys name offset none none none run_llvm_symbolizer l h = absurd h
  addr_send-Obeys name offset none none none run_addr2line l h = absurd h
  addr_send-Obeys name offset none none (some t) running l h = absurd h
  addr_send-Obeys name offset none (some a) t running l h = absurd h
  addr_send-Obeys name offset (some d) none t running l h = absurd h
  addr_send-Obeys name offset (some d) (some a) none run_llvm_symbolizer l h = absurd h.2
  addr_send-Obeys name offset (some d) (some a) none run_addr2line l h = absurd h.2
