-- ===== src/Interface/Requests.antt =====
-- Requests for data, and then every call of lib/interface.cpp, against the invariant of the globals and
-- the session.
use sanitizer_symbolizer_too.Prelude.{
  ℕ, ◌%◌, ◌^◌, refl, sym, ap, subst, Bool, true, false, inl, inr, Option, none, some, if◌then◌else◌,
}
use sanitizer_symbolizer_too.Common.{unknown}
use sanitizer_symbolizer_too.Info.{CharPtr, DataInfo, AddrInfo}
use sanitizer_symbolizer_too.Output.Total.{IsValid}
use sanitizer_symbolizer_too.System.{Log, Os}
use sanitizer_symbolizer_too.System.Monad.{pure}
use sanitizer_symbolizer_too.System.Post.{Post, post, Post-bind}
use sanitizer_symbolizer_too.Interface.{
  ToolCode, run_nothing, run_llvm_symbolizer, run_addr2line, RetCode, yes_send_done,
  err_symbolize_failed, SymbolizerTool, llvm_symbolizer, addr2line_pool, Globals,
  san_sym_tool_send_data_dat,
}
use sanitizer_symbolizer_too.Interface.Tools.{Describes, OnlyLlvm, symbolize_data-Describes}
use sanitizer_symbolizer_too.Interface.Calls.{
  Call, init, fini, addr_free, data_free, data_read, addr_send, addr_read, data_send, code, call,
}
use sanitizer_symbolizer_too.Interface.Session.{view, read_data, Fit, Runs, IsWellFormed}
use sanitizer_symbolizer_too.Interface.Steps.{
  globals, Obeys, init-Obeys, fini-Obeys, addr_free-Obeys, data_free-Obeys, data_read-Obeys,
  addr_read-Obeys,
}
use sanitizer_symbolizer_too.Interface.Sends.{Runs-ne, Runs-IsSound, IsSound-Runs, addr_send-Obeys}

module _ (os : Os) (fuel : ℕ) where
  data_answer :
      (d : DataInfo) (a : AddrInfo) (t : SymbolizerTool) (running : ToolCode) (l : Log)
      (name : CharPtr) (offset : ℕ) (success : Bool) (t' : SymbolizerTool) (info' : DataInfo)
      → Fit (some d) (some a) (some t) running
      → Runs (some t') running
      → Describes
          (record d { module_name = name; module_offset = offset % 2 ^ 32; module_arch = unknown })
          success
          info'
      → OnlyLlvm t success
      → Post {A = RetCode × Globals}
          (λ r l'.
            Obeys
              (data_send name offset)
              (globals (some d) (some a) (some t) running)
              (code r.0, r.1)
              l')
          ((if success
              then pure (yes_send_done, globals (some info') (some a) (some t') running)
              else pure (err_symbolize_failed, globals (some info') (some a) (some t') running))
            l)
  data_answer d a t running l name offset false t' info' h runs same only =
      let kept = ap read_data same in
      post (
        (subst (λ r. IsValid r.file × IsValid r.name) (sym kept) h.0, h.1, runs),
        inr (
            inl (
              Runs-ne t running h.2,
              refl,
              ap
                  (λ r. record (view (globals (some d) (some a) (some t) running)) {
                    current = some r;
                  })
                  kept,
            )),
      )
  data_answer d a (llvm_symbolizer s) run_llvm_symbolizer l name offset true t' info' h runs valid
        only =
      post ((valid, h.1, runs), inr (inr (read_data info', refl, valid.0, valid.1, refl, refl)))
  data_answer d a (llvm_symbolizer s) run_nothing l name offset true t' info' h runs valid only =
      absurd h.2
  data_answer d a (llvm_symbolizer s) run_addr2line l name offset true t' info' h runs valid only =
      absurd h.2
  data_answer d a (addr2line_pool s) running l name offset true t' info' h runs valid only = cc

  data_send-Obeys :
      (name : CharPtr) (offset : ℕ) (d : Option DataInfo) (a : Option AddrInfo)
      (t : Option SymbolizerTool) (running : ToolCode) (l : Log)
      → Fit d a t running
      → Post
          (Obeys (data_send name offset) (globals d a t running))
          (call os fuel (data_send name offset) (globals d a t running) l)
  unfolding call san_sym_tool_send_data_dat
  data_send-Obeys name offset none none none run_nothing l h = post (h, inl (refl, refl, refl))
  data_send-Obeys name offset (some d) (some a) none run_nothing l h =
      post (h, inl (refl, refl, refl))
  data_send-Obeys name offset (some d) (some a) (some t) running l h =
      let request = record d {
        module_name = name;
        module_offset = offset % 2 ^ 32;
        module_arch = unknown;
      } in
      Post-bind
        (Post-bind (symbolize_data-Describes os fuel t request l (Runs-IsSound t running h.2))
          λ (success, t', info') l' k.
            data_answer d a t running l' name offset success t' info' h
              (IsSound-Runs t t' running h.2 k.0 k.1) k.2 k.3)
        λ r l' k. post k
  data_send-Obeys name offset none none none run_llvm_symbolizer l h = absurd h
  data_send-Obeys name offset none none none run_addr2line l h = absurd h
  data_send-Obeys name offset none none (some t) running l h = absurd h
  data_send-Obeys name offset none (some a) t running l h = absurd h
  data_send-Obeys name offset (some d) none t running l h = absurd h
  data_send-Obeys name offset (some d) (some a) none run_llvm_symbolizer l h = absurd h.2
  data_send-Obeys name offset (some d) (some a) none run_addr2line l h = absurd h.2

  -- For every system, each call from well-formed globals, where it returns, leaves well-formed
  -- globals, and its reply and what it does to what a client sees are those that the session
  -- allows. Well formed are globals with nothing in them, or with both buffers, in which every
  -- pointer is null or points to a string, no tool or one that fits its code, and a tool that is
  -- sound: a process whose restarts are within five, or a pool that holds each module at most
  -- once.
  pub call-Obeys :
      (c : Call) (g : Globals) (l : Log) → IsWellFormed g → Post (Obeys c g) (call os fuel c g l)
  call-Obeys (init path) g l h = init-Obeys os fuel path g l h
  call-Obeys fini g l h =
      fini-Obeys os fuel g.data_info_buf g.addr_info_buf g.san_sym_tool g.running_this_tool l h
  call-Obeys addr_free g l h =
      addr_free-Obeys os fuel g.data_info_buf g.addr_info_buf g.san_sym_tool g.running_this_tool l h
  call-Obeys data_free g l h =
      data_free-Obeys os fuel g.data_info_buf g.addr_info_buf g.san_sym_tool g.running_this_tool l h
  call-Obeys data_read g l h =
      data_read-Obeys os fuel g.data_info_buf g.addr_info_buf g.san_sym_tool g.running_this_tool l h
  call-Obeys (addr_send name offset) g l h =
      addr_send-Obeys os fuel name offset g.data_info_buf g.addr_info_buf g.san_sym_tool
        g.running_this_tool l h
  call-Obeys (addr_read idx) g l h =
      addr_read-Obeys os fuel idx g.data_info_buf g.addr_info_buf g.san_sym_tool g.running_this_tool
        l h
  call-Obeys (data_send name offset) g l h =
      data_send-Obeys name offset g.data_info_buf g.addr_info_buf g.san_sym_tool g.running_this_tool
        l h
