-- ===== src/Interface/Steps.antt =====
-- Initialisation, reads and frees of lib/interface.cpp, against the invariant of the globals and the
-- session.
use sanitizer_symbolizer_too.Prelude.{
  ℕ, zero, suc, ◌≡◌, refl, sym, ap, subst, ◌∙◌, true, false, inl, inr, Option, none, some, List, [],
  ◌∷◌, arith, Bytes, codes, leb, Bool-cases, length, get_elem?, All,
}
use sanitizer_symbolizer_too.Clib.{starts_with, strcmp_eq}
use sanitizer_symbolizer_too.Clib.Laws.{strcmp_eq_iff}
use sanitizer_symbolizer_too.Common.Names.{IsBaseName, strip_module_name_lem}
use sanitizer_symbolizer_too.Info.{DataInfo, AddrInfo}
use sanitizer_symbolizer_too.Output.Total.{IsValid, IsReadable}
use sanitizer_symbolizer_too.System.{Log, Os}
use sanitizer_symbolizer_too.System.Monad.{lift}
use sanitizer_symbolizer_too.System.Post.{Post, post, Post-bind, Post-of_Ends}
use sanitizer_symbolizer_too.Symbolizer.{new_process}
use sanitizer_symbolizer_too.Llvm.{new_llvm_symbolizer}
use sanitizer_symbolizer_too.Pool.{new_addr2line_pool}
use sanitizer_symbolizer_too.Interface.{
  ToolCode, run_nothing, run_llvm_symbolizer, run_addr2line, yes_read_done, err_path_not_executable,
  SymbolizerTool, Globals, choose_tool, init_tool, san_sym_tool_init, san_sym_tool_free_addr_res,
  san_sym_tool_free_data_res, san_sym_tool_read_addr_dat, san_sym_tool_read_data_dat,
}
use sanitizer_symbolizer_too.Interface.Lifecycle.{
  IsOwned, free_ptr-IsValid, free_frames-All, san_sym_tool_fini-Refuses,
}
use sanitizer_symbolizer_too.Interface.Calls.{
  Call, init, fini, addr_free, data_free, data_read, addr_read, Reply, frame, call,
}
use sanitizer_symbolizer_too.Interface.Session.{
  view, Allows, Initializes, shown, Fit, Runs, IsWellFormed,
}

abbrev pub globals : Option DataInfo → Option AddrInfo → Option SymbolizerTool → ToolCode → Globals
globals d a t running = record {
  data_info_buf = d;
  addr_info_buf = a;
  san_sym_tool = t;
  running_this_tool = running;
}

-- A step keeps the invariant and is one of the session's.
abbrev pub Obeys : Call → Globals → Reply × Globals → Log → Type 0
Obeys c g r l = IsWellFormed r.1 × Allows c (view g) r.0 (view r.1)

-- `idx >= size()` is the test that `frames[idx]` is there.
get_elem?_past :
    {A : Type 0} (xs : List A) (i : ℕ) → leb (length xs) i ≡ true → get_elem? xs i ≡ none
get_elem?_past [] i h = refl
get_elem?_past (x ∷ xs) zero h = absurd (ground arith)
get_elem?_past (x ∷ xs) (suc i) h = get_elem?_past xs i (ground arith)

pub get_elem?_within :
    {A : Type 0} (xs : List A) (i : ℕ)
    → leb (length xs) i ≡ false
    → (x : A) × (get_elem? xs i ≡ some x)
get_elem?_within [] i h = absurd (ground arith)
get_elem?_within (x ∷ xs) zero h = (x, refl)
get_elem?_within (x ∷ xs) (suc i) h = get_elem?_within xs i (ground arith)

module _ (os : Os) (fuel : ℕ) where
  pub addr_read-Obeys :
      (idx : ℕ) (d : Option DataInfo) (a : Option AddrInfo) (t : Option SymbolizerTool)
      (running : ToolCode) (l : Log)
      → Fit d a t running
      → Post
          (Obeys (addr_read idx) (globals d a t running))
          (call os fuel (addr_read idx) (globals d a t running) l)
  unfolding call san_sym_tool_read_addr_dat
  addr_read-Obeys idx d none t running l h = post (h, (refl, refl))
  addr_read-Obeys idx d (some a) t running l h = elim (Bool-cases (leb (length a.frames) idx)) [
    | inl past ↦ rw past (post (h, (sym (ap shown (get_elem?_past a.frames idx past)), refl)))
    | inr within ↦
        let (f, e) = get_elem?_within a.frames idx within in
        rw within (post (h, (ap (frame yes_read_done) e ∙ sym (ap shown e), refl)))
  ]

  pub data_read-Obeys :
      (d : Option DataInfo) (a : Option AddrInfo) (t : Option SymbolizerTool) (running : ToolCode)
      (l : Log)
      → Fit d a t running
      → Post
          (Obeys data_read (globals d a t running))
          (call os fuel data_read (globals d a t running) l)
  unfolding call san_sym_tool_read_data_dat
  data_read-Obeys none a t running l h = post (h, (refl, refl))
  data_read-Obeys (some d) a t running l h = post (h, (refl, refl))

  pub addr_free-Obeys :
      (d : Option DataInfo) (a : Option AddrInfo) (t : Option SymbolizerTool) (running : ToolCode)
      (l : Log)
      → Fit d a t running
      → Post
          (Obeys addr_free (globals d a t running))
          (call os fuel addr_free (globals d a t running) l)
  unfolding call san_sym_tool_free_addr_res
  addr_free-Obeys d none t running l h = post (h, (refl, refl))
  addr_free-Obeys (some d) (some a) t running l h =
      rw (free_frames-All a.frames h.1) (post ((h.0, tt, h.2), (refl, refl)))
  addr_free-Obeys none (some a) t running l h = absurd h

  pub data_free-Obeys :
      (d : Option DataInfo) (a : Option AddrInfo) (t : Option SymbolizerTool) (running : ToolCode)
      (l : Log)
      → Fit d a t running
      → Post
          (Obeys data_free (globals d a t running))
          (call os fuel data_free (globals d a t running) l)
  unfolding call san_sym_tool_free_data_res
  data_free-Obeys none a t running l h = post (h, (refl, refl))
  data_free-Obeys (some d) (some a) t running l h =
      rw (free_ptr-IsValid d.file h.0.0, free_ptr-IsValid d.name h.0.1)
        (post (((tt, tt), h.1, h.2), (refl, refl)))
  data_free-Obeys (some d) none t running l h = absurd h

  owned :
      (d : Option DataInfo) (a : Option AddrInfo) (t : Option SymbolizerTool) (running : ToolCode)
      → Fit d a t running
      → IsOwned (globals d a t running)
  owned none none t running h = record { data_owned = λ x e. cc; addr_owned = λ x e. cc }
  owned (some d) (some a) t running h = record {
    data_owned =
        λ x e. let same : d ≡ x = cc in subst (λ y. IsValid y.file × IsValid y.name) same h.0;
    addr_owned = λ x e. let same : a ≡ x = cc in subst (λ y. All IsReadable y.frames) same h.1;
  }
  owned none (some a) t running h = absurd h
  owned (some d) none t running h = absurd h

  pub fini-Obeys :
      (d : Option DataInfo) (a : Option AddrInfo) (t : Option SymbolizerTool) (running : ToolCode)
      (l : Log)
      → Fit d a t running
      → Post (Obeys fini (globals d a t running)) (call os fuel fini (globals d a t running) l)
  unfolding call
  fini-Obeys d a t running l h =
      Post-bind
        (Post-of_Ends
          (san_sym_tool_fini-Refuses os (globals d a t running) l (owned d a t running h)))
        λ g l' e. post (subst IsWellFormed (sym e.0) tt, (refl, ap view e.0))

  choose_tool-Initializes :
      (g : Globals) (path base : Bytes) (l : Log)
      → IsWellFormed g
      → IsBaseName path base
      → Post
          (λ r l'. IsWellFormed r.1 × Initializes (some path) (view g) r.0 (view r.1))
          (lift (choose_tool g path base) l)
  unfolding choose_tool new_addr2line_pool new_llvm_symbolizer new_process
  choose_tool-Initializes g [] base l h is_base = post (h, (refl, refl))
  choose_tool-Initializes g (c ∷ path) base l h is_base =
      elim (Bool-cases (starts_with base (codes "llvm-symbolizer"))) [
        | inl e ↦ rw e (
            post (
              ((tt, tt), tt, (_, refl, record { within_limit = omega arith; used_up = λ f. cc })),
              ((base, is_base, inl (e, refl)), refl, refl),
            ))
        | inr e ↦ elim (Bool-cases (strcmp_eq base (codes "addr2line"))) [
          | inl e' ↦
              rw (e, e')
                (post (
                  ((tt, tt), tt, record { few = omega arith; distinct = tt; named = tt }),
                  (
                    (base, is_base, inr ((strcmp_eq_iff base (codes "addr2line")).0 e', refl)),
                    refl,
                    refl,
                  ),
                ))
          | inr e' ↦ rw (e, e') (post (h, (refl, λ n. cc)))
        ]
      ]

  -- The code fits the tool in every state that is well formed.
  tool_fits :
      (d : Option DataInfo) (a : Option AddrInfo) (t : Option SymbolizerTool) (running : ToolCode)
      → Fit d a t running
      → Runs t running
  tool_fits none none none run_nothing h = tt
  tool_fits (some d) (some a) t running h = h.2
  tool_fits none none none run_llvm_symbolizer h = absurd h
  tool_fits none none none run_addr2line h = absurd h
  tool_fits none none (some t) running h = absurd h
  tool_fits none (some a) t running h = absurd h
  tool_fits (some d) none t running h = absurd h

  init_tool-Initializes :
      (g : Globals) (path : Option Bytes) (l : Log)
      → IsWellFormed g
      → Post
          (λ r l'. IsWellFormed r.1 × Initializes path (view g) r.0 (view r.1))
          (lift (init_tool g path) l)
  unfolding init_tool
  init_tool-Initializes g none l h = post (
    ((tt, tt), tt, tool_fits g.data_info_buf g.addr_info_buf g.san_sym_tool g.running_this_tool h),
    (refl, refl, refl),
  )
  init_tool-Initializes g (some path) l h = elim (strip_module_name_lem (some path)) [
    | inl (absent, e) ↦ cc
    | inr (path', base, same, e, is_base) ↦
        let same' : path' ≡ path = cc in
        rw (e, init_tool)
          (choose_tool-Initializes g path base l h (subst (λ p. IsBaseName p base) same' is_base))
  ]

  pub init-Obeys :
      (path : Option Bytes) (g : Globals) (l : Log)
      → IsWellFormed g
      → Post (Obeys (init path) g) (call os fuel (init path) g l)
  unfolding call san_sym_tool_init
  init-Obeys path g l h = elim (Bool-cases (os.access l path)) [
    | inl e ↦
        rw e (Post-bind (init_tool-Initializes g path _ h) λ r l' k. post (k.0, (r.0, refl, k.1)))
    | inr e ↦ rw e (post (h, (err_path_not_executable, refl, refl)))
  ]
