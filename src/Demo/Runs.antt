-- ===== src/Demo/Runs.antt =====
-- What the whole demo prints, under every system.
use sanitizer_symbolizer_too.Prelude.{
  ℕ, ◌+◌, ◌-◌, ◌≡◌, refl, sym, ap, ◌∙◌, false, inl, inr, some, List, [], ◌∷◌, ◌++◌, arith, Bytes,
  Bool-cases, append_assoc, ok,
}
use sanitizer_symbolizer_too.Clib.{starts_with, strcmp_eq}
use sanitizer_symbolizer_too.Common.{strrchr, strip_module_name}
use sanitizer_symbolizer_too.System.{Log, Os}
use sanitizer_symbolizer_too.System.Post.{Post, post, Post-bind, Post-any}
use sanitizer_symbolizer_too.Pool.{new_addr2line_pool}
use sanitizer_symbolizer_too.Interface.{
  RetCode, yes_init_done, err_path_not_executable, run_addr2line, addr2line_pool, Globals, initial,
  with_buffers, choose_tool, init_tool, san_sym_tool_init,
}
use sanitizer_symbolizer_too.Interface.Calls.{init, fini, call}
use sanitizer_symbolizer_too.Demo.{
  Line, using, init_failed, use_llvm, use_ad2l, is_done, code_of, code_each, data_each, run_tool,
  main,
}
use sanitizer_symbolizer_too.Demo.Fails.{
  failed_lines, IsBlank, IsBlank-After, code_rounds-After, data_rounds-Fails,
}

-- The last lines: an initialisation failed, or every address of both ranges of data did.
pub data Ending (lines : List Line) : Type 0 where
  stops : (front : List Line) (ret : RetCode) → lines ≡ front ++ init_failed ret ∷ [] → Ending lines
  fails :
      (front : List Line)
      → lines
        ≡ front
          ++ (failed_lines (0x41B8 + 1 - 0x4000) 0x4000
              ++ failed_lines (0x4460 + 1 - 0x41C0) 0x41C0)
      → Ending lines

Ending-append : (front : List Line) {lines : List Line} → Ending lines → Ending (front ++ lines)
Ending-append front (stops before ret e) =
    stops (front ++ before) ret (ap (◌++◌ front) e ∙ sym (append_assoc front before _))
Ending-append front (fails before e) =
    fails (front ++ before) (ap (◌++◌ front) e ∙ sym (append_assoc front before _))

abbrev ad2l_started : Globals → Globals
ad2l_started g =
    with_buffers g (addr2line_pool (record { addr2line_path = some use_ad2l; addr2line_pool = [] }))
      run_addr2line

ad2l_started-IsBlank : (g : Globals) → IsBlank (ad2l_started g)
ad2l_started-IsBlank g = record {
  well_formed = ((tt, tt), tt, record { few = omega arith; distinct = tt; named = tt });
  tool = refl;
  symbol = refl;
}

choose-ad2l : (g : Globals) → init_tool g (some use_ad2l) ≡ ok (yes_init_done, ad2l_started g)
unfolding init_tool choose_tool strip_module_name strrchr starts_with strcmp_eq new_addr2line_pool
choose-ad2l g = refl

module _ (os : Os) (fuel : ℕ) where
  -- The first half ends the program where its initialisation fails.
  run_tool-stops :
      (path : Bytes) (g : Globals) (l : Log)
      → Post (λ r l'. r.0 ≡ false → Ending r.1) (run_tool os fuel path g l)
  unfolding run_tool
  run_tool-stops path g l =
      Post-bind (Post-any (call os fuel (init (some path)) g l)) λ (reply, g1) l1 u.
        elim (Bool-cases (is_done reply)) [
          | inr failed ↦ rw failed (post λ e. stops (using path ∷ []) (code_of reply) refl)
          | inl done ↦ rw done (
              Post-bind (Post-any (code_each os fuel 0x1320 0x1C65 g1 l1)) λ (text, g2) l2 u2.
                Post-bind (Post-any (data_each os fuel 0x4000 0x41B8 g2 l2)) λ (stored, g3) l3 u3.
                  Post-bind (Post-any (data_each os fuel 0x41C0 0x4460 g3 l3)) λ (zeroed, g4) l4 u4.
                    Post-bind (Post-any (call os fuel fini g4 l4)) λ ended l5 u5. post λ e. cc)
        ]

  run_tool-ad2l :
      (g : Globals) (l : Log) → Post (λ r l'. Ending r.1) (run_tool os fuel use_ad2l g l)
  unfolding run_tool call san_sym_tool_init code_each data_each
  run_tool-ad2l g l = elim (Bool-cases (os.access l (some use_ad2l))) [
    | inr refused ↦
        rw (refused, run_tool) (post (stops (using use_ad2l ∷ []) err_path_not_executable refl))
    | inl executable ↦
        rw (executable, run_tool, choose-ad2l g)
          (Post-bind
            (code_rounds-After os fuel _ _ 0x1320 (ad2l_started g) _
              (ad2l_started-IsBlank g).well_formed)
            λ (text, g1) l1 k.
              let (g2, e2, b2) =
                data_rounds-Fails os fuel (0x41B8 + 1 - 0x4000) (0x41B8 - 0x4000 + 2) 0x4000 0x41B8
                  g1 l1 refl (omega arith) (omega arith)
                  (IsBlank-After (ad2l_started-IsBlank g) k) in
              let (g3, e3, b3) =
                data_rounds-Fails os fuel (0x4460 + 1 - 0x41C0) (0x4460 - 0x41C0 + 2) 0x41C0 0x4460
                  g2 l1 refl (omega arith) (omega arith) b2 in
              rw (e2, e3)
                (Post-bind (Post-any (call os fuel fini g3 l1))
                  λ ended l2 u. post (fails (using use_ad2l ∷ text) refl)))
  ]

  -- For every system, where the demo returns, the last line that it printed is that of a failed
  -- initialisation, or its last lines are the failures of every address of both ranges of data,
  -- from addr2line, whatever llvm-symbolizer did before.
  pub main-Ending : Post (λ lines l'. Ending lines) (main os fuel [])
  unfolding main
  main-Ending = Post-bind (run_tool-stops use_llvm initial []) λ (go, lines, g) l1 stopped.
      elim (Bool-cases go) [
        | inr off ↦ rw off (post (stopped off))
        | inl on ↦
            rw on
              (Post-bind (run_tool-ad2l g l1) λ second l2 ending. post (Ending-append lines ending))
      ]
