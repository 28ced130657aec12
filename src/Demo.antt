-- ===== src/Demo.antt =====
-- demo/simple_demo.c: a client that goes through the code and the data of a binary, first with
-- llvm-symbolizer and then with addr2line. What it prints is a list of lines.
pub mod Fails
pub mod Runs
pub mod Shows
pub mod Prints
use sanitizer_symbolizer_too.Prelude.{
  ℕ, zero, suc, ◌+◌, ◌-◌, ◌*◌, ◌/◌, ◌%◌, ◌^◌, ◌≤◌, ◌<◌, ◌≡◌, ◌≢◌, ◌↔◌, refl, sym, ap, subst, ◌∙◌,
  ◌≡⟨◌⟩◌, ◌∎, Bool, true, false, not, ◌&&◌, ◌||◌, ◌⊎◌, inl, inr, Option, none, some, List, [], ◌∷◌,
  ◌++◌, map, arith, Bytes, codes, ltb, leb, ◌==◌, ==-refl, ==-ne, if◌then◌else◌, Bool-cases,
  Option-cases, length, length-append, length-drop-le, take, drop, take-append, take-length,
  take-all, drop-length, take-append-drop, length-take_of_le, drop-append, get_elem?, All,
  All-append, All-map, append_assoc, append-nil, Outcome, ok, die, undefined, spent, then_do,
  then_do-eq-ok,
}
use sanitizer_symbolizer_too.Info.{CharPtr, indeterminate, nullptr, chars, FrameDat}
use sanitizer_symbolizer_too.System.{Os}
use sanitizer_symbolizer_too.System.Monad.{Sys, pure, ◌>>=◌, lift}
use sanitizer_symbolizer_too.Interface.{RetCode, yes_init_done, Globals, initial, DataRead}
use sanitizer_symbolizer_too.Interface.Calls.{
  Call, init, fini, addr_free, data_free, data_read, addr_send, addr_read, data_send, Reply,
  nothing, code, sent, frame, symbol, call,
}

abbrev pub use_prog : Bytes
use_prog = codes "./bug-san0-dbg0-64.bin"

abbrev pub use_llvm : Bytes
use_llvm = codes "./llvm-symbolizer"

abbrev pub use_ad2l : Bytes
use_ad2l = codes "./addr2line"

-- The lines that are printed, with what stands in them.
pub data Line : Type 0 where
  using : Bytes → Line
  init_failed : RetCode → Line
  code_at data_at : ℕ → Line
  frame_line : Bytes → Bytes → ℕ → ℕ → Line
  symbol_line : Bytes → Bytes → ℕ → ℕ → ℕ → Line

-- `if (!p) { p = "??"; }`
unfoldable pub or_text : Bytes → CharPtr → Outcome Bytes
or_text text indeterminate = undefined
or_text text nullptr = ok text
or_text text (chars s) = ok s

-- `*pfile == '\n'`
abbrev pub or_null : Bytes → Bytes
or_null [] = []
or_null (c ∷ s) = if c == b'\n' then codes "NULL" else c ∷ s

unfoldable pub file_text : CharPtr → Outcome Bytes
file_text indeterminate = undefined
file_text nullptr = ok (codes "FAIL")
file_text (chars s) = ok (or_null s)

-- The line for the out parameters of a read; they are not set where it fails.
unfoldable pub show_frame : Reply → Outcome Line
unfolding or_text
show_frame (frame ret (some f)) =
    then_do (or_text (codes "??") f.file) λ pfile.
      then_do (or_text (codes "??") f.func) λ pfunc. ok (frame_line pfunc pfile f.lin f.col)
show_frame _ = undefined

unfoldable pub show_symbol : Reply → Outcome Line
unfolding or_text file_text
show_symbol (symbol ret (some d)) = then_do (file_text d.file) λ pfile.
    then_do (or_text (codes "FAIL") d.name)
      λ pname. ok (symbol_line pname pfile d.line d.size d.start)
show_symbol _ = undefined

-- `N`, which is 0 before the call.
abbrev pub frames_sent : Reply → ℕ
frames_sent (sent ret (some n)) = n
frames_sent _ = 0

-- `init_st != 0`
abbrev pub is_done : Reply → Bool
is_done (code yes_init_done) = true
is_done _ = false

abbrev pub code_of : Reply → RetCode
code_of (code ret) = ret
code_of _ = yes_init_done

module _ (os : Os) (fuel : ℕ) where
  -- The loop over `j`, with the rounds left.
  unfoldable pub frame_rounds : ℕ → ℕ → Globals → Sys (List Line × Globals)
  frame_rounds zero j g = pure ([], g)
  frame_rounds (suc rounds) j g = do
    res ← call os fuel (addr_read j) g
    line ← lift (show_frame res.0)
    rest ← frame_rounds rounds (suc j) res.1
    pure (line ∷ rest.0, rest.1)

  -- The bodies of the loops over `i`.
  unfoldable pub code_round : ℕ → Globals → Sys (List Line × Globals)
  unfolding frame_rounds
  code_round i g = do
    res ← call os fuel (addr_send (chars use_prog) i) g
    frames ← frame_rounds (frames_sent res.0) 0 res.1
    freed ← call os fuel addr_free frames.1
    pure (code_at i ∷ frames.0, freed.1)

  unfoldable pub data_round : ℕ → Globals → Sys (List Line × Globals)
  data_round i g = do
    res ← call os fuel (data_send (chars use_prog) i) g
    out ← call os fuel data_read res.1
    line ← lift (show_symbol out.0)
    freed ← call os fuel data_free out.1
    pure (data_at i ∷ line ∷ [], freed.1)

  -- The loops, with fuel: `i` is an `unsigned int`, so that it never passes the largest `tail`.
  unfoldable pub code_rounds : ℕ → ℕ → ℕ → Globals → Sys (List Line × Globals)
  code_rounds zero tail i g = lift spent
  code_rounds (suc rounds) tail i g =
      if leb i tail
      then (do
        lines ← code_round i g
        rest ← code_rounds rounds tail (suc i % 2 ^ 32) lines.1
        pure (lines.0 ++ rest.0, rest.1))
      else pure ([], g)

  unfoldable pub data_rounds : ℕ → ℕ → ℕ → Globals → Sys (List Line × Globals)
  data_rounds zero tail i g = lift spent
  data_rounds (suc rounds) tail i g =
      if leb i tail
      then (do
        lines ← data_round i g
        rest ← data_rounds rounds tail (suc i % 2 ^ 32) lines.1
        pure (lines.0 ++ rest.0, rest.1))
      else pure ([], g)

  -- A round for each address, and one for the test that ends the loop.
  unfoldable pub code_each : ℕ → ℕ → Globals → Sys (List Line × Globals)
  code_each head tail g = code_rounds (tail - head + 2) tail head g

  unfoldable pub data_each : ℕ → ℕ → Globals → Sys (List Line × Globals)
  data_each head tail g = data_rounds (tail - head + 2) tail head g

  -- One half of `main`. The first part of the result is false behind `exit`.
  unfoldable pub run_tool : Bytes → Globals → Sys (Bool × List Line × Globals)
  run_tool path g = do
    started ← call os fuel (init (some path)) g
    (if is_done started.0
        then (do
          text ← code_each 0x1320 0x1C65 started.1
          stored ← data_each 0x4000 0x41B8 text.1
          zeroed ← data_each 0x41C0 0x4460 stored.1
          ended ← call os fuel fini zeroed.1
          pure (true, using path ∷ (text.0 ++ (stored.0 ++ zeroed.0)), ended.1))
        else pure (false, using path ∷ init_failed (code_of started.0) ∷ [], started.1))

  unfoldable pub main : Sys (List Line)
  main = do
    first ← run_tool use_llvm initial
    (if first.0
        then (do second ← run_tool use_ad2l first.2; pure (first.1 ++ second.1))
        else pure first.1)
