-- ===== src/Process.antt =====
-- lib/symbolizer.h and lib/symbolizer.cpp: `SymbolizerProcess`, with the overrides of its two
-- subclasses in lib/use_llvm_symbolizer.cpp and lib/use_addr2line.cpp.
pub mod Life
pub mod Restarts
pub mod Replies
pub mod Starts
pub mod Ends
pub mod Delivery
pub mod FirstUse
pub mod Recovers
pub mod Spares
pub mod Signals
pub mod Pieces
pub mod Terminator
use sanitizer_symbolizer_too.Prelude.{
  ℕ, zero, suc, ◌+◌, ◌-◌, ◌*◌, ◌/◌, ◌%◌, ◌^◌, ◌≤◌, ◌<◌, ◌≡◌, ◌≢◌, ◌↔◌, refl, sym, ap, subst, ◌∙◌,
  ◌≡⟨◌⟩◌, ◌∎, Bool, true, false, not, ◌&&◌, ◌||◌, ◌⊎◌, inl, inr, Option, none, some, List, [], ◌∷◌,
  ◌++◌, map, arith, Bytes, codes, ltb, leb, ◌==◌, ==-refl, ==-ne, if◌then◌else◌, Bool-cases,
  Option-cases, length, length-append, length-drop-le, take, drop, take-append, take-length,
  drop-length, take-append-drop, length-take_of_le, drop-append, get_elem?, All, All-append,
  All-map, append_assoc, append-nil, Outcome, ok, die, undefined, spent, then_do, then_do-eq-ok,
}
use sanitizer_symbolizer_too.Clib.{byte_at, c_str, strcmp_eq, strstr}
use sanitizer_symbolizer_too.System.{
  Fd, Pid, Io, failed, done, Warning, cannot_read, cannot_write, failed_to_use, invalid_path,
  cannot_create_pipes, did_not_start, not_killed, blocked_itself, Target, x86_64h, x86_64, i386,
  loongarch64, riscv64, aarch64, arm, powerpc64_big, powerpc64_little, s390x, s390, other, Event,
  closes, sleeps, says, Os,
}
use sanitizer_symbolizer_too.System.Monad.{
  Sys, pure, ◌>>=◌, ◌>>◌, emit, say_sth, log_now, lift, check,
}
use sanitizer_symbolizer_too.Symbolizer.{
  Kind, llvm, addr2line, SymbolizerProcess, max_times_restarted, symbolizer_startup_time_millis,
  arg_v_max, new_process, is_same_module, output_terminator, reached_end_of_output, symbolizer_arch,
  get_arg_v,
}
use sanitizer_symbolizer_too.Files.{close_valid, read_from_file, write_to_file, file_exists}
use sanitizer_symbolizer_too.Child.{
  create_two_high_numbered_pipes, start_subprocess, kill_child_process, is_process_running,
}

module _ (os : Os) where
  unfoldable pub is_running : SymbolizerProcess → Sys Bool
  is_running p = elim p.active_pid [ none ↦ pure false | some pid ↦ is_process_running os pid ]

  -- The descriptors are closed, and keep their values.
  unfoldable pub kill : SymbolizerProcess → Sys (Bool × SymbolizerProcess)
  kill p = elim p.active_pid [
    | none ↦ pure (false, p)
    | some pid ↦ (do
      killed ← kill_child_process os pid
      if killed
          then (do
            close_valid p.input_fd
            close_valid p.output_fd
            pure (true, record p { active_pid = none }))
          else (do say_sth not_killed; pure (false, p)))
  ]

  abbrev pub bytes_read : Io Bytes → Bytes
  bytes_read (failed e) = []
  bytes_read (done bytes) = bytes

  -- The `do` loop, with fuel. The vector is grown to its capacity before each read.
  unfoldable pub read_rounds : ℕ → SymbolizerProcess → Sys SymbolizerProcess
  read_rounds zero p l = spent
  read_rounds (suc fuel) p l = elim p.input_fd [
    | none ↦ undefined
    | some fd ↦
        let size_before = length p.buffer in
        let room = os.capacity l (size_before + 1024) - size_before in
        then_do (read_from_file os true fd room l) λ (res, l').
          let just_read = bytes_read res in
          let p' = record p { buffer = p.buffer ++ just_read } in
          let more = read_rounds fuel p' l' in
          if length just_read == 0
          then ok (p', says cannot_read ∷ l')
          else if reached_end_of_output p.kind p'.buffer
          then ok (p', l')
          else more
  ]

  -- `SymbolizerProcess::ReadFromSymbolizer`. The `ret` of the loop's body hides the one that is
  -- returned, so the result is `true` also behind a failed read.
  unfoldable pub read_buffer : ℕ → SymbolizerProcess → Sys (Bool × SymbolizerProcess)
  read_buffer fuel p = do
    p' ← read_rounds fuel (record p { buffer = [] })
    pure (true, record p' { buffer = p'.buffer ++ 0 ∷ [] })

  -- What `Addr2LineProcess::ReadFromSymbolizer` does to the buffer: it is cut at the first
  -- terminator behind its first byte. Behind a lone NUL the search begins past the end.
  unfoldable pub cut_terminator : Bytes → Outcome Bytes
  cut_terminator [] = undefined
  cut_terminator (c ∷ []) = undefined
  cut_terminator (c ∷ d ∷ rest) = elim (strstr (c_str (d ∷ rest)) output_terminator) [
    | none ↦ die
    | some garbage ↦ ok (c ∷ (take garbage (d ∷ rest) ++ 0 ∷ []))
  ]

  abbrev pub finish_read : Kind → Bool × SymbolizerProcess → Sys (Bool × SymbolizerProcess)
  finish_read llvm (success, p) = pure (success, p)
  finish_read (addr2line module_name) (false, p) = pure (false, p)
  finish_read (addr2line module_name) (true, p) = do
    trimmed ← lift (cut_terminator p.buffer)
    pure (true, record p { buffer = trimmed })

  -- The virtual call.
  unfoldable pub read_from_symbolizer : ℕ → SymbolizerProcess → Sys (Bool × SymbolizerProcess)
  read_from_symbolizer fuel p = do res ← read_buffer fuel p; finish_read p.kind res

  abbrev pub wrote_all : Io ℕ → ℕ → Bool
  wrote_all (failed e) size = false
  wrote_all (done write_len) size = write_len == size

  unfoldable pub write_to_symbolizer : SymbolizerProcess → Bytes → Sys Bool
  write_to_symbolizer p [] = pure true
  write_to_symbolizer p (c ∷ s) = elim p.output_fd [
    | none ↦ lift undefined
    | some fd ↦ (do
      res ← write_to_file os fd (some (c ∷ s))
      if wrote_all res (length (c ∷ s)) then pure true else (do say_sth cannot_write; pure false))
  ]

  -- From the test of the descriptors on. The result points into the buffer: it is the string up to
  -- its first NUL.
  unfoldable pub send_on :
      Fd → Fd → ℕ → SymbolizerProcess → Bytes → Sys (Option Bytes × SymbolizerProcess)
  send_on none output_fd fuel p command = pure (none, p)
  send_on (some input) none fuel p command = pure (none, p)
  send_on (some input) (some output) fuel p command = do
    written ← write_to_symbolizer p command
    if not written then pure (none, p) else (do
      res ← read_from_symbolizer fuel p
      pure (if res.0 then some (c_str res.1.buffer) else none, res.1))

  unfoldable pub send_command_impl :
      ℕ → SymbolizerProcess → Bytes → Sys (Option Bytes × SymbolizerProcess)
  unfolding send_on
  send_command_impl fuel p command = send_on p.input_fd p.output_fd fuel p command

  -- The path is reported once.
  abbrev pub report_invalid_path : SymbolizerProcess → Sys (Bool × SymbolizerProcess)
  report_invalid_path p =
      if p.reported_invalid_path
      then pure (false, p)
      else (do say_sth invalid_path; pure (false, record p { reported_invalid_path = true }))

  -- From `CHECK_GT(pid, 0)` on.
  unfoldable pub watch_child : SymbolizerProcess → ℕ → Sys (Bool × SymbolizerProcess)
  watch_child p pid = do
    check (ltb 0 pid)
    emit (sleeps (symbolizer_startup_time_millis * 1000))
    running ← is_process_running os pid
    if running
        then pure (true, record p { active_pid = some pid })
        else (do say_sth did_not_start; pure (false, p))

  -- From `StartSubprocess` on, with the two pipes.
  unfoldable pub launch_with :
      SymbolizerProcess → List (Option Bytes) → (ℕ × ℕ) × (ℕ × ℕ) → Sys (Bool × SymbolizerProcess)
  launch_with p argv (infd, outfd) = do
    pid ← start_subprocess os p.path argv (some outfd.0) (some infd.1) none
    elim pid [
      | failed e ↦ (do emit (closes infd.0); emit (closes outfd.1); pure (false, p))
      | done n ↦ watch_child (record p { input_fd = some infd.0; output_fd = some outfd.1 }) n
    ]

  -- From the test of the pipes on.
  unfoldable pub launch_if :
      SymbolizerProcess
      → List (Option Bytes)
      → Option ((ℕ × ℕ) × (ℕ × ℕ))
      → Sys (Bool × SymbolizerProcess)
  launch_if p argv none = do say_sth cannot_create_pipes; pure (false, p)
  launch_if p argv (some fds) = launch_with p argv fds

  -- From `GetArgV` on; `use_posix_spawn` is not implemented.
  unfoldable pub launch : SymbolizerProcess → Sys (Bool × SymbolizerProcess)
  launch p = do
    check (leb (length (get_arg_v os.target p.kind p.path)) arg_v_max)
    check (not p.use_posix_spawn)
    made ← create_two_high_numbered_pipes os
    launch_if p (get_arg_v os.target p.kind p.path) made

  unfoldable pub start_symbolizer_subprocess : SymbolizerProcess → Sys (Bool × SymbolizerProcess)
  start_symbolizer_subprocess p = do
    exists ← file_exists os (some p.path)
    if exists then launch p else report_invalid_path p

  -- `if (IsRunning()) Kill();`
  unfoldable pub kill_if_running : SymbolizerProcess → Sys (Bool × SymbolizerProcess)
  kill_if_running p = do running ← is_running p; if running then kill p else pure (false, p)

  unfoldable pub restart : SymbolizerProcess → Sys (Bool × SymbolizerProcess)
  restart p = do
    res ← kill_if_running p
    close_valid res.1.input_fd
    close_valid res.1.output_fd
    start_symbolizer_subprocess res.1

  -- The `for` loop, with the rounds that `times_restarted` leaves.
  unfoldable pub attempts :
      ℕ → ℕ → SymbolizerProcess → Bytes → Sys (Option Bytes × SymbolizerProcess)
  attempts fuel zero p command =
      if p.failed_to_start
      then pure (none, p)
      else (do say_sth failed_to_use; pure (none, record p { failed_to_start = true }))
  attempts fuel (suc rounds) p command = do
    res ← send_command_impl fuel p command
    elim res.0 [
      | some reply ↦ pure (some reply, res.1)
      | none ↦ (do
        again ← restart res.1
        let p' = again.1
        attempts fuel rounds (record p' { times_restarted = p'.times_restarted + 1 }) command)
    ]

  unfoldable pub send_command :
      ℕ → SymbolizerProcess → Bytes → Sys (Option Bytes × SymbolizerProcess)
  send_command fuel p command =
      if p.failed_to_start
      then pure (none, p)
      else if is_same_module p.path
      then (do say_sth blocked_itself; pure (none, record p { failed_to_start = true }))
      else attempts fuel (max_times_restarted - p.times_restarted) p command
