-- ===== src/Process/Signals.antt =====
-- Whom a process signals: what `Kill`, `Restart` and `SendCommand` may kill.
use sanitizer_symbolizer_too.Prelude.{
  ℕ, zero, suc, ◌+◌, ◌-◌, ◌≡◌, refl, Bool, true, false, ◌⊎◌, inl, inr, none, some, [], ◌∷◌, arith,
  Bytes, Bool-cases, Option-cases,
}
use sanitizer_symbolizer_too.System.{
  Io-cases, Wait, wait_failed, still_running, reaped, Fd, waits, Log, Os,
}
use sanitizer_symbolizer_too.System.Post.{Post, post, Post-bind, Post-lift}
use sanitizer_symbolizer_too.Child.{kill_child_process, is_process_running}
use sanitizer_symbolizer_too.Symbolizer.{
  Kind, llvm, addr2line, SymbolizerProcess, max_times_restarted,
}
use sanitizer_symbolizer_too.Process.{
  is_running, kill, read_buffer, finish_read, cut_terminator, read_from_symbolizer, send_on,
  send_command_impl, attempts, send_command, restart, kill_if_running,
}
use sanitizer_symbolizer_too.Process.Spares.{
  SignalsReaped, Spares, close_valid-Spares, write_to_symbolizer-Spares, read_rounds-Spares,
  start_symbolizer_subprocess-Spares,
}

module _ (os : Os) where
  kill_child_process-Spares :
      (pid : ℕ) (l : Log) → SignalsReaped os l → Post (Spares os) (kill_child_process os pid l)
  unfolding kill_child_process SignalsReaped
  kill_child_process-Spares pid l h = go (os.waitpid l pid true) refl
    where
      go :
          (answer : Wait)
          → os.waitpid l pid true ≡ answer
          → Post (Spares os) (kill_child_process os pid l)
      go still_running e = rw (e, kill_child_process) (post h)
      go (wait_failed n) e = rw (e, kill_child_process) (ground arith)
      go (reaped code) e = elim (Io-cases (os.kill (waits pid true ∷ l) pid)) [
        | inl (n, failure) ↦ rw (e, kill_child_process, failure) (post ((refl, code, e), h))
        | inr (u, sent) ↦ rw (e, kill_child_process, sent) (post ((refl, code, e), h))
      ]

  is_running-Spares :
      (p : SymbolizerProcess) (l : Log) → SignalsReaped os l → Post (Spares os) (is_running os p l)
  unfolding is_running is_process_running SignalsReaped
  is_running-Spares p l h = ground arith

  kill-Spares :
      (p : SymbolizerProcess) (l : Log) → SignalsReaped os l → Post (Spares os) (kill os p l)
  unfolding kill SignalsReaped
  kill-Spares p l h = elim (Option-cases p.active_pid) [
    | inl none_active ↦ rw (none_active, kill) (post h)
    | inr (pid, active) ↦
        rw (active, kill)
          (Post-bind (kill_child_process-Spares pid l h) λ killed l1 h1. elim (Bool-cases killed) [
            | inl gone ↦ rw gone (
                Post-bind (close_valid-Spares os p.input_fd l1 h1) λ u l2 h2.
                  Post-bind (close_valid-Spares os p.output_fd l2 h2) λ u' l3 h3. post h3)
            | inr kept ↦ rw kept (post h1)
          ])
  ]

  finish_read-Spares :
      (kind : Kind) (success : Bool) (q : SymbolizerProcess) (l : Log)
      → SignalsReaped os l
      → Post (Spares os) (finish_read os kind (success, q) l)
  finish_read-Spares llvm success q l h = post h
  finish_read-Spares (addr2line name) false q l h = post h
  finish_read-Spares (addr2line name) true q l h =
      Post-lift (Spares os) (cut_terminator os q.buffer) _ l λ trimmed. post h

  read_from_symbolizer-Spares :
      (fuel : ℕ) (p : SymbolizerProcess) (l : Log)
      → SignalsReaped os l
      → Post (Spares os) (read_from_symbolizer os fuel p l)
  unfolding read_from_symbolizer read_buffer
  read_from_symbolizer-Spares fuel p l h =
      Post-bind
        (Post-bind {P = Spares os} (read_rounds-Spares os fuel (record p { buffer = [] }) l h)
          λ q l1 h1. post h1)
        λ (success, q) l1 h1. finish_read-Spares p.kind success q l1 h1

  restart-Spares :
      (p : SymbolizerProcess) (l : Log) → SignalsReaped os l → Post (Spares os) (restart os p l)
  unfolding restart kill_if_running
  restart-Spares p l h =
      Post-bind
        (Post-bind {P = Spares os} (is_running-Spares p l h) λ running l1 h1.
          elim (Bool-cases running) [
            | inl alive ↦ rw alive (kill-Spares p l1 h1)
            | inr ended ↦ rw ended (post h1)
          ])
        λ (a, q) l1 h1. Post-bind (close_valid-Spares os q.input_fd l1 h1) λ u l2 h2.
          Post-bind (close_valid-Spares os q.output_fd l2 h2)
            λ u' l3 h3. start_symbolizer_subprocess-Spares os q l3 h3

  send_on-Spares :
      (input_fd output_fd : Fd) (fuel : ℕ) (p : SymbolizerProcess) (command : Bytes) (l : Log)
      → SignalsReaped os l
      → Post (Spares os) (send_on os input_fd output_fd fuel p command l)
  unfolding send_on
  send_on-Spares none output_fd fuel p command l h = post h
  send_on-Spares (some input) none fuel p command l h = post h
  send_on-Spares (some input) (some output) fuel p command l h =
      Post-bind (write_to_symbolizer-Spares os p command l h) λ written l1 h1.
        elim (Bool-cases written) [
          | inl e ↦ rw e (Post-bind (read_from_symbolizer-Spares fuel p l1 h1) λ r l2 h2. post h2)
          | inr e ↦ rw e (post h1)
        ]

  attempts-Spares :
      (fuel rounds : ℕ) (p : SymbolizerProcess) (command : Bytes) (l : Log)
      → SignalsReaped os l
      → Post (Spares os) (attempts os fuel rounds p command l)
  unfolding attempts send_command_impl SignalsReaped
  attempts-Spares fuel zero p command l h = elim (Bool-cases p.failed_to_start) [
    | inl e ↦ rw e (post h)
    | inr e ↦ rw e (post h)
  ]
  attempts-Spares fuel (suc rounds) p command l h =
      Post-bind (send_on-Spares p.input_fd p.output_fd fuel p command l h) λ (reply, q) l1 h1.
        elim (Option-cases reply) [
          | inr (text, er) ↦ rw er (post h1)
          | inl er ↦ rw er (
              Post-bind (restart-Spares q l1 h1) λ (b, r) l2 h2.
                attempts-Spares fuel rounds (record r { times_restarted = r.times_restarted + 1 })
                  command l2 h2)
        ]

  -- For every system and every command on any process: if each signal in the log went to a child
  -- that the wait just before it had reaped, the same holds behind SendCommand, with all its
  -- restarts, where it returns. A signal that is sent is then never for a child that the wait
  -- before it found running.
  pub send_command-Spares :
      (fuel : ℕ) (p : SymbolizerProcess) (command : Bytes) (l : Log)
      → SignalsReaped os l
      → Post (Spares os) (send_command os fuel p command l)
  unfolding send_command SignalsReaped
  send_command-Spares fuel p command l h = split (Bool-cases p.failed_to_start)
    where
      split :
          (p.failed_to_start ≡ true) ⊎ (p.failed_to_start ≡ false)
          → Post (Spares os) (send_command os fuel p command l)
      split (inl e) = simp e (post h)
      split (inr e) =
          simp e (attempts-Spares fuel (max_times_restarted - p.times_restarted) p command l h)
