-- ===== src/Process/Replies.antt =====
-- Single commands and restarts, on the paths that depend on the answers of the system.
use sanitizer_symbolizer_too.Prelude.{
  ℕ, suc, ◌+◌, ◌-◌, ◌<◌, ◌≡◌, refl, ap, ◌∙◌, true, false, none, some, [], ◌∷◌, arith, Bytes,
  ==-refl, length, ok,
}
use sanitizer_symbolizer_too.Clib.{c_str}
use sanitizer_symbolizer_too.System.{
  Fd, still_running, reaped, failed, done, reads_from, writes_to, closes, waits, kills, says,
  not_killed, kill_did_not_work, cannot_read, Log, Os,
}
use sanitizer_symbolizer_too.Files.{close_valid, read_from_file, write_to_file}
use sanitizer_symbolizer_too.Child.{kill_child_process, is_process_running}
use sanitizer_symbolizer_too.Symbolizer.{llvm, SymbolizerProcess, max_times_restarted}
use sanitizer_symbolizer_too.Process.{
  is_running, kill, kill_if_running, bytes_read, read_rounds, read_buffer, read_from_symbolizer,
  write_to_symbolizer, send_command_impl, send_on, start_symbolizer_subprocess, restart, attempts,
  send_command,
}

module _ (os : Os) (p : SymbolizerProcess) (l : Log) {pid input output : ℕ}
    (active : p.active_pid ≡ some pid) (reading : p.input_fd ≡ some input)
    (writing : p.output_fd ≡ some output) where
  -- Where the child of an active process still runs at both waits, Restart sends it no signal
  -- and closes the two descriptors twice each before it starts the next child.
  pub restart_running :
      os.waitpid l pid true ≡ still_running
      → os.waitpid (waits pid true ∷ l) pid true ≡ still_running
      → restart os p l
        ≡ start_symbolizer_subprocess os
            (record p { active_pid = none })
            (closes output
              ∷ closes input
              ∷ closes output
              ∷ closes input
              ∷ waits pid true
              ∷ waits pid true
              ∷ l)
  unfolding restart kill_if_running is_running is_process_running kill kill_child_process
      close_valid
  restart_running first second = rw (active, restart, first, second, reading, writing) refl

-- Kill of an active process whose child has ended, so that the first wait reaps it, and where
-- the signal then fails, as it does for a pid that is gone, returns false, reports two
-- warnings, closes neither descriptor, and leaves the process with its pid as it was.
pub kill_ended :
    (os : Os) (p : SymbolizerProcess) (l : Log) {pid status error : ℕ}
    → p.active_pid ≡ some pid
    → os.waitpid l pid true ≡ reaped status
    → os.kill (waits pid true ∷ l) pid ≡ failed error
    → kill os p l
      ≡ ok ((false, p), says not_killed ∷ says kill_did_not_work ∷ kills pid ∷ waits pid true ∷ l)
unfolding kill kill_child_process
kill_ended os p l {pid} active ended refused =
    rw (active, kill, ended, refused)
      (ap
        (λ x. ok (
          (false, record p { active_pid = x }),
          says not_killed ∷ says kill_did_not_work ∷ kills pid ∷ waits pid true ∷ l,
        ))
        active)

-- The log behind a command that is written and a read that gives nothing.
abbrev pub silent_log : ℕ → ℕ → Bytes → Log → Log
silent_log input output command l =
    says cannot_read ∷ reads_from input ∷ writes_to output command ∷ l

-- The read behind the command gives no byte: the child closed its output, or the call failed.
abbrev pub IsSilent : Os → ℕ → Log → Type 0
IsSilent os input l = bytes_read os (os.read l input (os.capacity l (0 + 1024) - 0)) ≡ []

-- With both descriptors there, the command is written, and then the reply is read.
pub send_on_open :
    (os : Os) (fuel : ℕ) (p : SymbolizerProcess) (command : Bytes) {input output : ℕ} (a b : Fd)
    → a ≡ some input
    → b ≡ some output
    → send_on os a b fuel p command ≡ send_on os (some input) (some output) fuel p command
send_on_open os fuel p command a b ea eb = λ i. send_on os (ea i) (eb i) fuel p command

module _ (os : Os) (fuel : ℕ) (p : SymbolizerProcess) (c : ℕ) (s : Bytes) (l : Log)
    {input output : ℕ} (reading : p.input_fd ≡ some input) (writing : p.output_fd ≡ some output)
    (kind : p.kind ≡ llvm) (written : os.write l output (c ∷ s) ≡ done (length (c ∷ s)))
    (silent : IsSilent os input (writes_to output (c ∷ s) ∷ l)) where
  silent_write : write_to_symbolizer os p (c ∷ s) l ≡ ok (true, writes_to output (c ∷ s) ∷ l)
  unfolding write_to_symbolizer write_to_file
  silent_write = rw (writing, write_to_symbolizer, written, ==-refl (length (c ∷ s))) refl

  silent_read :
      (l' : Log)
      → IsSilent os input l'
      → read_from_symbolizer os (suc fuel) p l'
        ≡ ok ((true, record p { buffer = 0 ∷ [] }), says cannot_read ∷ reads_from input ∷ l')
  unfolding read_from_symbolizer read_buffer read_rounds read_from_file
  silent_read l' e = simp (reading, kind, e)

  silent_impl :
      send_command_impl os (suc fuel) p (c ∷ s) l
      ≡ ok ((some [], record p { buffer = 0 ∷ [] }), silent_log input output (c ∷ s) l)
  unfolding send_command_impl send_on c_str
  silent_impl =
      (λ i. send_on_open os (suc fuel) p (c ∷ s) p.input_fd p.output_fd reading writing i l)
      ∙ rw (silent_write, silent_read _ silent) refl

  -- With llvm-symbolizer, both descriptors open, a process that is not marked as failed and has
  -- restarts left: a command that is written in full and a read that then gives nothing make
  -- SendCommand return an empty reply, with the process changed in its buffer only and a warning
  -- as the only report; nothing is counted and no child is started.
  pub send_command_silent :
      p.failed_to_start ≡ false
      → p.times_restarted < max_times_restarted
      → send_command os (suc fuel) p (c ∷ s) l
        ≡ ok ((some [], record p { buffer = 0 ∷ [] }), silent_log input output (c ∷ s) l)
  unfolding send_command attempts
  send_command_silent alive rounds =
      let left : max_times_restarted - p.times_restarted
          ≡ suc (max_times_restarted - p.times_restarted - 1) =
        omega arith in
      simp (alive, left, silent_impl)
