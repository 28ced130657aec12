-- ===== src/Process/Recovers.antt =====
-- A command on a process whose child is gone.
use sanitizer_symbolizer_too.Prelude.{
  ℕ, suc, ◌+◌, ◌-◌, ◌<◌, ◌≡◌, refl, sym, ap, subst, ◌∙◌, true, false, none, some, [], ◌∷◌, arith,
  Bytes, length, ok,
}
use sanitizer_symbolizer_too.System.{
  Fd, done, reaped, says, cannot_write, closes, waits, writes_to, Log, Os,
}
use sanitizer_symbolizer_too.Clib.{c_str}
use sanitizer_symbolizer_too.Files.{close_valid, write_to_file}
use sanitizer_symbolizer_too.Child.{is_process_running}
use sanitizer_symbolizer_too.Symbolizer.{SymbolizerProcess, max_times_restarted}
use sanitizer_symbolizer_too.Process.{
  is_running, kill_if_running, read_from_symbolizer, wrote_all, write_to_symbolizer, send_on,
  send_command_impl, restart, attempts, send_command,
}
use sanitizer_symbolizer_too.Process.Replies.{send_on_open}
use sanitizer_symbolizer_too.Process.Delivery.{attempts-answered}
use sanitizer_symbolizer_too.Process.FirstUse.{
  Spawn, StartsWell, log_running, log_asked, with_child, start_symbolizer_subprocess-StartsWell,
}

-- The log behind the command that could not be written, and behind the look at the child and the
-- two descriptors that are closed.
abbrev pub log_refused : Bytes → ℕ → Log → Log
log_refused command output l = says cannot_write ∷ writes_to output command ∷ l

abbrev pub log_closed : Bytes → ℕ → ℕ → ℕ → Log → Log
log_closed command pid input output l =
    closes output ∷ closes input ∷ waits pid true ∷ log_refused command output l

-- A process whose child has ended: the write of the command fails or is short, and the child is
-- reaped when it is looked at.
pub record IsBroken (os : Os) (p : SymbolizerProcess) (command : Bytes) (l : Log)
    (input output pid code : ℕ) : Type 0 where
  pub reading : p.input_fd ≡ some input
  pub writing : p.output_fd ≡ some output
  pub has_child : p.active_pid ≡ some pid
  pub plain : p.use_posix_spawn ≡ false
  pub alive : p.failed_to_start ≡ false
  pub rounds : p.times_restarted + 1 < max_times_restarted
  pub refused : wrote_all os (os.write l output command) (length command) ≡ false
  pub gone : os.waitpid (log_refused command output l) pid true ≡ reaped code

-- The process with its new child.
abbrev pub replaced : SymbolizerProcess → Spawn → SymbolizerProcess
replaced p s = record (with_child p s) { times_restarted = p.times_restarted + 1 }

closed : (fd : Fd) {n : ℕ} {l : Log} → fd ≡ some n → close_valid fd l ≡ ok (tt, closes n ∷ l)
unfolding close_valid
closed none e = cc
closed (some m) {n} {l} e = (let same : m ≡ n = cc in ap (λ k. ok (tt, closes k ∷ l)) same)

module _ (os : Os) (fuel : ℕ) (p : SymbolizerProcess) (command : Bytes) (l : Log)
    {input output pid code : ℕ} (broken : IsBroken os p command l input output pid code)
    (some_text : 0 < length command) where
  refuses : write_to_symbolizer os p command l ≡ ok (false, log_refused command output l)
  refuses = go command broken.refused some_text
    where
      go :
          (text : Bytes)
          → wrote_all os (os.write l output text) (length text) ≡ false
          → 0 < length text
          → write_to_symbolizer os p text l ≡ ok (false, log_refused text output l)
      go [] w h = absurd (omega arith)
      go (c ∷ s) w h =
          unfold write_to_symbolizer write_to_file in
          rw (broken.writing, write_to_symbolizer, w) refl

  not_asked : send_command_impl os fuel p command l ≡ ok ((none, p), log_refused command output l)
  unfolding send_command_impl send_on
  not_asked =
      (λ i. send_on_open os fuel p command p.input_fd p.output_fd broken.reading broken.writing i l)
      ∙ rw refuses refl

  found_gone :
      is_running os p (log_refused command output l)
      ≡ ok (false, waits pid true ∷ log_refused command output l)
  unfolding is_running is_process_running
  found_gone = rw (broken.has_child, broken.gone) refl

  not_killed_again :
      kill_if_running os p (log_refused command output l)
      ≡ ok ((false, p), waits pid true ∷ log_refused command output l)
  unfolding kill_if_running
  not_killed_again = rw found_gone refl

  restart-replaced :
      (s : Spawn)
      → StartsWell os p.kind p.path (log_closed command pid input output l) s
      → restart os p (log_refused command output l)
        ≡ ok (
          (true, with_child p s),
          log_running os p.kind p.path (log_closed command pid input output l) s,
        )
  unfolding restart
  restart-replaced s well =
      rw
        (
          not_killed_again,
          closed p.input_fd broken.reading,
          closed p.output_fd broken.writing,
          start_symbolizer_subprocess-StartsWell os p (log_closed command pid input output l) s
              broken.plain well,
        )
        refl

  second_try :
      (s : Spawn) {q : SymbolizerProcess} {l' : Log}
      → StartsWell os p.kind p.path (log_closed command pid input output l) s
      → os.write
          (log_running os p.kind p.path (log_closed command pid input output l) s)
          s.command_end
          command
        ≡ done (length command)
      → read_from_symbolizer os fuel
          (replaced p s)
          (log_asked os p.kind p.path (log_closed command pid input output l) s command)
        ≡ ok ((true, q), l')
      → (rounds : ℕ)
      → attempts os fuel (suc (suc rounds)) p command l ≡ ok ((some (c_str q.buffer), q), l')
  unfolding attempts
  second_try s well written read rounds =
      let later =
        attempts-answered os fuel (replaced p s) command
          (log_running os p.kind p.path (log_closed command pid input output l) s) refl refl
          some_text written read rounds in
      rw (attempts, not_asked, restart-replaced s well) later

  -- A process of either kind whose child has ended, so that the write of a command, which is not
  -- empty, fails or is short and the child is reaped when it is looked at, with both
  -- descriptors, without posix_spawn, not marked as failed and with at least two restarts left:
  -- SendCommand closes the two descriptors once each, starts a new child at the same path and
  -- asks it again. If that start goes well, and the new child takes the command in full and its
  -- reply is read, SendCommand returns that reply, from a process with the new pid and
  -- descriptors that counts one more restart.
  pub send_command-replaced :
      (s : Spawn) {q : SymbolizerProcess} {l' : Log}
      → StartsWell os p.kind p.path (log_closed command pid input output l) s
      → os.write
          (log_running os p.kind p.path (log_closed command pid input output l) s)
          s.command_end
          command
        ≡ done (length command)
      → read_from_symbolizer os fuel
          (replaced p s)
          (log_asked os p.kind p.path (log_closed command pid input output l) s command)
        ≡ ok ((true, q), l')
      → send_command os fuel p command l ≡ ok ((some (c_str q.buffer), q), l')
  unfolding send_command
  send_command-replaced s {q} {l'} well written read =
      let left : max_times_restarted - p.times_restarted
          ≡ suc (suc (max_times_restarted - p.times_restarted - 2)) =
        omega (arith, broken.rounds) in
      let reply = second_try s well written read (max_times_restarted - p.times_restarted - 2) in
      simp broken.alive (
        subst (λ n. attempts os fuel n p command l ≡ ok ((some (c_str q.buffer), q), l')) (sym left)
          reply)
