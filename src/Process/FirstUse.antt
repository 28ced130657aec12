-- ===== src/Process/FirstUse.antt =====
-- The first command of a process, with the start of its child.
use sanitizer_symbolizer_too.Prelude.{
  ℕ, ◌*◌, ◌<◌, ◌≡◌, ◌≢◌, refl, sym, ap, subst, true, false, Option, none, some, [], ◌∷◌, Bytes, ltb,
  leb, if◌then◌else◌, length, ok,
}
use sanitizer_symbolizer_too.Clib.{c_str}
use sanitizer_symbolizer_too.System.{
  done, still_running, regular, stats, pipes, forks, closes, sleeps, waits, writes_to, Log, Os,
}
use sanitizer_symbolizer_too.Files.{close_valid, file_exists}
use sanitizer_symbolizer_too.Child.{
  SockPair, both_high, close_pairs, pipe_rounds, create_two_high_numbered_pipes, start_subprocess,
  is_process_running,
}
use sanitizer_symbolizer_too.Symbolizer.{
  Kind, llvm, addr2line, SymbolizerProcess, symbolizer_startup_time_millis, arg_v_max, get_arg_v,
  new_process,
}
use sanitizer_symbolizer_too.Process.{
  is_running, kill_if_running, read_from_symbolizer, send_on, send_command_impl, watch_child,
  launch_with, launch_if, launch, start_symbolizer_subprocess, restart, attempts, send_command,
}
use sanitizer_symbolizer_too.Process.Delivery.{attempts-answered}

-- A process as its constructor makes it.
abbrev pub unused : Kind → Bytes → SymbolizerProcess
unused kind path = record {
  kind = kind;
  active_pid = none;
  path = path;
  input_fd = none;
  output_fd = none;
  buffer = [];
  times_restarted = 0;
  failed_to_start = false;
  reported_invalid_path = false;
  use_posix_spawn = false;
}

pub new_process-unused :
    (kind : Kind) (path : Bytes)
    → path ≢ []
    → new_process kind (some path) false ≡ ok (unused kind path)
unfolding new_process
new_process-unused kind [] ne = absurd (ne refl)
new_process-unused kind (c ∷ path) ne = refl

-- What the system answers when a child starts well: the pipes, the pid, and the logs behind the
-- calls.
pub record Spawn : Type 0 where
  pub reply_end : ℕ
  pub reply_child_end : ℕ
  pub command_child_end : ℕ
  pub command_end : ℕ
  pub pid : ℕ

module _ (os : Os) (kind : Kind) (path : Bytes) (l : Log) (s : Spawn) where
  abbrev pub log_piped : Log
  log_piped =
      pipes s.command_child_end s.command_end ∷ pipes s.reply_end s.reply_child_end ∷ stats path ∷ l

  abbrev pub log_started : Log
  log_started =
      sleeps (symbolizer_startup_time_millis * 1000)
      ∷ closes s.reply_child_end
      ∷ closes s.command_child_end
      ∷ forks path (get_arg_v os.target kind path)
      ∷ log_piped

  -- Behind the look at the child, and behind the command.
  abbrev pub log_running : Log
  log_running = waits s.pid true ∷ log_started

  abbrev pub log_asked : Bytes → Log
  log_asked command = writes_to s.command_end command ∷ log_running

  -- The file is there, both pipes are high, and the child runs when it is looked at.
  pub record StartsWell : Type 0 where
    pub file : os.stat l path ≡ some regular
    pub first : os.pipe (stats path ∷ l) ≡ done (s.reply_end, s.reply_child_end)
    pub first_high : both_high s.reply_end s.reply_child_end ≡ true
    pub second :
        os.pipe (pipes s.reply_end s.reply_child_end ∷ stats path ∷ l)
        ≡ done (s.command_child_end, s.command_end)
    pub second_high : both_high s.command_child_end s.command_end ≡ true
    pub forked : os.fork log_piped ≡ done s.pid
    pub positive : ltb 0 s.pid ≡ true
    pub runs : os.waitpid log_started s.pid true ≡ still_running

-- The process with its child.
abbrev pub with_child : SymbolizerProcess → Spawn → SymbolizerProcess
with_child p s = record p {
  active_pid = some s.pid;
  input_fd = some s.reply_end;
  output_fd = some s.command_end;
}

few_arguments :
    (os : Os) (kind : Kind) (path : Bytes)
    → leb (length (get_arg_v os.target kind path)) arg_v_max ≡ true
unfolding get_arg_v
few_arguments os llvm path = refl
few_arguments os (addr2line name) path = refl

-- Behind a pipe that is kept, a second high one ends the loop, and nothing is closed.
second_pipe :
    (os : Os) (pair : SockPair) (infd : Option (ℕ × ℕ)) (first : ℕ × ℕ) (l : Log) {a b : ℕ}
    → pair.kept ≡ true
    → infd ≡ some first
    → os.pipe l ≡ done (a, b)
    → both_high a b ≡ true
    → pipe_rounds os 4 (pair ∷ []) infd l ≡ ok (some (first, (a, b)), pipes a b ∷ l)
unfolding pipe_rounds close_pairs
second_pipe os pair none first l kept e made high = cc
second_pipe os pair (some f) first l {a} {b} kept e made high =
    let same : f ≡ first = cc in
    rw (made, pipe_rounds, high, kept) (ap (λ x. ok (some (x, (a, b)), pipes a b ∷ l)) same)

module _ (os : Os) (p : SymbolizerProcess) (l : Log) (s : Spawn) (plain : p.use_posix_spawn ≡ false)
    (well : StartsWell os p.kind p.path l s) where
  piped :
      create_two_high_numbered_pipes os (stats p.path ∷ l)
      ≡ ok (
        some ((s.reply_end, s.reply_child_end), (s.command_child_end, s.command_end)),
        log_piped os p.kind p.path l s,
      )
  unfolding create_two_high_numbered_pipes pipe_rounds close_pairs
  piped =
      let pair : SockPair = record {
        reading = s.reply_end;
        writing = s.reply_child_end;
        kept = both_high s.reply_end s.reply_child_end;
      } in
      rw (well.first, pipe_rounds)
        (second_pipe os pair
          (if both_high s.reply_end s.reply_child_end
            then some (s.reply_end, s.reply_child_end)
            else none)
          (s.reply_end, s.reply_child_end) (pipes s.reply_end s.reply_child_end ∷ stats p.path ∷ l)
          well.first_high
          (ap (λ high. if high then some (s.reply_end, s.reply_child_end) else none)
            well.first_high)
          well.second well.second_high)

  launched :
      launch_with os
        (record p { use_posix_spawn = false })
        (get_arg_v os.target p.kind p.path)
        ((s.reply_end, s.reply_child_end), (s.command_child_end, s.command_end))
        (log_piped os p.kind p.path l s)
      ≡ ok (
        (true, with_child (record p { use_posix_spawn = false }) s),
        log_running os p.kind p.path l s,
      )
  unfolding launch_with start_subprocess close_valid watch_child is_process_running
  launched = rw (well.forked, launch_with, well.positive, well.runs) refl

  plainly :
      start_symbolizer_subprocess os (record p { use_posix_spawn = false }) l
      ≡ ok (
        (true, with_child (record p { use_posix_spawn = false }) s),
        log_running os p.kind p.path l s,
      )
  unfolding start_symbolizer_subprocess file_exists launch launch_if
  plainly = rw (well.file, few_arguments os p.kind p.path, piped, launched) refl

  pub start_symbolizer_subprocess-StartsWell :
      start_symbolizer_subprocess os p l
      ≡ ok ((true, with_child p s), log_running os p.kind p.path l s)
  start_symbolizer_subprocess-StartsWell =
      subst
        (λ q.
          start_symbolizer_subprocess os q l
          ≡ ok ((true, with_child q s), log_running os p.kind p.path l s))
        (sym (λ i. record p { use_posix_spawn = plain i })) plainly

-- The process behind its first restart.
abbrev pub restarted_once : Kind → Bytes → Spawn → SymbolizerProcess
restarted_once kind path s = record (with_child (unused kind path) s) { times_restarted = 1 }

module _ (os : Os) (fuel : ℕ) (kind : Kind) (path : Bytes) (l : Log) (s : Spawn)
    (well : StartsWell os kind path l s) (command : Bytes) (some_text : 0 < length command) where
  not_asked :
      send_command_impl os fuel (unused kind path) command l ≡ ok ((none, unused kind path), l)
  unfolding send_command_impl send_on
  not_asked = refl

  started :
      restart os (unused kind path) l
      ≡ ok ((true, with_child (unused kind path) s), log_running os kind path l s)
  unfolding restart kill_if_running is_running close_valid
  started = rw (start_symbolizer_subprocess-StartsWell os (unused kind path) l s refl well) refl

  -- The first command of a process of either kind, as its constructor makes it, where the file
  -- is there, two high pipes are made, the fork gives a positive pid and the child runs when it
  -- is looked at: if the child then takes the command, which is not empty, in full and its reply
  -- is read, SendCommand returns that reply, from a process that holds the ends of the two pipes
  -- and the pid and counts one restart.
  pub send_command-StartsWell :
      {q : SymbolizerProcess} {l' : Log}
      → os.write (log_running os kind path l s) s.command_end command ≡ done (length command)
      → read_from_symbolizer os fuel
          (restarted_once kind path s)
          (log_asked os kind path l s command)
        ≡ ok ((true, q), l')
      → send_command os fuel (unused kind path) command l ≡ ok ((some (c_str q.buffer), q), l')
  unfolding send_command attempts
  send_command-StartsWell {q} {l'} written read =
      let later =
        attempts-answered os fuel (restarted_once kind path s) command
          (log_running os kind path l s) refl refl some_text written read 3 in
      rw (attempts, not_asked, started) later
