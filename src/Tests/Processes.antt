-- ===== src/Tests/Processes.antt =====
-- Processes, under three systems that answer in one way each.
use sanitizer_symbolizer_too.Prelude.{
  ◌+◌, ◌≡◌, refl, true, false, none, some, [], ◌∷◌, arith, Bytes, codes, length, ok,
}
use sanitizer_symbolizer_too.System.{
  failed, done, still_running, reaped, regular, x86_64, closes, waits, stats, says, failed_to_use,
  invalid_path, Log, Os, Wait, kills,
}
use sanitizer_symbolizer_too.System.Post.{Post}
use sanitizer_symbolizer_too.Files.{close_valid, file_exists}
use sanitizer_symbolizer_too.Symbolizer.{llvm, SymbolizerProcess}
use sanitizer_symbolizer_too.Process
use sanitizer_symbolizer_too.System.{not_killed, kill_did_not_work, kills}
use sanitizer_symbolizer_too.Process.{
  is_running, kill_if_running, restart, start_symbolizer_subprocess, send_on, send_command_impl,
  attempts, send_command,
}
use sanitizer_symbolizer_too.Process.Restarts.{
  Lives, Budget, send_command-Budget, send_command_sticky,
}
use sanitizer_symbolizer_too.Child.{kill_child_process, is_process_running}
use sanitizer_symbolizer_too.Process.Spares.{SignalsReaped, Spares}
use sanitizer_symbolizer_too.Process.Signals.{send_command-Spares}
use sanitizer_symbolizer_too.Process.Replies.{
  kill_ended, restart_running, send_command_silent, silent_log,
}

-- Each pipe has new descriptors, every child runs, and it prints nothing.
abbrev pub silent_os : Os
silent_os = record {
  target = x86_64;
  read = λ l fd size. done [];
  write = λ l fd bytes. done (length bytes);
  pipe = λ l. done (10 + length l, 11 + length l);
  open_path = λ l path flags. failed 2;
  fork = λ l. done 100;
  waitpid = λ l pid no_hang. still_running;
  kill = λ l pid. done tt;
  stat = λ l path. some regular;
  access = λ l path. true;
  capacity = λ l size. size;
}

-- There is no file at all.
abbrev pub empty_os : Os
empty_os = record silent_os { stat = λ l path. none }

-- Every child has ended.
abbrev pub ended_os : Os
ended_os = record silent_os { waitpid = λ l pid no_hang. reaped 0 }

abbrev pub path : Bytes
path = codes "/bin/llvm-symbolizer"

-- What the constructor makes.
abbrev pub unstarted : SymbolizerProcess
unstarted = record {
  kind = llvm;
  active_pid = none;
  path = path;
  input_fd = none;
  output_fd = none;
  buffer = [];
  times_restarted = 0;
  failed_to_start = false;
  reported_invalid_path = false;
  use_posix_spawn = false;
}

abbrev pub started : SymbolizerProcess
started = record unstarted { active_pid = some 100; input_fd = some 10; output_fd = some 13 }

abbrev pub command : Bytes
command = codes "CODE \"a.out\" 0x40\n"

pub unstarted-Lives : Lives unstarted
unstarted-Lives = record { within_limit = omega arith; used_up = λ f. cc }

abbrev pub given_up : SymbolizerProcess
given_up = record unstarted {
  times_restarted = 5;
  failed_to_start = true;
  reported_invalid_path = true;
}

abbrev pub five_starts : Log
five_starts =
    says failed_to_use
    ∷ stats path
    ∷ stats path
    ∷ stats path
    ∷ stats path
    ∷ says invalid_path
    ∷ stats path
    ∷ []

-- With no symbolizer at the path, the file is looked for five times and reported once.
send_command-no_file :
    send_command empty_os 4 unstarted command [] ≡ ok ((none, given_up), five_starts)
unfolding send_command attempts send_command_impl send_on restart kill_if_running is_running
    start_symbolizer_subprocess file_exists close_valid
send_command-no_file = refl

send_command-Budget_example :
    Post (Budget unstarted []) (send_command silent_os 4 unstarted command [])
send_command-Budget_example = send_command-Budget silent_os 4 command unstarted [] unstarted-Lives

send_command_sticky_example :
    send_command empty_os 4 given_up (codes "DATA \"a\" 0x1\n") five_starts
    ≡ ok ((none, given_up), five_starts)
send_command_sticky_example =
    send_command_sticky empty_os 4 unstarted given_up command [] five_starts unstarted-Lives
      send_command-no_file 4 (codes "DATA \"a\" 0x1\n") five_starts

-- Commands are refused, and a child that still runs has ended when it is looked at again.
abbrev ends_late : Log → Wait
ends_late (waits pid no_hang ∷ l) = reaped 0
ends_late _ = still_running

abbrev refusing_os : Os
refusing_os = record silent_os {
  write = λ l fd bytes. failed 32;
  waitpid = λ l pid no_hang. ends_late l;
}

-- A signal is sent here.
kill_if_running-late :
    kill_if_running refusing_os started []
    ≡ ok (
      (true, record started { active_pid = none }),
      closes 13 ∷ closes 10 ∷ waits 100 false ∷ kills 100 ∷ waits 100 true ∷ waits 100 true ∷ [],
    )
unfolding kill_if_running is_running is_process_running Process.kill kill_child_process close_valid
kill_if_running-late = refl

send_command-Spares_example :
    Post (Spares refusing_os) (send_command refusing_os 4 started command [])
unfolding SignalsReaped
send_command-Spares_example = send_command-Spares refusing_os 4 started command [] tt

restart_running_example :
    restart silent_os started []
    ≡ start_symbolizer_subprocess silent_os
        (record started { active_pid = none })
        (closes 13 ∷ closes 10 ∷ closes 13 ∷ closes 10 ∷ waits 100 true ∷ waits 100 true ∷ [])
restart_running_example = restart_running silent_os started [] refl refl refl refl refl

send_command_silent_example :
    send_command silent_os 4 started command []
    ≡ ok ((some [], record started { buffer = 0 ∷ [] }), silent_log 10 13 command [])
send_command_silent_example =
    send_command_silent silent_os 3 started b'C' (codes "ODE \"a.out\" 0x40\n") [] refl refl refl
      refl refl refl (omega arith)

-- The child has ended, and is gone behind the wait.
abbrev gone_os : Os
gone_os = record ended_os { kill = λ l pid. failed 3 }

kill_ended_example :
    Process.kill gone_os started []
    ≡ ok (
      (false, started),
      says not_killed ∷ says kill_did_not_work ∷ kills 100 ∷ waits 100 true ∷ [],
    )
kill_ended_example = kill_ended gone_os started [] refl refl refl
