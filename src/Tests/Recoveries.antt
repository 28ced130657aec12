-- ===== src/Tests/Recoveries.antt =====
-- A child that is gone, and replies that are cut anywhere.
use sanitizer_symbolizer_too.Prelude.{
  ℕ, ◌≡◌, refl, true, some, [], ◌∷◌, ◌++◌, arith, codes, length, ok,
}
use sanitizer_symbolizer_too.Clib.{byte_at, c_str}
use sanitizer_symbolizer_too.Output.Frames.{print_frames}
use sanitizer_symbolizer_too.System.{
  failed, done, still_running, reaped, says, cannot_write, Log, Wait, Io, Os,
}
use sanitizer_symbolizer_too.Files.{read_from_file}
use sanitizer_symbolizer_too.Symbolizer.{llvm, reached_end_of_output, get_arg_v, symbolizer_arch}
use sanitizer_symbolizer_too.Process
use sanitizer_symbolizer_too.Process.{
  read_from_symbolizer, read_buffer, read_rounds, finish_read, cut_terminator,
}
use sanitizer_symbolizer_too.Process.Delivery.{joined, reads_log}
use sanitizer_symbolizer_too.Process.FirstUse.{Spawn, StartsWell, log_asked}
use sanitizer_symbolizer_too.Process.Pieces.{EndsAtEnd}
use sanitizer_symbolizer_too.Process.Recovers.{
  IsBroken, log_closed, replaced, send_command-replaced,
}
use sanitizer_symbolizer_too.Llvm.Pieces.{print_frames-EndsAtEnd}
use sanitizer_symbolizer_too.Tests.Processes.{path, started, command}
use sanitizer_symbolizer_too.Tests.Requests.{talking_os, pieces, answered, answered-Fits}

-- The first write fails with EPIPE, and the child is then found to have ended.
abbrev first_write : Log → ℕ → Io ℕ
first_write [] size = failed 32
first_write (e ∷ l) size = done size

abbrev first_wait : Log → Wait
first_wait (says cannot_write ∷ l) = reaped 1
first_wait _ = still_running

abbrev broken_os : Os
broken_os = record talking_os {
  write = λ l fd bytes. first_write l (length bytes);
  waitpid = λ l pid no_hang. first_wait l;
}

started-IsBroken : IsBroken broken_os started command [] 10 13 100 1
started-IsBroken = record {
  reading = refl;
  writing = refl;
  has_child = refl;
  plain = refl;
  alive = refl;
  rounds = omega arith;
  refused = refl;
  gone = refl;
}

abbrev log_left : Log
log_left = log_closed command 100 10 13 []

abbrev next_spawn : Spawn
next_spawn = record {
  reply_end = 22;
  reply_child_end = 23;
  command_child_end = 24;
  command_end = 25;
  pid = 100;
}

next_spawn-StartsWell : StartsWell broken_os llvm path log_left next_spawn
unfolding get_arg_v symbolizer_arch
next_spawn-StartsWell = record {
  file = refl;
  first = refl;
  first_high = refl;
  second = refl;
  second_high = refl;
  forked = refl;
  positive = refl;
  runs = refl;
}

abbrev log_next : Log
log_next = log_asked broken_os llvm path log_left next_spawn command

next_reply :
    read_from_symbolizer broken_os 2 (replaced started next_spawn) log_next
    ≡ ok (
      (true, record (replaced started next_spawn) { buffer = joined pieces ++ 0 ∷ [] }),
      reads_log 22 pieces log_next,
    )
unfolding read_from_symbolizer read_buffer read_rounds read_from_file reached_end_of_output byte_at
    joined reads_log
next_reply = refl

send_command-replaced_example :
    Process.send_command broken_os 2 started command []
    ≡ ok (
      (
        some (c_str (joined pieces ++ 0 ∷ [])),
        record (replaced started next_spawn) { buffer = joined pieces ++ 0 ∷ [] },
      ),
      reads_log 22 pieces log_next,
    )
send_command-replaced_example =
    send_command-replaced broken_os 2 started command [] started-IsBroken (omega arith) next_spawn
      next_spawn-StartsWell refl next_reply

print_frames-EndsAtEnd_example : EndsAtEnd llvm (print_frames (answered ∷ []) (codes "\n"))
print_frames-EndsAtEnd_example =
    print_frames-EndsAtEnd (answered ∷ []) (λ e. cc) (answered-Fits, tt)
