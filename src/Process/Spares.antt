-- ===== src/Process/Spares.antt =====
-- What a log says of the signals that were sent, and the steps of a process that send none.
use sanitizer_symbolizer_too.Prelude.{
  ℕ, zero, suc, ◌+◌, ◌-◌, ◌≡◌, Bool, true, false, not, ◌&&◌, inl, inr, Option, none, some, List, [],
  ◌∷◌, ◌++◌, arith, Bytes, leb, ◌==◌, if◌then◌else◌, Bool-cases, Option-cases, length,
}
use sanitizer_symbolizer_too.System.{
  pipe_fails, pipes, Io-cases, reaped, Fd, closes, reads_from, waits, kills, Log, Os,
}
use sanitizer_symbolizer_too.System.Monad.{pure, check, ◌>>◌}
use sanitizer_symbolizer_too.System.Post.{Post, post, Post-bind}
use sanitizer_symbolizer_too.Files.{close_valid, read_from_file, write_to_file, file_exists}
use sanitizer_symbolizer_too.Child.{
  SockPair, close_pairs, both_high, pipe_rounds, create_two_high_numbered_pipes, start_subprocess,
  is_process_running,
}
use sanitizer_symbolizer_too.Symbolizer.{
  SymbolizerProcess, reached_end_of_output, get_arg_v, arg_v_max,
}
use sanitizer_symbolizer_too.Process.{
  read_rounds, bytes_read, write_to_symbolizer, start_symbolizer_subprocess, watch_child,
  launch_with, launch, launch_if, report_invalid_path,
}

-- The newest event is a wait without blocking, which reaped that child.
abbrev pub JustReaped : Os → ℕ → Log → Type 0
JustReaped os pid (waits child true ∷ l) =
    (child ≡ pid) × (status : ℕ) × (os.waitpid l pid true ≡ reaped status)
JustReaped os pid _ = ⊥

-- Each signal went to a child that had just been reaped.
unfoldable pub SignalsReaped : Os → Log → Type 0
unfolding JustReaped
SignalsReaped os [] = Unit
SignalsReaped os (kills pid ∷ l) = JustReaped os pid l × SignalsReaped os l
SignalsReaped os (e ∷ l) = SignalsReaped os l

module _ (os : Os) where
  abbrev pub Spares : {A : Type 0} → A → Log → Type 0
  Spares a l = SignalsReaped os l

  pub close_valid-Spares : (fd : Fd) (l : Log) → SignalsReaped os l → Post Spares (close_valid fd l)
  unfolding close_valid SignalsReaped
  close_valid-Spares none l h = post h
  close_valid-Spares (some fd) l h = post h

  pub write_to_symbolizer-Spares :
      (p : SymbolizerProcess) (command : Bytes) (l : Log)
      → SignalsReaped os l
      → Post Spares (write_to_symbolizer os p command l)
  unfolding write_to_symbolizer write_to_file SignalsReaped
  write_to_symbolizer-Spares p [] l h = post h
  write_to_symbolizer-Spares p (c ∷ s) l h = ground arith

  pub read_rounds-Spares :
      (fuel : ℕ) (p : SymbolizerProcess) (l : Log)
      → SignalsReaped os l
      → Post Spares (read_rounds os fuel p l)
  unfolding read_rounds read_from_file SignalsReaped
  read_rounds-Spares zero p l h = post tt
  read_rounds-Spares (suc fuel) p l h = elim (Option-cases p.input_fd) [
    | inl e ↦ rw (e, read_rounds) (post tt)
    | inr (fd, e) ↦
        let room = os.capacity l (length p.buffer + 1024) - length p.buffer in
        let just_read = bytes_read os (os.read l fd room) in
        let p' = record p { buffer = p.buffer ++ just_read } in
        elim (Bool-cases (length just_read == 0)) [
          | inl nothing ↦ rw (e, read_rounds, nothing) (post h)
          | inr some_bytes ↦ elim (Bool-cases (reached_end_of_output p.kind p'.buffer)) [
            | inl ended ↦ rw (e, read_rounds, some_bytes, ended) (post h)
            | inr not_ended ↦
                rw (e, read_rounds, some_bytes, not_ended)
                  (read_rounds-Spares fuel p' (reads_from fd ∷ l) h)
          ]
        ]
  ]

  close_pairs-Spares :
      (spare : Bool) (ps : List SockPair) (l : Log)
      → SignalsReaped os l
      → Post Spares (close_pairs spare ps l)
  unfolding close_pairs SignalsReaped
  close_pairs-Spares spare [] l h = post h
  close_pairs-Spares spare (q ∷ ps) l h = elim (Bool-cases (spare && q.kept)) [
    | inl e ↦ rw e (close_pairs-Spares spare ps l h)
    | inr e ↦ rw e (close_pairs-Spares spare ps (closes q.writing ∷ closes q.reading ∷ l) h)
  ]

  failed_pipe :
      (earlier : List SockPair) (l : Log)
      → SignalsReaped os l
      → Post Spares (
          (close_pairs false earlier >> pure {A = Option ((ℕ × ℕ) × (ℕ × ℕ))} none)
            (pipe_fails ∷ l))
  unfolding SignalsReaped
  failed_pipe earlier l h =
      Post-bind (close_pairs-Spares false earlier (pipe_fails ∷ l) h) λ a l1 h1. post h1

  pipe_rounds-Spares :
      (rounds : ℕ) (earlier : List SockPair) (infd : Option (ℕ × ℕ)) (l : Log)
      → SignalsReaped os l
      → Post Spares (pipe_rounds os rounds earlier infd l)
  unfolding pipe_rounds SignalsReaped
  pipe_rounds-Spares zero earlier infd l h = post tt
  pipe_rounds-Spares (suc rounds) earlier none l h = elim (Io-cases (os.pipe l)) [
    | inl (e, failure) ↦ rw (failure, pipe_rounds) (failed_pipe earlier l h)
    | inr ((a, b), made) ↦ rw (made, pipe_rounds) (pipe_rounds-Spares rounds _ _ (pipes a b ∷ l) h)
  ]
  pipe_rounds-Spares (suc rounds) earlier (some first) l h = elim (Io-cases (os.pipe l)) [
    | inl (e, failure) ↦ rw (failure, pipe_rounds) (failed_pipe earlier l h)
    | inr ((a, b), made) ↦ elim (Bool-cases (both_high a b)) [
      | inl high ↦
          rw (made, pipe_rounds, high)
            (Post-bind (close_pairs-Spares true earlier (pipes a b ∷ l) h) λ u l1 h1. post h1)
      | inr low ↦ rw (made, pipe_rounds, low) (pipe_rounds-Spares rounds _ _ (pipes a b ∷ l) h)
    ]
  ]

  start_subprocess-Spares :
      (program : Bytes) (argv : List (Option Bytes)) (stdin_fd stdout_fd stderr_fd : Fd) (l : Log)
      → SignalsReaped os l
      → Post Spares (start_subprocess os program argv stdin_fd stdout_fd stderr_fd l)
  unfolding start_subprocess close_valid SignalsReaped
  start_subprocess-Spares program argv stdin_fd stdout_fd stderr_fd l h = ground arith

  watch_child-Spares :
      (p : SymbolizerProcess) (pid : ℕ) (l : Log)
      → SignalsReaped os l
      → Post Spares (watch_child os p pid l)
  unfolding watch_child is_process_running SignalsReaped
  watch_child-Spares p pid l h = ground arith

  launch_if-Spares :
      (p : SymbolizerProcess) (argv : List (Option Bytes)) (made : Option ((ℕ × ℕ) × (ℕ × ℕ)))
      (l : Log)
      → SignalsReaped os l
      → Post Spares (launch_if os p argv made l)
  unfolding launch_if launch_with SignalsReaped
  launch_if-Spares p argv none l h = post h
  launch_if-Spares p argv (some (infd, outfd)) l h =
      Post-bind (start_subprocess-Spares p.path argv (some outfd.0) (some infd.1) none l h)
        λ pid l1 h1. elim (Io-cases pid) [
          | inl (e, failure) ↦ rw failure (post h1)
          | inr (n, started) ↦ rw started (
              watch_child-Spares (record p { input_fd = some infd.0; output_fd = some outfd.1 }) n
                l1 h1)
        ]

  check-Spares : (b : Bool) (l : Log) → SignalsReaped os l → Post Spares (check b l)
  check-Spares true l h = post h
  check-Spares false l h = post tt

  launch-Spares :
      (p : SymbolizerProcess) (l : Log) → SignalsReaped os l → Post Spares (launch os p l)
  unfolding launch create_two_high_numbered_pipes
  launch-Spares p l h =
      Post-bind (check-Spares (leb (length (get_arg_v os.target p.kind p.path)) arg_v_max) l h)
        λ u l1 h1. Post-bind (check-Spares (not p.use_posix_spawn) l1 h1) λ u' l2 h2.
          Post-bind (pipe_rounds-Spares 5 [] none l2 h2)
            λ made l3 h3. launch_if-Spares p (get_arg_v os.target p.kind p.path) made l3 h3

  pub start_symbolizer_subprocess-Spares :
      (p : SymbolizerProcess) (l : Log)
      → SignalsReaped os l
      → Post Spares (start_symbolizer_subprocess os p l)
  unfolding start_symbolizer_subprocess file_exists SignalsReaped
  start_symbolizer_subprocess-Spares p l h = next _ _ h
    where
      next :
          (exists : Bool) (l' : Log)
          → SignalsReaped os l'
          → Post Spares ((if exists then launch os p else report_invalid_path os p) l')
      next true l' h' = launch-Spares p l' h'
      next false l' h' = ground arith
