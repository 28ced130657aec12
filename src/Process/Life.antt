-- ===== src/Process/Life.antt =====
-- What each step of a process leaves alone, and how many children it starts.
use sanitizer_symbolizer_too.Prelude.{
  ℕ, zero, suc, ◌+◌, ◌-◌, ◌≤◌, ◌≡◌, refl, ◌∙◌, Bool, true, false, not, ◌&&◌, inl, inr, Option, none,
  some, List, [], ◌∷◌, ◌++◌, arith, Bytes, leb, ◌==◌, if◌then◌else◌, Bool-cases, Option-cases,
  length, Outcome, then_do,
}
use sanitizer_symbolizer_too.System.{pipe_fails, pipes, Io-cases, Fd, closes, reads_from, Log, Os}
use sanitizer_symbolizer_too.System.Monad.{pure, check, ◌>>◌}
use sanitizer_symbolizer_too.System.Post.{Post, post, Post-bind, Post-mono, count_forks}
use sanitizer_symbolizer_too.Files.{close_valid, read_from_file, write_to_file, file_exists}
use sanitizer_symbolizer_too.Child.{
  SockPair, close_pairs, both_high, pipe_rounds, create_two_high_numbered_pipes, start_subprocess,
  kill_child_process, is_process_running,
}
use sanitizer_symbolizer_too.Symbolizer.{
  SymbolizerProcess, reached_end_of_output, get_arg_v, arg_v_max,
}
use sanitizer_symbolizer_too.Process.{
  is_running, kill, read_rounds, bytes_read, write_to_symbolizer, start_symbolizer_subprocess,
  restart, watch_child, launch_with, launch, launch_if, report_invalid_path, kill_if_running,
}

-- The fields that only `SendCommand` itself changes, and those that nothing changes.
abbrev pub SameLife : SymbolizerProcess → SymbolizerProcess → Type 0
SameLife p q =
    (q.kind ≡ p.kind)
    × (q.path ≡ p.path)
    × (q.times_restarted ≡ p.times_restarted)
    × (q.failed_to_start ≡ p.failed_to_start)

pub SameLife-refl : (p : SymbolizerProcess) → SameLife p p
SameLife-refl p = (refl, refl, refl, refl)

pub SameLife-trans : (p q r : SymbolizerProcess) → SameLife p q → SameLife q r → SameLife p r
SameLife-trans p q r (a, b, c, d) (a', b', c', d') = (a' ∙ a, b' ∙ b, c' ∙ c, d' ∙ d)

-- A step that starts at most `n` children and keeps those fields.
abbrev pub Within :
    ℕ → SymbolizerProcess → Log → {A : Type 0} → A × SymbolizerProcess → Log → Type 0
Within n p l r l' = SameLife p r.1 × (count_forks l' ≤ count_forks l + n)

abbrev pub Quiet : Log → {A : Type 0} → A → Log → Type 0
Quiet l a l' = count_forks l' ≡ count_forks l

module _ {A B : Type 0} (n : ℕ) (p : SymbolizerProcess) (l : Log) {m : Outcome (A × Log)}
    {f : A → Log → Outcome ((B × SymbolizerProcess) × Log)} where
  pub Quiet-Within :
      Post (Quiet l) m
      → ((a : A) (l' : Log) → Post (Within n p l') (f a l'))
      → Post (Within n p l) (then_do m λ r. f r.0 r.1)
  Quiet-Within h k = Post-bind h λ a l' e. Post-mono (k a l') λ b l'' w. (w.0, omega arith)

pub close_valid-Quiet : (fd : Fd) (l : Log) → Post (Quiet l) (close_valid fd l)
unfolding close_valid count_forks
close_valid-Quiet none l = post refl
close_valid-Quiet (some fd) l = post refl

module _ (os : Os) where
  kill_child_process-Quiet : (pid : ℕ) (l : Log) → Post (Quiet l) (kill_child_process os pid l)
  unfolding kill_child_process count_forks
  kill_child_process-Quiet pid l = ground arith

  is_running-Quiet : (p : SymbolizerProcess) (l : Log) → Post (Quiet l) (is_running os p l)
  unfolding is_running is_process_running count_forks
  is_running-Quiet p l = ground arith

  kill-Within : (p : SymbolizerProcess) (l : Log) → Post (Within 0 p l) (kill os p l)
  unfolding kill kill_child_process close_valid count_forks
  kill-Within p l = ground arith

  pub write_to_symbolizer-Quiet :
      (p : SymbolizerProcess) (command : Bytes) (l : Log)
      → Post (Quiet l) (write_to_symbolizer os p command l)
  unfolding write_to_symbolizer write_to_file count_forks
  write_to_symbolizer-Quiet p [] l = post refl
  write_to_symbolizer-Quiet p (c ∷ s) l = ground arith

  pub read_rounds-Within :
      (fuel : ℕ) (p : SymbolizerProcess) (l : Log)
      → Post (λ q l'. SameLife p q × (count_forks l' ≡ count_forks l)) (read_rounds os fuel p l)
  unfolding read_rounds read_from_file count_forks
  read_rounds-Within zero p l = post tt
  read_rounds-Within (suc fuel) p l = elim (Option-cases p.input_fd) [
    | inl e ↦ rw (e, read_rounds) (post tt)
    | inr (fd, e) ↦
        let room = os.capacity l (length p.buffer + 1024) - length p.buffer in
        let just_read = bytes_read os (os.read l fd room) in
        let p' = record p { buffer = p.buffer ++ just_read } in
        elim (Bool-cases (length just_read == 0)) [
          | inl nothing ↦ rw (e, read_rounds, nothing) (post (SameLife-refl p, refl))
          | inr some_bytes ↦ elim (Bool-cases (reached_end_of_output p.kind p'.buffer)) [
            | inl ended ↦ rw (e, read_rounds, some_bytes, ended) (post (SameLife-refl p, refl))
            | inr not_ended ↦
                rw (e, read_rounds, some_bytes, not_ended)
                  (Post-mono (read_rounds-Within fuel p' (reads_from fd ∷ l)) λ q l' w. w)
          ]
        ]
  ]

  close_pairs-Quiet :
      (spare : Bool) (ps : List SockPair) (l : Log) → Post (Quiet l) (close_pairs spare ps l)
  unfolding close_pairs count_forks
  close_pairs-Quiet spare [] l = post refl
  close_pairs-Quiet spare (q ∷ ps) l = elim (Bool-cases (spare && q.kept)) [
    | inl e ↦ rw e (close_pairs-Quiet spare ps l)
    | inr e ↦ rw e (
        Post-mono (close_pairs-Quiet spare ps (closes q.writing ∷ closes q.reading ∷ l))
          λ a l' h. h)
  ]

  failed_pipe :
      (earlier : List SockPair) (l : Log)
      → Post (Quiet l) (
          (close_pairs false earlier >> pure {A = Option ((ℕ × ℕ) × (ℕ × ℕ))} none)
            (pipe_fails ∷ l))
  unfolding count_forks
  failed_pipe earlier l =
      Post-bind (close_pairs-Quiet false earlier (pipe_fails ∷ l)) λ a l' e. post e

  pipe_rounds-Quiet :
      (rounds : ℕ) (earlier : List SockPair) (infd : Option (ℕ × ℕ)) (l : Log)
      → Post (Quiet l) (pipe_rounds os rounds earlier infd l)
  unfolding pipe_rounds count_forks
  pipe_rounds-Quiet zero earlier infd l = post tt
  pipe_rounds-Quiet (suc rounds) earlier none l = elim (Io-cases (os.pipe l)) [
    | inl (e, failure) ↦ rw (failure, pipe_rounds) (failed_pipe earlier l)
    | inr ((a, b), made) ↦
        rw (made, pipe_rounds)
          (Post-mono (pipe_rounds-Quiet rounds _ _ (pipes a b ∷ l)) λ r l' h. h)
  ]
  pipe_rounds-Quiet (suc rounds) earlier (some first) l = elim (Io-cases (os.pipe l)) [
    | inl (e, failure) ↦ rw (failure, pipe_rounds) (failed_pipe earlier l)
    | inr ((a, b), made) ↦ elim (Bool-cases (both_high a b)) [
      | inl high ↦
          rw (made, pipe_rounds, high)
            (Post-bind (close_pairs-Quiet true earlier (pipes a b ∷ l)) λ u l' h. post h)
      | inr low ↦
          rw (made, pipe_rounds, low)
            (Post-mono (pipe_rounds-Quiet rounds _ _ (pipes a b ∷ l)) λ r l' h. h)
    ]
  ]

  start_subprocess-forks :
      (program : Bytes) (argv : List (Option Bytes)) (stdin_fd stdout_fd stderr_fd : Fd) (l : Log)
      → Post
          (λ pid l'. count_forks l' ≡ count_forks l + 1)
          (start_subprocess os program argv stdin_fd stdout_fd stderr_fd l)
  unfolding start_subprocess close_valid count_forks
  start_subprocess-forks program argv stdin_fd stdout_fd stderr_fd l = ground arith

  check-Quiet : (b : Bool) (l : Log) → Post (Quiet l) (check b l)
  check-Quiet true l = post refl
  check-Quiet false l = post tt

  file_exists-Quiet : (name : Option Bytes) (l : Log) → Post (Quiet l) (file_exists os name l)
  unfolding file_exists count_forks
  file_exists-Quiet none l = post refl
  file_exists-Quiet (some name) l = post refl

  watch_child-Within :
      (p : SymbolizerProcess) (pid : ℕ) (l : Log) → Post (Within 0 p l) (watch_child os p pid l)
  unfolding watch_child is_process_running count_forks
  watch_child-Within p pid l = ground arith

  launch_with-Within :
      (p : SymbolizerProcess) (argv : List (Option Bytes)) (fds : (ℕ × ℕ) × (ℕ × ℕ)) (l : Log)
      → Post (Within 1 p l) (launch_with os p argv fds l)
  unfolding launch_with count_forks
  launch_with-Within p argv (infd, outfd) l =
      Post-bind (start_subprocess-forks p.path argv (some outfd.0) (some infd.1) none l) λ pid l' h.
        elim (Io-cases pid) [
          | inl (e, failure) ↦ rw failure (post (SameLife-refl p, omega arith))
          | inr (n, started) ↦
              let q = record p { input_fd = some infd.0; output_fd = some outfd.1 } in
              rw started
                (Post-mono (watch_child-Within q n l') λ a l'' w. (w.0, omega (arith, w.1)))
        ]

  launch_if-Within :
      (p : SymbolizerProcess) (argv : List (Option Bytes)) (made : Option ((ℕ × ℕ) × (ℕ × ℕ)))
      (l : Log)
      → Post (Within 1 p l) (launch_if os p argv made l)
  unfolding launch_if count_forks
  launch_if-Within p argv none l = post (SameLife-refl p, omega arith)
  launch_if-Within p argv (some fds) l = launch_with-Within p argv fds l

  launch-Within : (p : SymbolizerProcess) (l : Log) → Post (Within 1 p l) (launch os p l)
  unfolding launch create_two_high_numbered_pipes
  launch-Within p l =
      Quiet-Within 1 p l
        (check-Quiet (leb (length (get_arg_v os.target p.kind p.path)) arg_v_max) l)
        λ a l1. Quiet-Within 1 p l1 (check-Quiet (not p.use_posix_spawn) l1) λ b l2.
          Quiet-Within 1 p l2 (pipe_rounds-Quiet 5 [] none l2)
            (launch_if-Within p (get_arg_v os.target p.kind p.path))

  -- A start begins one child at most.
  pub start_symbolizer_subprocess-Within :
      (p : SymbolizerProcess) (l : Log) → Post (Within 1 p l) (start_symbolizer_subprocess os p l)
  unfolding start_symbolizer_subprocess count_forks
  start_symbolizer_subprocess-Within p l =
      Quiet-Within 1 p l (file_exists-Quiet (some p.path) l) next
    where
      next :
          (exists : Bool) (l' : Log)
          → Post (Within 1 p l') ((if exists then launch os p else report_invalid_path os p) l')
      next true l' = launch-Within p l'
      next false l' = ground arith

  kill_if_running-Within :
      (p : SymbolizerProcess) (l : Log) → Post (Within 0 p l) (kill_if_running os p l)
  unfolding kill_if_running
  kill_if_running-Within p l = Quiet-Within 0 p l (is_running-Quiet p l) next
    where
      next :
          (running : Bool) (l' : Log)
          → Post (Within 0 p l') ((if running then kill os p else pure (false, p)) l')
      next true l' = kill-Within p l'
      next false l' = post (SameLife-refl p, omega arith)

  pub restart-Within : (p : SymbolizerProcess) (l : Log) → Post (Within 1 p l) (restart os p l)
  unfolding restart
  restart-Within p l = Post-bind (kill_if_running-Within p l) λ (a, q) l1 w.
      Post-mono
        (Quiet-Within 1 q l1 (close_valid-Quiet q.input_fd l1) λ u l2.
          Quiet-Within 1 q l2 (close_valid-Quiet q.output_fd l2)
            λ v l3. start_symbolizer_subprocess-Within q l3)
        λ (b, r) l4 w'. (SameLife-trans p q r w.0 w'.0, omega (arith, w.1, w'.1))
