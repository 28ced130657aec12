-- ===== src/Process/Starts.antt =====
-- What a system may promise, and the starts of a llvm-symbolizer process under one that does.
use sanitizer_symbolizer_too.Prelude.{
  ℕ, zero, suc, ◌+◌, ◌-◌, ◌≡◌, ◌≢◌, refl, sym, ap, subst, Bool, true, false, not, ◌&&◌, ◌⊎◌, inl,
  inr, Option, none, some, List, [], ◌∷◌, ◌++◌, arith, Bytes, ltb, leb, if◌then◌else◌, Bool-cases,
  length,
}
use sanitizer_symbolizer_too.System.{
  Fd, Io-cases, failed, done, epipe, closes, pipes, reads_from, writes_to, Log, Os,
}
use sanitizer_symbolizer_too.System.Monad.{check}
use sanitizer_symbolizer_too.System.Post.{Ends, ends, Ends-bind}
use sanitizer_symbolizer_too.Files.{close_valid, file_exists}
use sanitizer_symbolizer_too.Child.{
  SockPair, close_pairs, both_high, pipe_rounds, create_two_high_numbered_pipes, start_subprocess,
  kill_child_process, is_process_running,
}
use sanitizer_symbolizer_too.Symbolizer.{llvm, SymbolizerProcess, get_arg_v, reached_end_of_output}
use sanitizer_symbolizer_too.Process.{
  is_running, kill, bytes_read, start_symbolizer_subprocess, restart, watch_child, launch_with,
  launch, launch_if, report_invalid_path, kill_if_running,
}

-- The reads from `fd` give, in at most so many, a text that ends a reply of llvm-symbolizer behind
-- `text`, or one of them gives nothing: the child has closed its end, or the read fails.
unfoldable pub Comes : Os → ℕ → ℕ → Bytes → Log → Type 0
Comes os zero fd text l = ⊥
Comes os (suc count) fd text l =
    let room = os.capacity l (length text + 1024) - length text in
    let piece = bytes_read os (os.read l fd room) in
    (piece ≡ [])
    ⊎ ((reached_end_of_output llvm (text ++ piece) ≡ true)
        ⊎ Comes os count fd (text ++ piece) (reads_from fd ∷ l))

-- What the system promises: descriptors 0 to 2 are in use, so that a pipe gets none of them; a child
-- has a positive pid; no command is written to a pipe without a reader, which would send SIGPIPE;
-- and a child that was sent a whole command replies to it in at most `limit` reads, or closes its
-- end, so that no read waits for ever.
pub record IsLawful (os : Os) (limit : ℕ) : Type 0 where
  pub high_pipes : (l : Log) {a b : ℕ} → os.pipe l ≡ done (a, b) → both_high a b ≡ true
  pub positive_pid : (l : Log) {pid : ℕ} → os.fork l ≡ done pid → ltb 0 pid ≡ true
  pub readers_stay : (l : Log) (fd : ℕ) (command : Bytes) → os.write l fd command ≢ failed epipe
  pub replies :
      (l : Log) (input output : ℕ) (command : Bytes)
      → command ≢ []
      → os.write l output command ≡ done (length command)
      → Comes os limit input [] (writes_to output command ∷ l)

-- A process as `LLVMSymbolizer` makes it.
abbrev pub IsLlvm : SymbolizerProcess → Type 0
IsLlvm p = (p.kind ≡ llvm) × (p.use_posix_spawn ≡ false)

abbrev pub Kept : {A : Type 0} → A × SymbolizerProcess → Log → Type 0
Kept r l = IsLlvm r.1

module _ (os : Os) (limit : ℕ) (lawful : IsLawful os limit) where
  kill_if_running-Ends :
      (p : SymbolizerProcess) (l : Log) → IsLlvm p → Ends Kept (kill_if_running os p l)
  unfolding kill_if_running is_running is_process_running kill kill_child_process close_valid
  kill_if_running-Ends p l h = ground arith

  close_valid-Ends : (fd : Fd) (l : Log) → Ends (λ u l'. Unit {0}) (close_valid fd l)
  unfolding close_valid
  close_valid-Ends none l = ends tt
  close_valid-Ends (some fd) l = ends tt

  close_pairs-Ends :
      (spare : Bool) (ps : List SockPair) (l : Log)
      → Ends (λ u l'. Unit {0}) (close_pairs spare ps l)
  unfolding close_pairs
  close_pairs-Ends spare [] l = ends tt
  close_pairs-Ends spare (q ∷ ps) l = elim (Bool-cases (spare && q.kept)) [
    | inl e ↦ rw e (close_pairs-Ends spare ps l)
    | inr e ↦ rw e (close_pairs-Ends spare ps (closes q.writing ∷ closes q.reading ∷ l))
  ]

  -- Behind a first pipe that is kept, the next one ends the loop.
  second_round-Ends :
      (rounds : ℕ) (earlier : List SockPair) (first : ℕ × ℕ) (l : Log)
      → Ends (λ r l'. Unit {0}) (pipe_rounds os (suc rounds) earlier (some first) l)
  unfolding pipe_rounds
  second_round-Ends rounds earlier first l = elim (Io-cases (os.pipe l)) [
    | inl (n, failure) ↦
        rw (failure, pipe_rounds) (Ends-bind (close_pairs-Ends false earlier _) λ u l' h. ends tt)
    | inr ((a, b), made) ↦
        rw (made, pipe_rounds, lawful.high_pipes l made)
          (Ends-bind (close_pairs-Ends true earlier _) λ u l' h. ends tt)
  ]

  kept_round-Ends :
      (rounds : ℕ) (earlier : List SockPair) (first : ℕ × ℕ) (high : Bool) (l : Log)
      → high ≡ true
      → Ends
          (λ r l'. Unit {0})
          (pipe_rounds os (suc rounds) earlier (if high then some first else none) l)
  kept_round-Ends rounds earlier first true l e = second_round-Ends rounds earlier first l
  kept_round-Ends rounds earlier first false l e = cc

  create_two_high_numbered_pipes-Ends :
      (l : Log) → Ends (λ r l'. Unit {0}) (create_two_high_numbered_pipes os l)
  unfolding create_two_high_numbered_pipes pipe_rounds close_pairs
  create_two_high_numbered_pipes-Ends l = elim (Io-cases (os.pipe l)) [
    | inl (e, failure) ↦ rw (failure, pipe_rounds) (ends tt)
    | inr ((a, b), made) ↦
        let pair : SockPair = record { reading = a; writing = b; kept = both_high a b } in
        rw (made, pipe_rounds)
          (kept_round-Ends 3 (pair ∷ []) (a, b) (both_high a b) (pipes a b ∷ l)
            (lawful.high_pipes l made))
  ]

  watch_child-Ends :
      (p : SymbolizerProcess) (pid : ℕ) (l : Log)
      → ltb 0 pid ≡ true
      → IsLlvm p
      → Ends Kept (watch_child os p pid l)
  unfolding watch_child is_process_running
  watch_child-Ends p pid l positive h = rw (positive, watch_child) (ground arith)

  launch_with-Ends :
      (p : SymbolizerProcess) (argv : List (Option Bytes)) (fds : (ℕ × ℕ) × (ℕ × ℕ)) (l : Log)
      → IsLlvm p
      → Ends Kept (launch_with os p argv fds l)
  unfolding launch_with start_subprocess close_valid
  launch_with-Ends p argv (infd, outfd) l h = elim (Io-cases (os.fork l)) [
    | inl (e, failure) ↦ rw (failure, launch_with) (ends h)
    | inr (n, started) ↦
        rw (started, launch_with) (watch_child-Ends _ n _ (lawful.positive_pid l started) h)
  ]

  launch_if-Ends :
      (p : SymbolizerProcess) (argv : List (Option Bytes)) (made : Option ((ℕ × ℕ) × (ℕ × ℕ)))
      (l : Log)
      → IsLlvm p
      → Ends Kept (launch_if os p argv made l)
  unfolding launch_if
  launch_if-Ends p argv none l h = ends h
  launch_if-Ends p argv (some fds) l h = launch_with-Ends p argv fds l h

  check-Ends : {b : Bool} (l : Log) → b ≡ true → Ends (λ u l'. Unit {0}) (check b l)
  check-Ends l e = rw e (ends tt)

  -- llvm-symbolizer has four arguments and the null pointer.
  few_arguments :
      (p : SymbolizerProcess)
      → IsLlvm p
      → leb (length (get_arg_v os.target p.kind p.path)) 16 ≡ true
  unfolding get_arg_v
  few_arguments p h =
      subst (λ k. leb (length (get_arg_v os.target k p.path)) 16 ≡ true) (sym h.0) refl

  launch-Ends : (p : SymbolizerProcess) (l : Log) → IsLlvm p → Ends Kept (launch os p l)
  unfolding launch
  launch-Ends p l h = Ends-bind (check-Ends l (few_arguments p h)) λ u l1 v.
      Ends-bind (check-Ends l1 (ap not h.1)) λ u' l2 v'.
        Ends-bind (create_two_high_numbered_pipes-Ends l2)
          λ made l3 v''. launch_if-Ends p (get_arg_v os.target p.kind p.path) made l3 h

  start_symbolizer_subprocess-Ends :
      (p : SymbolizerProcess) (l : Log) → IsLlvm p → Ends Kept (start_symbolizer_subprocess os p l)
  unfolding start_symbolizer_subprocess file_exists
  start_symbolizer_subprocess-Ends p l h = next _ _
    where
      next :
          (exists : Bool) (l' : Log)
          → Ends Kept ((if exists then launch os p else report_invalid_path os p) l')
      next true l' = launch-Ends p l' h
      next false l' = ground arith

  pub restart-Ends : (p : SymbolizerProcess) (l : Log) → IsLlvm p → Ends Kept (restart os p l)
  unfolding restart
  restart-Ends p l h = Ends-bind (kill_if_running-Ends p l h) λ r l1 kept.
      Ends-bind (close_valid-Ends r.1.input_fd l1) λ u l2 v.
        Ends-bind (close_valid-Ends r.1.output_fd l2)
          λ u' l3 v'. start_symbolizer_subprocess-Ends r.1 l3 kept
