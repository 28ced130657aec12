-- ===== src/Child.antt =====
-- lib/symbolizer.cpp: the POSIX functions that start, watch and end a child process.
pub mod Pipes
pub mod Redirect
pub mod Inherits
use sanitizer_symbolizer_too.Prelude.{
  ℕ, zero, suc, Bool, true, false, ◌&&◌, Option, none, some, List, [], ◌∷◌, ◌++◌, Bytes, ltb, ◌==◌,
  if◌then◌else◌, die, undefined,
}
use sanitizer_symbolizer_too.System.{
  Fd, Io, failed, done, wait_failed, still_running, reaped, fork_failed, wait_did_not_work,
  kill_did_not_work, closes, pipes, pipe_fails, forks, waits, kills, says, Os,
}
use sanitizer_symbolizer_too.System.Monad.{
  Sys, pure, ◌>>=◌, ◌>>◌, emit, say_sth, answer, lift, at_scope_exit,
}
use sanitizer_symbolizer_too.Files.{close_valid}

-- An entry of `sock_pair`; `kept` marks the one that `infd` points to.
pub record SockPair : Type 0 where
  pub reading : ℕ
  pub writing : ℕ
  pub kept : Bool

-- ECHILD of Linux
abbrev pub echild : ℕ
echild = 10

abbrev pub close_both : SockPair → Sys (Unit {0})
close_both p = do emit (closes p.reading); emit (closes p.writing)

-- `for (int j = 0; j < i; j++)`, over all pairs or over all but `infd`.
unfoldable pub close_pairs : Bool → List SockPair → Sys (Unit {0})
close_pairs spare [] = pure tt
close_pairs spare (p ∷ ps) =
    (if spare && p.kept then pure tt else close_both p) >>= λ _. close_pairs spare ps

abbrev pub both_high : ℕ → ℕ → Bool
both_high a b = ltb 2 a && ltb 2 b

module _ (os : Os) where
  -- The loop over `i`, with the rounds left, the pairs made so far and `infd`. Behind the loop
  -- `CHECK(outfd)` fails.
  unfoldable pub pipe_rounds : ℕ → List SockPair → Option (ℕ × ℕ) → Sys (Option ((ℕ × ℕ) × (ℕ × ℕ)))
  pipe_rounds zero earlier infd l = die
  pipe_rounds (suc rounds) earlier infd l = elim (os.pipe l) [
    | failed e ↦ (do close_pairs false earlier; pure none) (pipe_fails ∷ l)
    | done (a, b) ↦ elim infd [
      | none ↦
          pipe_rounds rounds
            (earlier ++ record { reading = a; writing = b; kept = both_high a b } ∷ [])
            (if both_high a b then some (a, b) else none) (pipes a b ∷ l)
      | some first ↦
          let more =
            pipe_rounds rounds (earlier ++ record { reading = a; writing = b; kept = false } ∷ [])
              (some first) (pipes a b ∷ l) in
          if both_high a b
          then (do close_pairs true earlier; pure (some (first, (a, b)))) (pipes a b ∷ l)
          else more
    ]
  ]

  unfoldable pub create_two_high_numbered_pipes : Sys (Option ((ℕ × ℕ) × (ℕ × ℕ)))
  unfolding pipe_rounds close_pairs
  create_two_high_numbered_pipes = pipe_rounds 5 [] none

  -- The parent's side. The descriptors are closed when the scope is left, on every path. In the
  -- child, where `fork` gives 0, the function does not return.
  unfoldable pub start_subprocess : Bytes → List (Option Bytes) → Fd → Fd → Fd → Sys (Io ℕ)
  unfolding close_valid
  start_subprocess program argv stdin_fd stdout_fd stderr_fd =
      at_scope_exit (do close_valid stdin_fd; close_valid stdout_fd; close_valid stderr_fd)
        (do
          pid ← answer os.fork (forks program argv)
          elim pid [ failed e ↦ say_sth fork_failed | done n ↦ pure tt ]
          pure pid)

  -- The status test stands as in the source: a child that still runs is left alone.
  unfoldable pub kill_child_process : ℕ → Sys Bool
  kill_child_process pid = do
    status ← answer (λ l. os.waitpid l pid true) (waits pid true)
    elim status [
      | still_running ↦ pure true
      | wait_failed e ↦
          if e == echild then pure false else (do say_sth wait_did_not_work; pure false)
      | reaped code ↦ (do
        killed ← answer (λ l. os.kill l pid) (kills pid)
        elim killed [
          | failed e ↦ (do say_sth kill_did_not_work; pure false)
          | done u ↦ (do emit (waits pid false); pure true)
        ])
    ]

  unfoldable pub is_process_running : ℕ → Sys Bool
  is_process_running pid = do
    status ← answer (λ l. os.waitpid l pid true) (waits pid true)
    elim status [
      | still_running ↦ pure true
      | wait_failed e ↦ (do say_sth wait_did_not_work; pure false)
      | reaped code ↦ pure false
    ]

  -- The exit status, or -1 as `none`. A wait that blocks gives no other answer; the status would be
  -- read uninitialised.
  unfoldable pub wait_for_process : ℕ → Sys (Option ℕ)
  wait_for_process pid = do
    status ← answer (λ l. os.waitpid l pid false) (waits pid false)
    elim status [
      | still_running ↦ lift undefined
      | wait_failed e ↦ (do say_sth wait_did_not_work; pure none)
      | reaped code ↦ pure (some code)
    ]
