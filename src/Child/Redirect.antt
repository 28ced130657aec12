-- ===== src/Child/Redirect.antt =====
-- lib/symbolizer.cpp, the part of `StartSubprocess` that the forked child runs: signals, session,
-- descriptors, and `execv`.
use sanitizer_symbolizer_too.Prelude.{
  ℕ, zero, suc, Bool, true, Option, none, some, List, Bytes, ltb, ◌==◌, if◌then◌else◌,
}
use sanitizer_symbolizer_too.System.{Fd}

-- The descriptors of a process: the open file behind each.
abbrev pub Descriptors : Type 0
Descriptors = ℕ → Option ℕ

pub data Disposition : Type 0 where
  by_default ignored handled : Disposition

-- What `execv` hands on to the program.
pub record Image : Type 0 where
  pub descriptors : Descriptors
  pub sigpipe : Disposition
  pub leads_session : Bool

-- How the child's code ends: in another program, or by `std::exit`.
pub data ChildEnd : Type 0 where
  executes : Bytes → List (Option Bytes) → Image → ChildEnd
  exits : ℕ → ChildEnd

abbrev pub set_fd : ℕ → Option ℕ → Descriptors → Descriptors
set_fd fd file t n = if n == fd then file else t n

-- `close(fd)`; on a descriptor that is not open it fails, and its result is not looked at.
unfoldable pub close_fd : ℕ → Descriptors → Descriptors
close_fd fd t = set_fd fd none t

-- `dup2(from, to)`. It fails where `from` is not open, and does nothing where both are the same.
unfoldable pub dup2 : ℕ → ℕ → Descriptors → Descriptors
dup2 from to t = elim (t from) [
  | none ↦ t
  | some file ↦ if from == to then t else set_fd to (some file) t
]

-- `if (fd != kInvalidFd) { dup2(fd, target); close(fd); }`
unfoldable pub redirect : Fd → ℕ → Descriptors → Descriptors
unfolding dup2 close_fd
redirect none target t = t
redirect (some fd) target t = close_fd fd (dup2 fd target t)

-- `for (int fd = …; fd > 2; fd--) close(fd);`
unfoldable pub close_down : ℕ → Descriptors → Descriptors
unfolding close_fd
close_down zero t = t
close_down (suc n) t = if ltb 2 (suc n) then close_down n (close_fd (suc n) t) else t

-- `open_max` is what `sysconf` gives; `execv` returns only where it fails.
unfoldable pub run_child :
    ℕ → (Bytes → Bool) → Bytes → List (Option Bytes) → Fd → Fd → Fd → Image → ChildEnd
unfolding redirect close_down
run_child open_max execv program argv stdin_fd stdout_fd stderr_fd image =
    let redirected =
      redirect stderr_fd 2 (redirect stdout_fd 1 (redirect stdin_fd 0 image.descriptors)) in
    if execv program
    then executes program argv (record {
      descriptors = close_down open_max redirected;
      sigpipe = by_default;
      leads_session = true;
    })
    else exits 1
