-- ===== src/Child/Inherits.antt =====
-- What the program that the child runs finds open.
use sanitizer_symbolizer_too.Prelude.{
  ℕ, zero, suc, ◌≤◌, ◌<◌, ◌≡◌, ◌≢◌, refl, subst, ◌∙◌, Bool, true, ◌&&◌, Option, none, some, List,
  arith, Bytes, ltb, leb, ◌==◌, if◌then◌else◌, ok,
}
use sanitizer_symbolizer_too.System.{Log, Os}
use sanitizer_symbolizer_too.System.Post.{Post}
use sanitizer_symbolizer_too.Child.{create_two_high_numbered_pipes}
use sanitizer_symbolizer_too.Child.Pipes.{create_two_high_numbered_pipes_lem}
use sanitizer_symbolizer_too.Child.Redirect.{
  Descriptors, Image, by_default, executes, close_fd, redirect, close_down, run_child,
}

-- The loop closes what lies between 2 and its start.
close_down_lem :
    (top : ℕ) (t : Descriptors) (n : ℕ)
    → close_down top t n ≡ (if ltb 2 n && leb n top then none else t n)
unfolding close_down
close_down_lem zero t n = ground arith
close_down_lem (suc top) t n = ground (arith, close_down_lem top (close_fd (suc top) t) n)

-- A descriptor above the target is moved there; the others stay.
redirect_high :
    (fd target : ℕ) (t : Descriptors) (file n : ℕ)
    → t fd ≡ some file
    → target < fd
    → redirect (some fd) target t n
      ≡ (if n == fd then none else if n == target then some file else t n)
unfolding redirect
redirect_high fd target t file n is_open above = ground arith

-- The program's standard input and output are the two files, its standard error is that of the
-- caller, and nothing else is open up to the limit.
pub record Finds (open_max i o : ℕ) (before after : Image) : Type 0 where
  pub input : after.descriptors 0 ≡ some i
  pub output : after.descriptors 1 ≡ some o
  pub error : after.descriptors 2 ≡ before.descriptors 2
  pub others : (n : ℕ) → 2 < n → n ≤ open_max → after.descriptors n ≡ none
  pub default_sigpipe : after.sigpipe ≡ by_default
  pub own_session : after.leads_session ≡ true

module _ (open_max : ℕ) (execv : Bytes → Bool) (program : Bytes) (argv : List (Option Bytes))
    (before : Image) (input output : ℕ) {i o : ℕ} (opened : before.descriptors input ≡ some i)
    (opened' : before.descriptors output ≡ some o) (apart : input ≢ output) where
  -- The table in front of the loop.
  redirected :
      2 < input
      → 2 < output
      → (n : ℕ) → n ≤ 2
      → redirect (some output) 1 (redirect (some input) 0 before.descriptors) n
        ≡ (if n == 0 then some i else if n == 1 then some o else before.descriptors n)
  redirected high high' n low =
      let t = redirect (some input) 0 before.descriptors in
      let first = redirect_high input 0 before.descriptors i n opened (omega arith) in
      let still : t output ≡ some o =
        redirect_high input 0 before.descriptors i output opened (omega arith) ∙ ground arith in
      let second = redirect_high output 1 t o n still (omega arith) in
      second ∙ ground (arith, first)

  pub run_child_high :
      execv program ≡ true
      → 2 < input
      → 2 < output
      → (after : Image) × (run_child open_max execv program argv
            (some input)
            (some output)
            none
            before
          ≡ executes program argv after)
        × Finds open_max i o before after
  unfolding run_child
  run_child_high runs high high' =
      let t = redirect (some output) 1 (redirect (some input) 0 before.descriptors) in
      let at = redirected high high' in
      let after : Image = record {
        descriptors = close_down open_max t;
        sigpipe = by_default;
        leads_session = true;
      } in
      (
        after,
        rw (runs, run_child) refl,
        record {
          input = close_down_lem open_max t 0 ∙ at 0 (omega arith);
          output = close_down_lem open_max t 1 ∙ at 1 (omega arith);
          error = close_down_lem open_max t 2 ∙ at 2 (omega arith);
          others = λ n above within. close_down_lem open_max t n ∙ ground arith;
          default_sigpipe = refl;
          own_session = refl;
        },
      )

-- If CreateTwoHighNumberedPipes returns two pipes, and a child is run by StartSubprocess with
-- the reading end of the second and the writing end of the first, both open and different, and
-- execv succeeds, then the program starts with these two files as standard input and output,
-- with the standard error of the caller, with no other descriptor open from 3 up to the limit,
-- with the default disposition of SIGPIPE, in a session of its own.
pub create_two_high_numbered_pipes-Finds :
    (os : Os) (l l' : Log) {infd outfd : ℕ × ℕ}
    → create_two_high_numbered_pipes os l ≡ ok (some (infd, outfd), l')
    → (open_max : ℕ) (execv : Bytes → Bool) (program : Bytes) (argv : List (Option Bytes))
      (before : Image) {i o : ℕ}
    → before.descriptors outfd.0 ≡ some i
    → before.descriptors infd.1 ≡ some o
    → outfd.0 ≢ infd.1
    → execv program ≡ true
    → (after : Image) × (run_child open_max execv program argv
          (some outfd.0)
          (some infd.1)
          none
          before
        ≡ executes program argv after)
      × Finds open_max i o before after
create_two_high_numbered_pipes-Finds os l l' e open_max execv program argv before opened opened'
      apart runs =
    let made = (subst (Post _) e (create_two_high_numbered_pipes_lem os l)).returned.1 in
    run_child_high open_max execv program argv before _ _ opened opened' apart runs made.1.0
      made.0.1
