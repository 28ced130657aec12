-- ===== src/Tests/Pipes.antt =====
-- Pipes of a program that was started with descriptors 0 to 2 closed.
use sanitizer_symbolizer_too.Prelude.{ℕ, ◌+◌, ◌*◌, ◌≡◌, refl, some, [], ◌∷◌, length, ok}
use sanitizer_symbolizer_too.System.{done, pipes, closes, Os}
use sanitizer_symbolizer_too.System.Post.{Post, count_closes}
use sanitizer_symbolizer_too.Child.{create_two_high_numbered_pipes, pipe_rounds, close_pairs}
use sanitizer_symbolizer_too.Child.Pipes.{
  AreHigh, count_opens, in_result, create_two_high_numbered_pipes_lem,
}
use sanitizer_symbolizer_too.Prelude.{none, true, false, codes}
use sanitizer_symbolizer_too.Child.Redirect.{
  Image, ignored, executes, redirect, dup2, close_fd, run_child,
}
use sanitizer_symbolizer_too.Child.Inherits.{Finds, create_two_high_numbered_pipes-Finds}
use sanitizer_symbolizer_too.Tests.Processes.{silent_os}

-- Each pipe gets the next two descriptors.
abbrev low_os : Os
low_os = record silent_os { pipe = λ l. done (2 * length l, 2 * length l + 1) }

-- The first two pipes have a low descriptor, and are closed behind the fourth.
create_two_high_numbered_pipes-low :
    create_two_high_numbered_pipes low_os []
    ≡ ok (
      some ((4, 5), (6, 7)),
      closes 3
          ∷ closes 2
          ∷ closes 1
          ∷ closes 0
          ∷ pipes 6 7
          ∷ pipes 4 5
          ∷ pipes 2 3
          ∷ pipes 0 1
          ∷ [],
    )
unfolding create_two_high_numbered_pipes pipe_rounds close_pairs
create_two_high_numbered_pipes-low = refl

create_two_high_numbered_pipes_lem_example :
    Post
      (λ r l'.
        ((fd : ℕ)
          → count_closes fd l' + count_opens fd [] + in_result fd r
            ≡ count_closes fd [] + count_opens fd l')
        × AreHigh r)
      (create_two_high_numbered_pipes low_os [])
create_two_high_numbered_pipes_lem_example = create_two_high_numbered_pipes_lem low_os []

-- Every descriptor is open in the caller, which ignores SIGPIPE.
abbrev before : Image
before = record { descriptors = λ n. some (100 + n); sigpipe = ignored; leads_session = false }

create_two_high_numbered_pipes-Finds_example :
    (after : Image) × (run_child 1024
        (λ program. true)
        (codes "llvm-symbolizer")
        []
        (some 6)
        (some 5)
        none
        before
      ≡ executes (codes "llvm-symbolizer") [] after)
    × Finds 1024 106 105 before after
create_two_high_numbered_pipes-Finds_example =
    create_two_high_numbered_pipes-Finds low_os [] _ create_two_high_numbered_pipes-low 1024
      (λ program. true) (codes "llvm-symbolizer") [] before refl refl (λ e. cc) refl

-- A descriptor that is its own target is closed behind the redirection.
redirect_same : redirect (some 0) 0 before.descriptors 0 ≡ none
unfolding redirect dup2 close_fd
redirect_same = refl
