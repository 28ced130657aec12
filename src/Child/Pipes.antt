-- ===== src/Child/Pipes.antt =====
-- `CreateTwoHighNumberedPipes`: which descriptors it leaves open.
use sanitizer_symbolizer_too.Prelude.{
  ℕ, zero, suc, ◌+◌, ◌<◌, ◌≡◌, refl, ◌∙◌, true, false, inl, inr, Option, none, some, List, [], ◌∷◌,
  ◌++◌, arith, ◌==◌, if◌then◌else◌, Bool-cases, Outcome, ok, die, undefined, spent,
}
use sanitizer_symbolizer_too.System.{Io-cases, closes, pipes, pipe_fails, Log, Os}
use sanitizer_symbolizer_too.System.Post.{Post, post, Post-bind, Post-mono, count_closes}
use sanitizer_symbolizer_too.Child.{
  SockPair, close_pairs, both_high, pipe_rounds, create_two_high_numbered_pipes,
}

-- 1 where `fd` is `a`.
abbrev is_fd : ℕ → ℕ → ℕ
is_fd fd a = if fd == a then 1 else 0

-- How often a pipe gave a descriptor.
unfoldable pub count_opens : ℕ → Log → ℕ
count_opens fd [] = 0
count_opens fd (pipes a b ∷ l) = (is_fd fd a + is_fd fd b) + count_opens fd l
count_opens fd (_ ∷ l) = count_opens fd l

-- How often a descriptor stands in the result.
abbrev pub in_pipe : ℕ → Option (ℕ × ℕ) → ℕ
in_pipe fd none = 0
in_pipe fd (some (a, b)) = is_fd fd a + is_fd fd b

abbrev pub in_result : ℕ → Option ((ℕ × ℕ) × (ℕ × ℕ)) → ℕ
in_result fd none = 0
in_result fd (some (infd, outfd)) = in_pipe fd (some infd) + in_pipe fd (some outfd)

abbrev in_pair : ℕ → SockPair → ℕ
in_pair fd p = is_fd fd p.reading + is_fd fd p.writing

in_pairs : ℕ → List SockPair → ℕ
in_pairs fd [] = 0
in_pairs fd (p ∷ ps) = in_pair fd p + in_pairs fd ps

in_kept : ℕ → List SockPair → ℕ
in_kept fd [] = 0
in_kept fd (p ∷ ps) = (if p.kept then in_pair fd p else 0) + in_kept fd ps

in_pairs-append :
    (fd : ℕ) (ps : List SockPair) (p : SockPair)
    → in_pairs fd (ps ++ p ∷ []) ≡ in_pairs fd ps + in_pair fd p
unfolding in_pairs
in_pairs-append fd [] p = omega arith
in_pairs-append fd (q ∷ ps) p = omega (arith, in_pairs-append fd ps p)

in_kept-append :
    (fd : ℕ) (ps : List SockPair) (p : SockPair)
    → in_kept fd (ps ++ p ∷ []) ≡ in_kept fd ps + (if p.kept then in_pair fd p else 0)
unfolding in_kept
in_kept-append fd [] p = omega arith
in_kept-append fd (q ∷ ps) p = omega (arith, in_kept-append fd ps p)

abbrev Closes : ℕ → ℕ → ℕ → Log → Log → Type 0
Closes fd closed spared l l' =
    (count_closes fd l' + spared ≡ count_closes fd l + closed)
    × (count_opens fd l' ≡ count_opens fd l)

close_all-Closes :
    (fd : ℕ) (ps : List SockPair) (l : Log)
    → Post (λ u l'. Closes fd (in_pairs fd ps) 0 l l') (close_pairs false ps l)
unfolding close_pairs in_pairs count_closes count_opens
close_all-Closes fd [] l = post (refl, refl)
close_all-Closes fd (p ∷ ps) l =
    Post-mono (close_all-Closes fd ps (closes p.writing ∷ closes p.reading ∷ l))
      λ u l' h. (omega (arith, h.0), h.1)

close_others-Closes :
    (fd : ℕ) (ps : List SockPair) (l : Log)
    → Post (λ u l'. Closes fd (in_pairs fd ps) (in_kept fd ps) l l') (close_pairs true ps l)
unfolding close_pairs in_pairs in_kept count_closes count_opens
close_others-Closes fd [] l = post (refl, refl)
close_others-Closes fd (p ∷ ps) l = elim (Bool-cases p.kept) [
  | inl e ↦ rw e (Post-mono (close_others-Closes fd ps l) λ u l' h. (omega (arith, h.0), h.1))
  | inr e ↦ rw e (
      Post-mono (close_others-Closes fd ps (closes p.writing ∷ closes p.reading ∷ l))
        λ u l' h. (omega (arith, h.0), h.1))
]

-- Both pipes of a result avoid 0, 1 and 2.
abbrev pub AreHigh : Option ((ℕ × ℕ) × (ℕ × ℕ)) → Type 0
AreHigh none = Unit {0}
AreHigh (some ((a, b), (c, d))) = ((2 < a) × (2 < b)) × ((2 < c) × (2 < d))

abbrev IsHigh : Option (ℕ × ℕ) → Type 0
IsHigh none = Unit {0}
IsHigh (some (a, b)) = (2 < a) × (2 < b)

-- What the rounds leave open, besides the pairs that are closed on the way.
abbrev Balances : ℕ → ℕ → Log → Option ((ℕ × ℕ) × (ℕ × ℕ)) → Log → Type 0
Balances fd earlier l r l' =
    count_closes fd l' + count_opens fd l + in_result fd r
    ≡ count_closes fd l + count_opens fd l' + earlier

abbrev Leaves : ℕ → ℕ → Log → Option ((ℕ × ℕ) × (ℕ × ℕ)) → Log → Type 0
Leaves fd earlier l r l' = Balances fd earlier l r l' × AreHigh r

-- The first pipe is kept if it is high.
first_kept :
    (fd a b : ℕ)
    → in_pipe fd (if both_high a b then some (a, b) else none)
      ≡ (if both_high a b then in_pipe fd (some (a, b)) else 0)
first_kept fd a b = elim (Bool-cases (both_high a b)) [ inl e ↦ rw e refl | inr e ↦ rw e refl ]

first-IsHigh : (a b : ℕ) → IsHigh (if both_high a b then some (a, b) else none)
first-IsHigh a b = elim (Bool-cases (both_high a b)) [ inl e ↦ rw e (high a b e) | inr e ↦ rw e tt ]
  where
    high : (a b : ℕ) → both_high a b ≡ true → (2 < a) × (2 < b)
    high a b e = (ground arith, ground arith)

module _ (os : Os) (fd : ℕ) where
  pipe_rounds-Leaves :
      (rounds : ℕ) (earlier : List SockPair) (infd : Option (ℕ × ℕ)) (l : Log)
      → in_pipe fd infd ≡ in_kept fd earlier
      → IsHigh infd
      → Post (Leaves fd (in_pairs fd earlier) l) (pipe_rounds os rounds earlier infd l)
  unfolding pipe_rounds count_closes count_opens in_pairs in_kept
  pipe_rounds-Leaves zero earlier infd l kept high = post tt
  pipe_rounds-Leaves (suc rounds) earlier none l kept high = elim (Io-cases (os.pipe l)) [
    | inl (e, failure) ↦
        rw (failure, pipe_rounds)
          (Post-bind (close_all-Closes fd earlier (pipe_fails ∷ l))
            λ u l' h. post (omega (arith, h.0, h.1), tt))
    | inr ((a, b), made) ↦
        let pair : SockPair = record { reading = a; writing = b; kept = both_high a b } in
        rw (made, pipe_rounds)
          (Post-mono
            (pipe_rounds-Leaves rounds (earlier ++ pair ∷ [])
              (if both_high a b then some (a, b) else none) (pipes a b ∷ l)
              (first_kept fd a b ∙ omega (arith, kept, in_kept-append fd earlier pair))
              (first-IsHigh a b))
            λ r l' h. (omega (arith, h.0, in_pairs-append fd earlier pair), h.1))
  ]
  pipe_rounds-Leaves (suc rounds) earlier (some first) l kept high = elim (Io-cases (os.pipe l)) [
    | inl (e, failure) ↦
        rw (failure, pipe_rounds)
          (Post-bind (close_all-Closes fd earlier (pipe_fails ∷ l))
            λ u l' h. post (omega (arith, h.0, h.1), tt))
    | inr ((a, b), made) ↦ elim (Bool-cases (both_high a b)) [
      | inl e ↦
          rw (made, pipe_rounds, e)
            (Post-bind (close_others-Closes fd earlier (pipes a b ∷ l))
              λ u l' h. post (omega (arith, h.0, h.1, kept), (high, (ground arith, ground arith))))
      | inr e ↦
          let pair : SockPair = record { reading = a; writing = b; kept = false } in
          rw (made, pipe_rounds, e)
            (Post-mono
              (pipe_rounds-Leaves rounds (earlier ++ pair ∷ []) (some first) (pipes a b ∷ l)
                (omega (arith, kept, in_kept-append fd earlier pair)) high)
              λ r l' h. (omega (arith, h.0, in_pairs-append fd earlier pair), h.1))
    ]
  ]

-- For every system, where CreateTwoHighNumberedPipes returns, each descriptor was given by
-- pipe as often more than it was closed as it stands in the result: besides the two pipes of
-- the result nothing stays open and nothing is closed twice, and behind a failed pipe nothing
-- stays open at all. The four descriptors of a result are above 2.
pub create_two_high_numbered_pipes_lem :
    (os : Os) (l : Log)
    → Post
        (λ r l'.
          ((fd : ℕ)
            → count_closes fd l' + count_opens fd l + in_result fd r
              ≡ count_closes fd l + count_opens fd l')
          × AreHigh r)
        (create_two_high_numbered_pipes os l)
unfolding create_two_high_numbered_pipes in_pairs in_kept
create_two_high_numbered_pipes_lem os l =
    gather (pipe_rounds os 5 [] none l) λ fd. pipe_rounds-Leaves os fd 5 [] none l refl tt
  where
    gather :
        (m : Outcome (Option ((ℕ × ℕ) × (ℕ × ℕ)) × Log))
        → ((fd : ℕ) → Post (Leaves fd (in_pairs fd []) l) m)
        → Post
            (λ r l'.
              ((fd : ℕ)
                → count_closes fd l' + count_opens fd l + in_result fd r
                  ≡ count_closes fd l + count_opens fd l')
              × AreHigh r)
            m
    gather (ok (r, l')) h = post ((λ fd. omega (arith, (h fd).returned.0)), (h 0).returned.1)
    gather die h = post tt
    gather undefined h = post tt
    gather spent h = post tt
