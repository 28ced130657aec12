-- ===== src/System/Post.antt =====
-- Postconditions of code that calls the system, and counts of events in a log.
use sanitizer_symbolizer_too.Prelude.{
  ℕ, suc, ◌+◌, [], ◌∷◌, ◌==◌, if◌then◌else◌, Outcome, ok, die, undefined, spent, then_do,
}
use sanitizer_symbolizer_too.System.Monad.{lift, ◌>>=◌}
use sanitizer_symbolizer_too.System.{closes, forks, kills, Log}

-- What holds when the code returns. Nothing is said of a run that ends the program or runs on.
abbrev pub Returned : {A : Type 0} → (A → Log → Type 0) → Outcome (A × Log) → Type 0
Returned P (ok (a, l)) = P a l
Returned P die = Unit
Returned P undefined = Unit
Returned P spent = Unit

-- A record, so that the predicate and the code can be read off its type.
pub record Post {A : Type 0} (P : A → Log → Type 0) (m : Outcome (A × Log)) : Type 0 where
  pub returned : Returned P m

pub post : {A : Type 0} {P : A → Log → Type 0} {m : Outcome (A × Log)} → Returned P m → Post P m
post h = record { returned = h }

module _ {A B : Type 0} {Q : A → Log → Type 0} {P : B → Log → Type 0} where
  pub Post-bind :
      {m : Outcome (A × Log)} {f : A → Log → Outcome (B × Log)}
      → Post Q m
      → ((a : A) (l : Log) → Q a l → Post P (f a l))
      → Post P (then_do m λ r. f r.0 r.1)
  Post-bind {m = ok (a, l)} h k = k a l h.returned
  Post-bind {m = die} h k = post tt
  Post-bind {m = undefined} h k = post tt
  Post-bind {m = spent} h k = post tt

module _ {A B : Type 0} (P : B → Log → Type 0) where
  pub Post-lift :
      (m : Outcome A) (f : A → Log → Outcome (B × Log)) (l : Log)
      → ((a : A) → Post P (f a l))
      → Post P ((lift m >>= f) l)
  Post-lift (ok a) f l k = k a
  Post-lift die f l k = post tt
  Post-lift undefined f l k = post tt
  Post-lift spent f l k = post tt

pub Post-any : {A : Type 0} (m : Outcome (A × Log)) → Post (λ a l. Unit {0}) m
Post-any (ok (a, l)) = post tt
Post-any die = post tt
Post-any undefined = post tt
Post-any spent = post tt

module _ {A : Type 0} {Q P : A → Log → Type 0} where
  pub Post-mono :
      {m : Outcome (A × Log)} → Post Q m → ((a : A) (l : Log) → Q a l → P a l) → Post P m
  Post-mono {m = ok (a, l)} h k = post (k a l h.returned)
  Post-mono {m = die} h k = post tt
  Post-mono {m = undefined} h k = post tt
  Post-mono {m = spent} h k = post tt

-- What holds of a run that does return: no other outcome is allowed.
abbrev pub Ended : {A : Type 0} → (A → Log → Type 0) → Outcome (A × Log) → Type 0
Ended P (ok (a, l)) = P a l
Ended P die = ⊥
Ended P undefined = ⊥
Ended P spent = ⊥

-- A postcondition together with the return.
pub record Ends {A : Type 0} (P : A → Log → Type 0) (m : Outcome (A × Log)) : Type 0 where
  pub ended : Ended P m

pub ends : {A : Type 0} {P : A → Log → Type 0} {m : Outcome (A × Log)} → Ended P m → Ends P m
ends h = record { ended = h }

module _ {A B : Type 0} {Q : A → Log → Type 0} {P : B → Log → Type 0} where
  pub Ends-bind :
      {m : Outcome (A × Log)} {f : A → Log → Outcome (B × Log)}
      → Ends Q m
      → ((a : A) (l : Log) → Q a l → Ends P (f a l))
      → Ends P (then_do m λ r. f r.0 r.1)
  Ends-bind {m = ok (a, l)} h k = k a l h.ended
  Ends-bind {m = die} h k = absurd h.ended
  Ends-bind {m = undefined} h k = absurd h.ended
  Ends-bind {m = spent} h k = absurd h.ended

module _ {A : Type 0} {Q P : A → Log → Type 0} where
  -- A run that ends has what every returning run has.
  pub Ends-Post : {m : Outcome (A × Log)} → Ends Q m → Post P m → Ends P m
  Ends-Post {m = ok (a, l)} h p = ends p.returned
  Ends-Post {m = die} h p = absurd h.ended
  Ends-Post {m = undefined} h p = absurd h.ended
  Ends-Post {m = spent} h p = absurd h.ended

module _ {A : Type 0} {P : A → Log → Type 0} where
  pub Post-of_Ends : {m : Outcome (A × Log)} → Ends P m → Post P m
  Post-of_Ends {m = ok (a, l)} h = post h.ended
  Post-of_Ends {m = die} h = absurd h.ended
  Post-of_Ends {m = undefined} h = absurd h.ended
  Post-of_Ends {m = spent} h = absurd h.ended

-- The children that were started.
unfoldable pub count_forks : Log → ℕ
count_forks [] = 0
count_forks (forks program argv ∷ l) = suc (count_forks l)
count_forks (_ ∷ l) = count_forks l

-- The SIGKILLs that were sent.
unfoldable pub count_kills : Log → ℕ
count_kills [] = 0
count_kills (kills pid ∷ l) = suc (count_kills l)
count_kills (_ ∷ l) = count_kills l

-- How often a descriptor was closed.
unfoldable pub count_closes : ℕ → Log → ℕ
count_closes fd [] = 0
count_closes fd (closes fd' ∷ l) = (if fd == fd' then 1 else 0) + count_closes fd l
count_closes fd (_ ∷ l) = count_closes fd l
