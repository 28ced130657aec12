-- ===== src/System/Monad.antt =====
-- Code that calls the system: a state monad over the log, with the outcomes of C++ code.
use sanitizer_symbolizer_too.Prelude.{
  Bool, true, false, ◌∷◌, if◌then◌else◌, Outcome, ok, die, then_do,
}
use sanitizer_symbolizer_too.System.{Warning, Event, says, Log}

abbrev pub Sys : Type 0 → Type 0
Sys A = Log → Outcome (A × Log)

abbrev pub pure : {A : Type 0} → A → Sys A
pure a l = ok (a, l)

infixl 5 ◌>>=◌ ◌>>◌
abbrev pub ◌>>=◌ : {A B : Type 0} → Sys A → (A → Sys B) → Sys B
◌>>=◌ m f l = then_do (m l) λ r. f r.0 r.1

abbrev pub ◌>>◌ : {B : Type 0} → Sys (Unit {0}) → Sys B → Sys B
m >> k = m >>= λ _. k

-- One event.
abbrev pub emit : Event → Sys (Unit {0})
emit e l = ok (tt, e ∷ l)

-- `SAYSTH(...)`, whose text is left out.
abbrev pub say_sth : Warning → Sys (Unit {0})
say_sth w = emit (says w)

-- The answer of the system to a call, which is then in the log.
abbrev pub answer : {A : Type 0} → (Log → A) → Event → Sys A
answer f e l = ok (f l, e ∷ l)

abbrev pub log_now : Sys Log
log_now l = ok (l, l)

-- An outcome of code that makes no call.
abbrev pub lift : {A : Type 0} → Outcome A → Sys A
lift m l = then_do m λ a. ok (a, l)

-- `CheckFailed` prints, and `Die` ends the program.
abbrev check_failed : {A : Type 0} → Outcome A
check_failed = die

-- `CHECK(b)`
abbrev pub check : Bool → Sys (Unit {0})
check true l = ok (tt, l)
check false l = check_failed

abbrev pub when : Bool → Sys (Unit {0}) → Sys (Unit {0})
when b m = if b then m else pure tt

-- `auto guard = at_scope_exit(cleanup);`: `cleanup` runs when the scope is left.
abbrev pub at_scope_exit : {A : Type 0} → Sys (Unit {0}) → Sys A → Sys A
at_scope_exit cleanup scope = scope >>= λ a. cleanup >>= λ _. pure a
