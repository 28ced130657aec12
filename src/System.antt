-- ===== src/System.antt =====
-- The operating system as the program sees it. Its answers are functions of what was called before,
-- so a statement about every `Os` is one about every behaviour of the system and of the children.
pub mod Monad
pub mod Post
use sanitizer_symbolizer_too.Prelude.{
  ℕ, zero, suc, ◌+◌, ◌-◌, ◌*◌, ◌/◌, ◌%◌, ◌^◌, ◌≤◌, ◌<◌, ◌≡◌, ◌≢◌, ◌↔◌, refl, sym, ap, subst, ◌∙◌,
  ◌≡⟨◌⟩◌, ◌∎, Bool, true, false, not, ◌&&◌, ◌||◌, ◌⊎◌, inl, inr, Option, none, some, List, [], ◌∷◌,
  ◌++◌, map, arith, Bytes, codes, ltb, leb, ◌==◌, ==-refl, ==-ne, if◌then◌else◌, Bool-cases,
  Option-cases, length, length-append, length-drop-le, take, drop, take-append, take-length,
  drop-length, take-append-drop, length-take_of_le, drop-append, get_elem?, All, All-append,
  All-map, append_assoc, append-nil, Outcome, ok, die, undefined, spent, then_do, then_do-eq-ok,
}

-- A file descriptor or a process id; -1 is `none`.
abbrev pub Fd : Type 0
Fd = Option ℕ

abbrev pub Pid : Type 0
Pid = Option ℕ

-- The result of a call that may fail, with `errno`.
pub data Io (A : Type 0) : Type 0 where
  failed : ℕ → Io A
  done : A → Io A

pub Io-cases : {A : Type 0} (r : Io A) → ((e : ℕ) × (r ≡ failed e)) ⊎ ((a : A) × (r ≡ done a))
Io-cases (failed e) = inl (e, refl)
Io-cases (done a) = inr (a, refl)

pub data Wait : Type 0 where
  wait_failed : ℕ → Wait
  still_running : Wait
  reaped : ℕ → Wait

pub data FileKind : Type 0 where
  regular directory special : FileKind

pub record OpenFlags : Type 0 where
  pub reads : Bool
  pub writes : Bool
  pub creates : Bool
  pub truncates : Bool

-- The error of a write to a pipe that has no reader.
abbrev pub epipe : ℕ
epipe = 32

-- The warnings that `SAYSTH` prints.
pub data Warning : Type 0 where
  cannot_read cannot_write failed_to_use invalid_path cannot_create_pipes fork_failed : Warning
  did_not_start wait_did_not_work kill_did_not_work not_killed command_too_long blocked_itself :
      Warning

-- What the program did. The answer of a call is part of its event where it opens or frees something.
pub data Event : Type 0 where
  reads_from : ℕ → Event
  writes_to : ℕ → Bytes → Event
  closes : ℕ → Event
  pipes : ℕ → ℕ → Event
  pipe_fails : Event
  opens : Bytes → OpenFlags → Event
  forks : Bytes → List (Option Bytes) → Event
  waits : ℕ → Bool → Event
  kills : ℕ → Event
  stats : Bytes → Event
  accesses : Option Bytes → Event
  sleeps : ℕ → Event
  says : Warning → Event

-- The newest event stands first.
abbrev pub Log : Type 0
Log = List Event

-- The architectures that `kSymbolizerArch` distinguishes.
pub data Target : Type 0 where
  x86_64h x86_64 i386 loongarch64 riscv64 aarch64 arm powerpc64_big powerpc64_little : Target
  s390x s390 other : Target

-- `waitpid` takes the flag WNOHANG. `capacity` is what `std::vector` reserves for a size. `fork`
-- is seen from the parent.
pub record Os : Type 0 where
  pub target : Target
  pub read : Log → ℕ → ℕ → Io Bytes
  pub write : Log → ℕ → Bytes → Io ℕ
  pub pipe : Log → Io (ℕ × ℕ)
  pub open_path : Log → Bytes → OpenFlags → Io ℕ
  pub fork : Log → Io ℕ
  pub waitpid : Log → ℕ → Bool → Wait
  pub kill : Log → ℕ → Io (Unit {0})
  pub stat : Log → Bytes → Option FileKind
  pub access : Log → Option Bytes → Bool
  pub capacity : Log → ℕ → ℕ
