-- ===== src/Clib/Laws.antt =====
-- What the C library's string functions find.
use sanitizer_symbolizer_too.Prelude.{
  ℕ, zero, suc, ◌≤◌, ◌<◌, ◌≡◌, ◌↔◌, refl, ap, true, false, inl, inr, Option, none, some, [], ◌∷◌,
  ◌++◌, arith, Bytes, Bool-cases, length, drop, All,
}
use sanitizer_symbolizer_too.Clib.{elem, strcspn, strcmp_eq, starts_with, strstr, next}

-- None of the bytes is one of `delims`.
abbrev pub NoneOf : Bytes → Bytes → Type 0
NoneOf delims = All (λ c. elem c delims ≡ false)

pub strcspn-append :
    (s : Bytes) (d : ℕ) (rest delims : Bytes)
    → NoneOf delims s
    → elem d delims ≡ true
    → strcspn (s ++ d ∷ rest) delims ≡ length s
unfolding strcspn
strcspn-append [] d rest delims h e = rw e
strcspn-append (c ∷ s) d rest delims h e = rw (h.0) (ap suc (strcspn-append s d rest delims h.1 e))

pub strcspn-none : (s delims : Bytes) → NoneOf delims s → strcspn s delims ≡ length s
unfolding strcspn
strcspn-none [] delims h = refl
strcspn-none (c ∷ s) delims h = rw (h.0) (ap suc (strcspn-none s delims h.1))

pub strcmp_eq_iff : (a b : Bytes) → (strcmp_eq a b ≡ true) ↔ (a ≡ b)
unfolding strcmp_eq
strcmp_eq_iff (x ∷ a) (y ∷ b) = ground (arith, strcmp_eq_iff a b)
strcmp_eq_iff _ _ = ground arith

pub starts_with_split : (s p : Bytes) → starts_with s p ≡ true → s ≡ p ++ drop (length p) s
unfolding starts_with
starts_with_split s [] h = refl
starts_with_split [] (x ∷ p) h = cc
starts_with_split (c ∷ s) (x ∷ p) h = ground (arith, starts_with_split s p)

-- What a search finds is the first occurrence, and it fails only where there is none.
abbrev pub Finds : Bytes → Bytes → Option ℕ → Type 0
Finds s delimiter none = (k : ℕ) → starts_with (drop k s) delimiter ≡ false
Finds s delimiter (some n) =
    (n ≤ length s)
    × (starts_with (drop n s) delimiter ≡ true)
    × ((k : ℕ) → k < n → starts_with (drop k s) delimiter ≡ false)

module _ (c : ℕ) (s delimiter : Bytes) (miss : starts_with (c ∷ s) delimiter ≡ false) where
  Finds-cons : (found : Option ℕ) → Finds s delimiter found → Finds (c ∷ s) delimiter (next found)
  Finds-cons none h = λ k. behind k
    where
      behind : (k : ℕ) → starts_with (drop k (c ∷ s)) delimiter ≡ false
      behind zero = miss
      behind (suc k) = h k
  Finds-cons (some n) (b, e, h) = (omega arith, e, before)
    where
      before : (k : ℕ) → k < suc n → starts_with (drop k (c ∷ s)) delimiter ≡ false
      before zero lt = miss
      before (suc k) lt = h k (omega arith)

strstr-nil : (delimiter : Bytes) → Finds [] delimiter (strstr [] delimiter)
unfolding strstr starts_with
strstr-nil [] = (omega arith, refl, λ k lt. absurd (omega arith))
strstr-nil (p ∷ ps) = miss
  where
    miss : (k : ℕ) → starts_with (drop k []) (p ∷ ps) ≡ false
    miss zero = refl
    miss (suc k) = refl

pub strstr-Finds : (s delimiter : Bytes) → Finds s delimiter (strstr s delimiter)
unfolding strstr
strstr-Finds [] delimiter = strstr-nil delimiter
strstr-Finds (c ∷ s) delimiter = elim (Bool-cases (starts_with (c ∷ s) delimiter)) [
  | inl here ↦ rw here (omega arith, here, λ k lt. absurd (omega arith))
  | inr miss ↦
      rw miss (Finds-cons c s delimiter miss (strstr s delimiter) (strstr-Finds s delimiter))
]

pub elem-of_eq : (d : ℕ) → elem d (d ∷ []) ≡ true
unfolding elem
elem-of_eq d = ground arith
