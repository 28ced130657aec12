-- ===== src/Clib.antt =====
-- The functions of the C library that the program calls, on strings without their final NUL.
pub mod Number
pub mod Laws
use sanitizer_symbolizer_too.Prelude.{
  ℕ, zero, suc, ◌+◌, ◌-◌, ◌*◌, ◌/◌, ◌%◌, ◌^◌, ◌≤◌, ◌<◌, ◌≡◌, ◌≢◌, ◌↔◌, refl, sym, ap, subst, ◌∙◌,
  ◌≡⟨◌⟩◌, ◌∎, Bool, true, false, not, ◌&&◌, ◌||◌, ◌⊎◌, inl, inr, Option, none, some, List, [], ◌∷◌,
  ◌++◌, map, arith, Bytes, codes, ltb, leb, ◌==◌, ==-refl, ==-ne, if◌then◌else◌, Bool-cases,
  Option-cases, length, length-append, length-drop-le, take, drop, take-append, drop-append,
  get_elem?, All, All-append, append_assoc, append-nil, Outcome, ok, die, undefined, spent, then_do,
  then_do-eq-ok,
}

-- The byte at an index. At the end of the string it is the final NUL.
unfoldable pub byte_at : Bytes → ℕ → ℕ
byte_at [] i = 0
byte_at (c ∷ s) zero = c
byte_at (c ∷ s) (suc i) = byte_at s i

-- `data()` of a buffer read as a C string: the bytes before the first NUL.
unfoldable pub c_str : Bytes → Bytes
c_str [] = []
c_str (c ∷ s) = if c == 0 then [] else c ∷ c_str s

unfoldable pub elem : ℕ → Bytes → Bool
elem c [] = false
elem c (d ∷ ds) = c == d || elem c ds

unfoldable pub strcspn : Bytes → Bytes → ℕ
strcspn [] delims = 0
strcspn (c ∷ s) delims = if elem c delims then 0 else suc (strcspn s delims)

-- `strcmp(a, b) == 0`
unfoldable pub strcmp_eq : Bytes → Bytes → Bool
strcmp_eq [] [] = true
strcmp_eq (x ∷ xs) (y ∷ ys) = x == y && strcmp_eq xs ys
strcmp_eq _ _ = false

-- `strncmp(s, prefix, strlen(prefix)) == 0`
unfoldable pub starts_with : Bytes → Bytes → Bool
starts_with s [] = true
starts_with [] (p ∷ ps) = false
starts_with (c ∷ s) (p ∷ ps) = c == p && starts_with s ps

abbrev pub next : Option ℕ → Option ℕ
next none = none
next (some n) = some (suc n)

-- The position that `strstr` finds.
unfoldable pub strstr : Bytes → Bytes → Option ℕ
unfolding starts_with
strstr [] delimiter = if starts_with [] delimiter then some 0 else none
strstr (c ∷ s) delimiter =
    let later = next (strstr s delimiter) in if starts_with (c ∷ s) delimiter then some 0 else later
