-- ===== src/Common/Names.antt =====
-- What `StripModuleName` and `ModuleArchToString` return.
use sanitizer_symbolizer_too.Prelude.{
  ℕ, ◌≡◌, refl, ap, true, false, ◌⊎◌, inl, inr, Option, none, some, [], ◌∷◌, ◌++◌, arith, Bytes,
  ◌==◌, Bool-cases, All,
}
use sanitizer_symbolizer_too.Common.{strrchr, strip_module_name}

abbrev pub HasNo : ℕ → Bytes → Type 0
HasNo c = All (λ d. (d == c) ≡ false)

-- What `strrchr` finds: the rest holds no further `c`; and it fails only where no `c` is.
abbrev LastOf : ℕ → Bytes → Option Bytes → Type 0
LastOf c s none = HasNo c s
LastOf c s (some rest) = (front : Bytes) × (s ≡ front ++ c ∷ rest) × HasNo c rest

eq : (d c : ℕ) → (d == c) ≡ true → d ≡ c
eq d c h = ground arith

LastOf-cons :
    (c d : ℕ) (s : Bytes) (found : Option Bytes)
    → strrchr s c ≡ found
    → LastOf c s found
    → LastOf c (d ∷ s) (strrchr (d ∷ s) c)
unfolding strrchr
LastOf-cons c d s none e h = elim (Bool-cases (d == c)) [
  | inl hit ↦ rw (e, strrchr, hit) ([], ap (λ x. x ∷ s) (eq d c hit), h)
  | inr miss ↦ rw (e, strrchr, miss) (miss, h)
]
LastOf-cons c d s (some rest) e (front, split, h) = rw (e, strrchr) (d ∷ front, ap (◌∷◌ d) split, h)

strrchr-LastOf : (c : ℕ) (s : Bytes) → LastOf c s (strrchr s c)
unfolding strrchr
strrchr-LastOf c [] = tt
strrchr-LastOf c (d ∷ s) = LastOf-cons c d s (strrchr s c) refl (strrchr-LastOf c s)

-- `base` is the last component of `path`.
abbrev pub IsBaseName : Bytes → Bytes → Type 0
IsBaseName path base =
    HasNo b'/' base × ((path ≡ base) ⊎ ((dir : Bytes) × (path ≡ dir ++ b'/' ∷ base)))

strip_found :
    (path : Bytes) (found : Option Bytes)
    → strrchr path b'/' ≡ found
    → LastOf b'/' path found
    → (base : Bytes) × (strip_module_name (some path) ≡ some base) × IsBaseName path base
unfolding strip_module_name
strip_found path none e h = (path, rw (e, strip_module_name), (h, inl refl))
strip_found path (some base) e (dir, split, h) =
    (base, rw (e, strip_module_name), (h, inr (dir, split)))

-- StripModuleName gives null for null, and for any other name its last component, behind the
-- last slash, which may be empty, or the whole name if it has no slash.
pub strip_module_name_lem :
    (module_path : Option Bytes)
    → ((module_path ≡ none) × (strip_module_name module_path ≡ none))
      ⊎ ((path : Bytes) × (base : Bytes) × (module_path ≡ some path)
          × (strip_module_name module_path ≡ some base)
          × IsBaseName path base)
unfolding strip_module_name
strip_module_name_lem none = inl (refl, refl)
strip_module_name_lem (some path) =
    let (base, e, is_base) = strip_found path (strrchr path b'/') refl (strrchr-LastOf b'/' path) in
    inr (path, base, refl, e, is_base)
