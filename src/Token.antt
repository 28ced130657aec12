-- ===== src/Token.antt =====
-- lib/symbolizer.cpp: the parsing helpers. `malloc` is taken to succeed, so `*result` is the token.
pub mod Splits
use sanitizer_symbolizer_too.Prelude.{
  ℕ, zero, suc, ◌+◌, ◌-◌, ◌*◌, ◌/◌, ◌%◌, ◌^◌, ◌≤◌, ◌<◌, ◌≡◌, ◌≢◌, ◌↔◌, refl, sym, ap, subst, ◌∙◌,
  ◌≡⟨◌⟩◌, ◌∎, Bool, true, false, not, ◌&&◌, ◌||◌, ◌⊎◌, inl, inr, Option, none, some, List, [], ◌∷◌,
  ◌++◌, map, arith, Bytes, codes, ltb, leb, ◌==◌, ==-refl, ==-ne, if◌then◌else◌, Bool-cases,
  Option-cases, length, length-append, length-drop-le, take, drop, take-append, drop-append,
  get_elem?, All, All-append, append_assoc, append-nil, Outcome, ok, die, undefined, spent, then_do,
  then_do-eq-ok,
}
use sanitizer_symbolizer_too.Prelude.Int.{ℤ}
use sanitizer_symbolizer_too.Clib.{strcspn, strstr}
use sanitizer_symbolizer_too.Clib.Number.{atoll, to_int, to_uptr}

-- `if (*prefix_end != '\0') prefix_end += n`
abbrev pub skip : ℕ → Bytes → Bytes
skip n [] = []
skip n (c ∷ s) = drop n (c ∷ s)

-- The token, and the text that the returned pointer points to.
unfoldable pub extract_token : Bytes → Bytes → Bytes × Bytes
extract_token str delims =
    let prefix_len = strcspn str delims in (take prefix_len str, skip 1 (drop prefix_len str))

unfoldable pub extract_int : Bytes → Bytes → ℤ × Bytes
extract_int str delims = let (buff, ret) = extract_token str delims in (to_int (atoll buff), ret)

unfoldable pub extract_uptr : Bytes → Bytes → ℕ × Bytes
extract_uptr str delims = let (buff, ret) = extract_token str delims in (to_uptr (atoll buff), ret)

-- A `sptr` is a `long long`: the conversion keeps the value.
unfoldable pub extract_sptr : Bytes → Bytes → ℤ × Bytes
extract_sptr str delims = let (buff, ret) = extract_token str delims in (atoll buff, ret)

unfoldable pub extract_token_up_to_delimiter : Bytes → Bytes → Bytes × Bytes
extract_token_up_to_delimiter str delimiter =
    let prefix_len : ℕ = elim (strstr str delimiter) [ some found ↦ found | none ↦ length str ] in
    (take prefix_len str, skip (length delimiter) (drop prefix_len str))
