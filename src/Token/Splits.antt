-- ===== src/Token/Splits.antt =====
-- How the parsing helpers split their text.
use sanitizer_symbolizer_too.Prelude.{
  ℕ, zero, suc, ◌<◌, ◌≡◌, refl, sym, ap, ◌∙◌, true, false, ◌⊎◌, inl, inr, Option, none, some, [],
  ◌∷◌, ◌++◌, Bytes, Bool-cases, length, take, drop, take-append, take-length, drop-length,
  take-append-drop, length-take_of_le, drop-append,
}
use sanitizer_symbolizer_too.Clib.{elem, starts_with, strcspn, strstr}
use sanitizer_symbolizer_too.Clib.Laws.{
  NoneOf, strcspn-append, strcspn-none, starts_with_split, strstr-Finds, Finds,
}
use sanitizer_symbolizer_too.Token.{skip, extract_token, extract_token_up_to_delimiter}

-- A token in front of a delimiter.
pub extract_token-append :
    (s : Bytes) (d : ℕ) (rest delims : Bytes)
    → NoneOf delims s
    → elem d delims ≡ true
    → extract_token (s ++ d ∷ rest) delims ≡ (s, rest)
unfolding extract_token
extract_token-append s d rest delims h e =
    rw (strcspn-append s d rest delims h e, take-append s (d ∷ rest), drop-append s (d ∷ rest))

-- A text with no delimiter is one token.
pub extract_token-none : (s delims : Bytes) → NoneOf delims s → extract_token s delims ≡ (s, [])
unfolding extract_token
extract_token-none s delims h = rw (strcspn-none s delims h, take-length s, drop-length s) refl

-- The ways to split a text at its first delimiter.
pub data Split (str delims tok rest : Bytes) : Type 0 where
  whole : str ≡ tok → rest ≡ [] → Split str delims tok rest
  before : (d : ℕ) → elem d delims ≡ true → str ≡ tok ++ d ∷ rest → Split str delims tok rest

Split-cons :
    {s delims tok rest : Bytes} (c : ℕ)
    → Split s delims tok rest
    → Split (c ∷ s) delims (c ∷ tok) rest
Split-cons c (whole a b) = whole (ap (◌∷◌ c) a) b
Split-cons c (before d e a) = before d e (ap (◌∷◌ c) a)

-- For every text and delimiters the token of ExtractToken has no delimiter, and it ends at the
-- first delimiter, which is dropped, or it is the whole text.
pub extract_token-Split :
    (str delims : Bytes)
    → NoneOf delims (extract_token str delims).0
      × Split str delims (extract_token str delims).0 (extract_token str delims).1
unfolding extract_token strcspn
extract_token-Split [] delims = (tt, whole refl refl)
extract_token-Split (c ∷ s) delims = elim (Bool-cases (elem c delims)) [
  | inl stop ↦ rw stop (tt, before c stop refl)
  | inr go ↦ let ih = extract_token-Split s delims in rw go ((go, ih.0), Split-cons c ih.1)
]

-- What `ExtractTokenUpToDelimiter` returns, in terms of the first occurrence of the delimiter.
abbrev pub UpTo : Bytes → Bytes → Bytes → Bytes → Type 0
UpTo str delimiter tok rest =
    (((k : ℕ) → starts_with (drop k str) delimiter ≡ false) × (tok ≡ str) × (rest ≡ []))
    ⊎ ((str ≡ tok ++ (delimiter ++ rest))
        × ((k : ℕ) → k < length tok → starts_with (drop k str) delimiter ≡ false))

skip-lem : (n : ℕ) (s : Bytes) → skip n s ≡ drop n s
skip-lem zero [] = refl
skip-lem (suc n) [] = refl
skip-lem n (c ∷ s) = refl

UpTo-found :
    (str delimiter : Bytes) (found : Option ℕ)
    → strstr str delimiter ≡ found
    → Finds str delimiter found
    → UpTo str delimiter
        (extract_token_up_to_delimiter str delimiter).0
        (extract_token_up_to_delimiter str delimiter).1
unfolding extract_token_up_to_delimiter
UpTo-found str delimiter none e h = rw e (inl (h, take-length str, rw (drop-length str)))
UpTo-found str delimiter (some n) e (b, at_n, first) =
    let found = sym (take-append-drop n str) in
    let behind = starts_with_split (drop n str) delimiter at_n in
    rw (e, skip-lem)
      (inr (found ∙ ap (◌++◌ (take n str)) behind, rw (length-take_of_le n str b) first))

-- For every text and delimiter ExtractTokenUpToDelimiter gives the text before the first
-- occurrence of the delimiter and the text behind it, or the whole text and nothing if the
-- delimiter does not occur.
pub extract_token_up_to_delimiter_lem :
    (str delimiter : Bytes)
    → UpTo str delimiter
        (extract_token_up_to_delimiter str delimiter).0
        (extract_token_up_to_delimiter str delimiter).1
extract_token_up_to_delimiter_lem str delimiter =
    UpTo-found str delimiter (strstr str delimiter) refl (strstr-Finds str delimiter)
