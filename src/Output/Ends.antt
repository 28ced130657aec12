-- ===== src/Output/Ends.antt =====
-- The numbers at the end of a line: the loop of `ParseFileLineInfo` and the reference reader.
use sanitizer_symbolizer_too.Prelude.{
  ℕ, zero, suc, ◌+◌, ◌-◌, ◌≤◌, ◌<◌, ◌≡◌, ◌≢◌, refl, sym, ap, subst, ◌∙◌, true, false, inl, inr,
  Option, none, some, [], ◌∷◌, ◌++◌, arith, Bytes, ◌==◌, Bool-cases, Option-cases, length, take,
  drop, All, All-map, ok,
}
use native.Mathlib.Nat.{zero-add, suc-add}
use native.Mathlib.Decide.{dec_le}
use sanitizer_symbolizer_too.Clib.{byte_at}
use sanitizer_symbolizer_too.Common.{is_digit}
use sanitizer_symbolizer_too.Common.Names.{HasNo}
use sanitizer_symbolizer_too.Output.{skip_digits_back, no_number, number_rounds}
use sanitizer_symbolizer_too.Output.Numbers.{Digits, last_of, step_back-pos, length-pos_of}
use sanitizer_symbolizer_too.Output.Reader.{all_digits, split_last, numeral, number_at_end}

split_last-none : (s : Bytes) → HasNo b':' s → split_last s ≡ none
unfolding split_last
split_last-none [] h = refl
split_last-none (c ∷ s) h = rw (split_last-none s h.1, split_last, h.0) refl

split_last-append : (f r : Bytes) → HasNo b':' r → split_last (f ++ b':' ∷ r) ≡ some (f, r)
unfolding split_last
split_last-append [] r h = rw (split_last-none r h, split_last) refl
split_last-append (c ∷ f) r h = rw (split_last-append f r h, split_last) refl

split_last_sound : (s : Bytes) {f r : Bytes} → split_last s ≡ some (f, r) → s ≡ f ++ b':' ∷ r
unfolding split_last
split_last_sound [] e = cc
split_last_sound (c ∷ s) {f} {r} e = elim (Option-cases (split_last s)) [
  | inr ((f', r'), e') ↦
      let whole : ◌≡◌ {A = Option (Bytes × Bytes)} (some (c ∷ f', r')) (some (f, r)) =
        rw (e', split_last) at e in
      let pair : ◌≡◌ {A = Bytes × Bytes} (c ∷ f', r') (f, r) = cc in
      ap (◌∷◌ c) (split_last_sound s e') ∙ ap (λ p. p.0 ++ b':' ∷ p.1) pair
  | inl e' ↦ elim (Bool-cases (c == b':')) [
    | inl colon ↦
        let whole : ◌≡◌ {A = Option (Bytes × Bytes)} (some ([], s)) (some (f, r)) =
          rw (e', split_last, colon) at e in
        let pair : ◌≡◌ {A = Bytes × Bytes} ([], s) (f, r) = cc in
        let same : c ≡ b':' = ground arith in
        ap (λ d. d ∷ s) same ∙ ap (λ p. p.0 ++ b':' ∷ p.1) pair
    | inr other ↦
        let clash : ◌≡◌ {A = Option (Bytes × Bytes)} none (some (f, r)) =
          rw (e', split_last, other) at e in
        cc
  ]
]

all_digits-Digits : (s : Bytes) → all_digits s ≡ true → Digits s
unfolding all_digits
all_digits-Digits [] h = tt
all_digits-Digits (c ∷ s) h = (ground arith, all_digits-Digits s (ground arith))

Digits-all_digits : (s : Bytes) → Digits s → all_digits s ≡ true
unfolding all_digits
Digits-all_digits [] h = refl
Digits-all_digits (c ∷ s) h = rw (h.0, Digits-all_digits s h.1) refl

Digits-HasNo : (s : Bytes) → Digits s → HasNo b':' s
Digits-HasNo s = All-map _ _ (λ c e. ground arith) s

number_at_end-append :
    (f ds : Bytes) → ds ≢ [] → Digits ds → number_at_end (f ++ b':' ∷ ds) ≡ some (f, ds)
number_at_end-append f [] ne h = absurd (ne refl)
number_at_end-append f (d ∷ ds) ne h =
    ap numeral (split_last-append f (d ∷ ds) (Digits-HasNo (d ∷ ds) h))
    ∙ rw (Digits-all_digits (d ∷ ds) h) refl

cons-ne-nil : (c : ℕ) (s : Bytes) → c ∷ s ≢ []
cons-ne-nil c s e = cc

-- A number that is found is there.
pub number_at_end_sound :
    (s : Bytes) {f ds : Bytes}
    → number_at_end s ≡ some (f, ds)
    → (s ≡ f ++ b':' ∷ ds) × (ds ≢ []) × Digits ds
number_at_end_sound s {f} {ds} e = elim (Option-cases (split_last s)) [
  | inl e' ↦ let clash : ◌≡◌ {A = Option (Bytes × Bytes)} none (some (f, ds)) = rw e' at e in cc
  | inr ((f', r'), e') ↦ there f' r' (split_last_sound s e') (rw e' at e)
]
  where
    there :
        (f' r' : Bytes)
        → s ≡ f' ++ b':' ∷ r'
        → numeral (some (f', r')) ≡ some (f, ds)
        → (s ≡ f ++ b':' ∷ ds) × (ds ≢ []) × Digits ds
    there f' [] split e' = cc
    there f' (d ∷ r') split e' = elim (Bool-cases (all_digits (d ∷ r'))) [
      | inl digits ↦
          let found : ◌≡◌ {A = Option (Bytes × Bytes)} (some (f', d ∷ r')) (some (f, ds)) =
            rw digits at e' in
          let pair : ◌≡◌ {A = Bytes × Bytes} (f', d ∷ r') (f, ds) = cc in
          subst (λ p. (s ≡ p.0 ++ b':' ∷ p.1) × (p.1 ≢ []) × Digits p.1) pair
            (split, cons-ne-nil d r', all_digits-Digits (d ∷ r') digits)
      | inr other ↦
          let clash : ◌≡◌ {A = Option (Bytes × Bytes)} none (some (f, ds)) = rw other at e' in cc
    ]

-- Behind the walk there are digits only.
skip_digits_back-digits :
    (text : Bytes) (b i : ℕ)
    → skip_digits_back text b < i
    → i ≤ b
    → is_digit (byte_at text i) ≡ true
unfolding skip_digits_back
skip_digits_back-digits text zero i above below = absurd (omega arith)
skip_digits_back-digits text (suc b) i above below =
    elim (Bool-cases (is_digit (byte_at text (suc b)))) [
      | inr stop ↦ absurd (omega (arith, rw (skip_digits_back, stop) at above))
      | inl digit ↦ elim (dec_le i b) [
        | yes h ↦ skip_digits_back-digits text b i (rw (skip_digits_back, digit) at above) h
        | no h ↦ (let at_top : i ≡ suc b = omega arith in rw at_top digit)
      ]
    ]

All-byte_at : (P : ℕ → Type 0) (s : Bytes) → ((i : ℕ) → i < length s → P (byte_at s i)) → All P s
unfolding byte_at
All-byte_at P [] h = tt
All-byte_at P (c ∷ s) h = (h 0 (omega arith), All-byte_at P s λ i lt. h (suc i) (omega arith))

byte_at-drop : (n : ℕ) (s : Bytes) (i : ℕ) → byte_at (drop n s) i ≡ byte_at s (n + i)
unfolding byte_at
byte_at-drop zero s i = rw zero-add refl
byte_at-drop (suc n) [] i = refl
byte_at-drop (suc n) (c ∷ s) i = rw suc-add (byte_at-drop n s i)

length-drop : (n : ℕ) (s : Bytes) → length (drop n s) ≡ length s - n
length-drop zero s = omega arith
length-drop (suc n) [] = omega arith
length-drop (suc n) (c ∷ s) = omega (arith, length-drop n s)

byte_at-past : (s : Bytes) (i : ℕ) → length s ≤ i → byte_at s i ≡ 0
unfolding byte_at
byte_at-past [] i h = refl
byte_at-past (c ∷ s) zero h = absurd (omega arith)
byte_at-past (c ∷ s) (suc i) h = byte_at-past s i (omega arith)

split_at : (b : ℕ) (s : Bytes) → b < length s → s ≡ take b s ++ byte_at s b ∷ drop (suc b) s
unfolding byte_at
split_at b [] h = absurd (omega arith)
split_at zero (c ∷ s) h = refl
split_at (suc b) (c ∷ s) h = ap (◌∷◌ c) (split_at b s (omega arith))

-- Where the loop finds a number, the reader does.
walk-number :
    (text : Bytes) (b : ℕ)
    → b ≡ skip_digits_back text (length text - 1)
    → no_number text b ≡ false
    → (f : Bytes) × (ds : Bytes) × (number_at_end text ≡ some (f, ds))
walk-number text b e found =
    let colon : byte_at text b ≡ b':' = ground arith in
    let digit : is_digit (byte_at text (suc b)) ≡ true = ground arith in
    let inside : suc b < length text = elim (dec_le (length text) (suc b)) [
      | yes h ↦ (let clash : is_digit 0 ≡ true = rw (byte_at-past text (suc b) h) at digit in cc)
      | no h ↦ omega arith
    ] in
    let digits : Digits (drop (suc b) text) = All-byte_at _ (drop (suc b) text) λ i lt.
      rw (byte_at-drop (suc b) text i) (
        skip_digits_back-digits text (length text - 1) (suc b + i) (omega arith)
          (omega (arith, length-drop (suc b) text))) in
    let some_digit : drop (suc b) text ≢ [] =
      λ nil. absurd (omega (arith, length-drop (suc b) text, ap length nil)) in
    let whole : text ≡ take b text ++ b':' ∷ drop (suc b) text =
      split_at b text (omega arith) ∙ ap (λ c. take b text ++ c ∷ drop (suc b) text) colon in
    (
      take b text,
      drop (suc b) text,
      ap number_at_end whole
          ∙ number_at_end-append (take b text) (drop (suc b) text) some_digit digits,
    )

-- A round of the loop, where the reader finds no number.
pub number_rounds-none :
    (rounds lin col : ℕ) (text : Bytes)
    → text ≢ []
    → number_at_end text ≡ none
    → (b : Option ℕ) × (number_rounds
          (suc rounds)
          (record { text = text; back = last_of text; lin = lin; col = col })
        ≡ ok (record { text = text; back = b; lin = lin; col = col }))
unfolding number_rounds
number_rounds-none rounds lin col text ne e =
    let b = skip_digits_back text (length text - 1) in
    elim (Bool-cases (no_number text b)) [
      | inl stop ↦
          (some b, rw (step_back-pos (length text) (length-pos_of ne), number_rounds, stop) refl)
      | inr found ↦
          let (f, ds, there) = walk-number text b refl found in
          let clash : ◌≡◌ {A = Option (Bytes × Bytes)} none (some (f, ds)) = sym e ∙ there in cc
    ]
