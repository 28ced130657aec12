-- ===== src/Output/Numbers.antt =====
-- `ParseFileLineInfo` on the lines that the symbolizers print.
use sanitizer_symbolizer_too.Prelude.{
  ℕ, zero, suc, ◌+◌, ◌-◌, ◌≤◌, ◌<◌, ◌≡◌, ◌≢◌, refl, sym, ap, ◌∙◌, true, false, Option, some, [],
  ◌∷◌, ◌++◌, arith, Bytes, ◌==◌, length, length-append, drop, take-append, All, ok,
}
use native.Mathlib.Nat.{add-zero, zero-add, suc-add}
use native.Mathlib.Decide.{dec_le}
use sanitizer_symbolizer_too.Clib.{byte_at}
use sanitizer_symbolizer_too.Common.{is_digit}
use sanitizer_symbolizer_too.Common.Names.{HasNo}
use sanitizer_symbolizer_too.Output.{skip_digits_back, step_back, no_number, number_rounds}
use sanitizer_symbolizer_too.Clib.Number.{atoll, to_uptr}

abbrev pub Digits : Bytes → Type 0
Digits = All (λ c. is_digit c ≡ true)

pub byte_at-append : (s t : Bytes) (k : ℕ) → byte_at (s ++ t) (length s + k) ≡ byte_at t k
unfolding byte_at
byte_at-append [] t k = rw zero-add
byte_at-append (c ∷ s) t k = rw suc-add (byte_at-append s t k)

pub byte_at-All {ℓ} :
    (P : ℕ → Type ℓ) (s : Bytes) (i : ℕ) → All P s → i < length s → P (byte_at s i)
unfolding byte_at
byte_at-All P [] i h lt = absurd (omega arith)
byte_at-All P (c ∷ s) zero h lt = h.0
byte_at-All P (c ∷ s) (suc i) h lt = byte_at-All P s i h.1 (omega arith)

drop-behind : (s : Bytes) (c : ℕ) (t : Bytes) → drop (suc (length s)) (s ++ c ∷ t) ≡ t
drop-behind [] c t = refl
drop-behind (d ∷ s) c t = drop-behind s c t

-- The walk stops at the last byte at or before `b` that is no digit.
pub skip_digits_back_lem :
    (text : Bytes) (b lo : ℕ)
    → lo ≤ b
    → ((i : ℕ) → lo < i → i ≤ b → is_digit (byte_at text i) ≡ true)
    → is_digit (byte_at text lo) ≡ false
    → skip_digits_back text b ≡ lo
unfolding skip_digits_back
skip_digits_back_lem text zero lo h digits stop = omega arith
skip_digits_back_lem text (suc b) lo h digits stop = elim (dec_le lo b) [
  | yes h' ↦
      rw (digits (suc b) (omega arith) (omega arith))
        (skip_digits_back_lem text b lo h' (λ i p q. digits i p (omega arith)) stop)
  | no h' ↦ let at : lo ≡ suc b = omega arith in rw (rw at at stop) (sym at)
]

pub skip_digits_back-le : (text : Bytes) (b : ℕ) → skip_digits_back text b ≤ b
unfolding skip_digits_back
skip_digits_back-le text zero = omega arith
skip_digits_back-le text (suc b) = ground (arith, skip_digits_back-le text b)

-- The last byte of a text, where the walk begins.
abbrev pub last_of : Bytes → Option ℕ
last_of text = step_back (length text)

pub length-pos_of : {s : Bytes} → s ≢ [] → 0 < length s
length-pos_of {s = []} h = absurd (h refl)
length-pos_of {s = c ∷ s} h = omega arith

pub step_back-pos : (n : ℕ) → 0 < n → step_back n ≡ some (n - 1)
step_back-pos zero h = absurd (omega arith)
step_back-pos (suc n) h = ap some (omega arith)

module _ (pre ds : Bytes) (ne : ds ≢ []) (digits : Digits ds) where
  abbrev numbered : Bytes
  numbered = pre ++ b':' ∷ ds

  length-pos : 0 < length ds
  length-pos = length-pos_of (λ e. ne e)

  at_behind : (k : ℕ) → byte_at numbered (length pre + suc k) ≡ byte_at ds k
  unfolding byte_at
  at_behind k = byte_at-append pre (b':' ∷ ds) (suc k)

  at_colon : byte_at numbered (length pre) ≡ b':'
  unfolding byte_at
  at_colon = rw add-zero at (byte_at-append pre (b':' ∷ ds) 0)

  at_digit :
      (i : ℕ) → length pre < i → i ≤ length pre + length ds → is_digit (byte_at numbered i) ≡ true
  at_digit i above below =
      let k : ℕ = i - length pre - 1 in
      let place : length pre + suc k ≡ i = omega arith in
      rw place at
        (rw (← at_behind k) at (byte_at-All (λ c. is_digit c ≡ true) ds k digits (omega arith)))

  last : last_of numbered ≡ some (length pre + length ds)
  last =
      step_back-pos (length numbered) (omega (arith, length-append pre (b':' ∷ ds)))
      ∙ ap some (omega (arith, length-append pre (b':' ∷ ds)))

  walk : skip_digits_back numbered (length pre + length ds) ≡ length pre
  walk = skip_digits_back_lem numbered _ (length pre) (omega arith) at_digit (rw at_colon refl)

  number_there : no_number numbered (length pre) ≡ false
  number_there =
      let behind : is_digit (byte_at numbered (suc (length pre))) ≡ true =
        at_digit (suc (length pre)) (omega arith) (omega (arith, length-pos)) in
      rw (at_colon, behind) refl

  -- A number behind a colon is taken off, and the walk begins again at the end of what is left.
  pub number_rounds-take :
      (rounds lin col : ℕ)
      → number_rounds
          (suc rounds)
          (record { text = numbered; back = last_of numbered; lin = lin; col = col })
        ≡ number_rounds rounds
            (record { text = pre; back = last_of pre; lin = to_uptr (atoll ds); col = lin })
  unfolding number_rounds
  number_rounds-take rounds lin col =
      rw
        (
          last,
          number_rounds,
          walk,
          number_there,
          take-append pre (b':' ∷ ds),
          drop-behind pre b':' ds,
        )
        refl

-- Where the walk ends at no colon, the loop ends and leaves the text.
pub number_rounds-stop :
    (rounds lin col : ℕ) (text : Bytes)
    → text ≢ []
    → (byte_at text (skip_digits_back text (length text - 1)) == b':') ≡ false
    → (b : Option ℕ) × (number_rounds
          (suc rounds)
          (record { text = text; back = last_of text; lin = lin; col = col })
        ≡ ok (record { text = text; back = b; lin = lin; col = col }))
unfolding number_rounds
number_rounds-stop rounds lin col text ne stop = (
  some (skip_digits_back text (length text - 1)),
  rw (step_back-pos (length text) (length-pos_of ne), number_rounds, stop) refl,
)

pub HasNo-stop :
    (text : Bytes)
    → text ≢ []
    → HasNo b':' text
    → (byte_at text (skip_digits_back text (length text - 1)) == b':') ≡ false
HasNo-stop text ne h =
    byte_at-All (λ c. (c == b':') ≡ false) text _ h
      (omega (arith, skip_digits_back-le text (length text - 1), length-pos_of ne))
