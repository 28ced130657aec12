-- ===== src/Clib/Number.antt =====
-- `atoll`, the conversions of its result, and the number formats of `snprintf`.
use sanitizer_symbolizer_too.Prelude.{
  inl, inr, ℕ, zero, suc, ◌+◌, ◌-◌, ◌*◌, ◌/◌, ◌%◌, ◌^◌, ◌≤◌, ◌<◌, ◌≡◌, refl, Bool, true, false,
  ◌&&◌, ◌||◌, [], ◌∷◌, arith, Bytes, length, ltb, leb, ◌==◌, if◌then◌else◌, All, Bool-cases, ◌≢◌,
}
use sanitizer_symbolizer_too.Prelude.Int.{ℤ, pos, negsuc}

abbrev pub isspace : ℕ → Bool
isspace c = c == b' ' || (leb 9 c && leb c 13)

abbrev pub isdigit : ℕ → Bool
isdigit c = leb b'0' c && leb c b'9'

-- The number that the leading digits spell behind `n`.
unfoldable pub digits_value : ℕ → Bytes → ℕ
digits_value n [] = n
digits_value n (c ∷ s) =
    let rest = digits_value (n * 10 + (c - b'0')) s in if isdigit c then rest else n

abbrev pub llong_max : ℕ
llong_max = 2 ^ 63 - 1

-- The value with its sign. `strtoll` clamps what no `long long` holds, and so does glibc's `atoll`.
unfoldable pub to_llong : Bool → ℕ → ℤ
to_llong negative n =
    if negative
    then (if n == 0
        then pos 0
        else if ltb (llong_max + 1) n
        then negsuc llong_max
        else negsuc (n - 1))
    else if ltb llong_max n
    then pos llong_max
    else pos n

unfoldable pub signed_value : Bytes → ℤ
unfolding to_llong digits_value
signed_value [] = pos 0
signed_value (c ∷ s) =
    if c == b'-'
    then to_llong true (digits_value 0 s)
    else if c == b'+'
    then to_llong false (digits_value 0 s)
    else to_llong false (digits_value 0 (c ∷ s))

unfoldable pub atoll : Bytes → ℤ
unfolding signed_value
atoll [] = signed_value []
atoll (c ∷ s) = let rest = atoll s in if isspace c then rest else signed_value (c ∷ s)

-- The conversion of a `long long` to a 64-bit unsigned type.
unfoldable pub to_uptr : ℤ → ℕ
to_uptr (pos n) = n % 2 ^ 64
to_uptr (negsuc n) = 2 ^ 64 - 1 - n % 2 ^ 64

-- The conversion to a 32-bit signed type, by its low 32 bits.
unfoldable pub to_int : ℤ → ℤ
unfolding to_uptr
to_int z =
    let low = to_uptr z % 2 ^ 32 in if ltb low (2 ^ 31) then pos low else negsuc (2 ^ 32 - 1 - low)

abbrev pub digit : ℕ → ℕ
digit d = if ltb d 10 then b'0' + d else b'a' + (d - 10)

-- The digits of `n` in front of `out`.
unfoldable pub digits_onto : ℕ → ℕ → ℕ → Bytes → Bytes
digits_onto base zero n out = out
digits_onto base (suc fuel) n out =
    let more = digits_onto base fuel (n / base) (digit (n % base) ∷ out) in
    if ltb n base then digit n ∷ out else more

-- `%llu`
unfoldable pub decimal : ℕ → Bytes
unfolding digits_onto
decimal n = digits_onto 10 (suc n) n []

-- `%zx`
unfoldable pub hexadecimal : ℕ → Bytes
unfolding digits_onto
hexadecimal n = digits_onto 16 (suc n) n []

digits_value-onto :
    (fuel n : ℕ) (out : Bytes)
    → n < fuel
    → digits_value 0 (digits_onto 10 fuel n out) ≡ digits_value n out
unfolding digits_value digits_onto
digits_value-onto zero n out h = elim h [ ]
digits_value-onto (suc fuel) n out h = elim (Bool-cases (ltb n 10)) [
  | inl small ↦ ground arith
  | inr large ↦ ground (arith, digits_value-onto fuel (n / 10) (digit (n % 10) ∷ out))
]

-- A property of every digit holds of every byte that is printed.
pub digits_onto-All {ℓ} :
    (P : ℕ → Type ℓ) (base fuel n : ℕ) (out : Bytes)
    → ((d : ℕ) → d < base → P (digit d))
    → 0 < base
    → All P out
    → All P (digits_onto base fuel n out)
unfolding digits_onto
digits_onto-All P base zero n out each b o = o
digits_onto-All P base (suc fuel) n out each b o = elim (Bool-cases (ltb n base)) [
  | inl small ↦ rw small (each n (ground arith), o)
  | inr large ↦
      rw large (digits_onto-All P base fuel (n / base) _ each b (each (n % base) (omega arith), o))
]

-- A number below `16 ^ (k + 1)` has at most `k + 1` hexadecimal digits.
digits_onto-le :
    (k fuel n : ℕ) (out : Bytes)
    → n < 16 ^ suc k
    → length (digits_onto 16 fuel n out) ≤ suc k + length out
unfolding digits_onto
digits_onto-le k zero n out h = omega arith
digits_onto-le zero (suc fuel) n out h =
    let small : ltb n 16 ≡ true = ground arith in rw small (omega arith)
digits_onto-le (suc k) (suc fuel) n out h = elim (Bool-cases (ltb n 16)) [
  | inl small ↦ rw small (omega arith)
  | inr large ↦
      let shorter = digits_onto-le k fuel (n / 16) (digit (n % 16) ∷ out) (omega arith) in
      rw large (omega (arith, shorter))
]

pub length-hexadecimal-le : (n : ℕ) → n < 2 ^ 64 → length (hexadecimal n) ≤ 16
unfolding hexadecimal
length-hexadecimal-le n h = omega (arith, digits_onto-le 15 (suc n) n [] h)

-- What has a byte behind it is not empty.
digits_onto-ne-nil : (base fuel n : ℕ) (out : Bytes) → out ≢ [] → digits_onto base fuel n out ≢ []
unfolding digits_onto
digits_onto-ne-nil base zero n out h = h
digits_onto-ne-nil base (suc fuel) n out h = elim (Bool-cases (ltb n base)) [
  | inl small ↦ rw small (λ e. cc)
  | inr large ↦ rw large (digits_onto-ne-nil base fuel (n / base) _ (λ e. cc))
]

pub decimal-ne-nil : (n : ℕ) → decimal n ≢ []
unfolding decimal digits_onto
decimal-ne-nil n = elim (Bool-cases (ltb n 10)) [
  | inl small ↦ rw small (λ e. cc)
  | inr large ↦ rw large (digits_onto-ne-nil 10 n (n / 10) _ (λ e. cc))
]

pub hexadecimal-ne-nil : (n : ℕ) → hexadecimal n ≢ []
unfolding hexadecimal digits_onto
hexadecimal-ne-nil n = elim (Bool-cases (ltb n 16)) [
  | inl small ↦ rw small (λ e. cc)
  | inr large ↦ rw large (digits_onto-ne-nil 16 n (n / 16) _ (λ e. cc))
]

pub decimal-IsDigit : (n : ℕ) → All (λ c. isdigit c ≡ true) (decimal n)
unfolding decimal
decimal-IsDigit n = digits_onto-All _ 10 (suc n) n [] (λ d h. ground arith) (omega arith) tt

-- The decimal print is read back, whatever follows that is no digit.
digits_value-decimal : (n : ℕ) → digits_value 0 (decimal n) ≡ n
unfolding decimal digits_value
digits_value-decimal n = digits_value-onto (suc n) n [] (omega arith)

atoll_digits :
    (s : Bytes)
    → s ≢ []
    → All (λ c. isdigit c ≡ true) s
    → atoll s ≡ to_llong false (digits_value 0 s)
unfolding atoll
atoll_digits [] ne h = absurd (ne refl)
atoll_digits (c ∷ s) ne h = ground arith

-- `atoll` reads a printed number back, up to the largest `long long`.
pub atoll-decimal : (n : ℕ) → n ≤ llong_max → atoll (decimal n) ≡ pos n
unfolding to_llong
atoll-decimal n h =
    rw (atoll_digits (decimal n) (decimal-ne-nil n) (decimal-IsDigit n), digits_value-decimal n)
      (ground arith)

pub to_uptr-atoll-decimal : (n : ℕ) → n ≤ llong_max → to_uptr (atoll (decimal n)) ≡ n
unfolding to_uptr
to_uptr-atoll-decimal n h = rw (atoll-decimal n h) (omega arith)
