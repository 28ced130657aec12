-- ===== src/Memory/Blocks.antt =====
-- Blocks of `malloc`, and code that allocates. A pointer to a block carries the block's text; a read,
-- a write or a `free` of a block that is not live is undefined.
use sanitizer_symbolizer_too.Prelude.{
  ℕ, suc, ◌+◌, ◌<◌, ◌≡◌, refl, sym, ap, ◌∙◌, Bool, true, false, inl, inr, Option, none, some, List,
  [], ◌∷◌, arith, Bytes, ltb, ◌==◌, ==-refl, if◌then◌else◌, Bool-cases, length, Outcome, ok,
  undefined, then_do,
}
use sanitizer_symbolizer_too.Info.{CharPtr, indeterminate, nullptr, chars}

-- The number of the next block, and those that are allocated and not freed.
pub record Heap : Type 0 where
  pub next : ℕ
  pub live : List ℕ

-- Not yet initialised, null, or a block with its text.
pub data Ptr : Type 0 where
  wild null : Ptr
  block : ℕ → Bytes → Ptr

-- What the code reads of it.
abbrev pub view : Ptr → CharPtr
view wild = indeterminate
view null = nullptr
view (block i s) = chars s

abbrev pub Mem : Type 0 → Type 0
Mem A = Heap → Outcome (A × Heap)

abbrev pub give : {A : Type 0} → A → Mem A
give a h = ok (a, h)

infixl 5 ◌>>=◌ ◌>>◌
abbrev pub ◌>>=◌ : {A B : Type 0} → Mem A → (A → Mem B) → Mem B
◌>>=◌ m f h = then_do (m h) λ r. f r.0 r.1

abbrev pub ◌>>◌ : {B : Type 0} → Mem (Unit {0}) → Mem B → Mem B
m >> k = m >>= λ _. k

-- An outcome of code that neither allocates nor frees.
abbrev pub lift_mem : {A : Type 0} → Outcome A → Mem A
lift_mem m h = then_do m λ a. ok (a, h)

abbrev pub one_if : Bool → ℕ
one_if true = 1
one_if false = 0

-- How often a number stands in a list.
unfoldable pub count : ℕ → List ℕ → ℕ
count i [] = 0
count i (j ∷ js) = one_if (i == j) + count i js

abbrev kept : ℕ → Option (List ℕ) → Option (List ℕ)
kept j none = none
kept j (some js) = some (j ∷ js)

-- The list without one occurrence of the number.
unfoldable remove : ℕ → List ℕ → Option (List ℕ)
remove i [] = none
remove i (j ∷ js) = let rest = kept j (remove i js) in if i == j then some js else rest

-- It is taken to succeed.
unfoldable pub malloc : Bytes → Mem Ptr
malloc s h = ok (block h.next s, record { next = suc h.next; live = h.next ∷ h.live })

unfoldable pub free : Ptr → Mem (Unit {0})
unfolding remove
free wild h = undefined
free null h = ok (tt, h)
free (block i s) h = elim (remove i h.live) [
  | none ↦ undefined
  | some rest ↦ ok (tt, record h { live = rest })
]

unfoldable pub load : Ptr → Mem Bytes
unfolding count
load wild h = undefined
load null h = undefined
load (block i s) h = if ltb 0 (count i h.live) then ok (s, h) else undefined

-- A write in place; the pointer that is left carries the new text.
unfoldable pub store : Ptr → Bytes → Mem Ptr
unfolding count
store wild text h = undefined
store null text h = undefined
store (block i s) text h = if ltb 0 (count i h.live) then ok (block i text, h) else undefined

remove-count :
    (i : ℕ) (js : List ℕ)
    → 0 < count i js
    → (rest : List ℕ) × (remove i js ≡ some rest)
      × (length js ≡ suc (length rest))
      × ((k : ℕ) → count k js ≡ one_if (k == i) + count k rest)
unfolding count remove
remove-count i [] h = absurd (omega arith)
remove-count i (j ∷ js) h = elim (Bool-cases (i == j)) [
  | inl same ↦
      let e : i ≡ j = ground arith in
      (js, rw (same, remove) refl, refl, λ k. ap (λ x. one_if (k == x) + count k js) (sym e))
  | inr other ↦
      let there : 0 < one_if false + count i js = rw (count, other) at h in
      let (rest, removed, size, counts) = remove-count i js (omega (arith, there)) in
      (j ∷ rest, rw (removed, remove, other) refl, ap suc size, λ k. omega (arith, counts k))
]

-- A block that is live is read, written and freed.
pub load-live : (i : ℕ) (s : Bytes) (h : Heap) → 0 < count i h.live → load (block i s) h ≡ ok (s, h)
unfolding load
load-live i s h here = (let yes : ltb 0 (count i h.live) ≡ true = ground arith in rw yes refl)

pub store-live :
    (i : ℕ) (s text : Bytes) (h : Heap)
    → 0 < count i h.live
    → store (block i s) text h ≡ ok (block i text, h)
unfolding store
store-live i s text h here = (let yes : ltb 0 (count i h.live) ≡ true = ground arith in rw yes refl)

pub free-live :
    (i : ℕ) (s : Bytes) (h : Heap)
    → 0 < count i h.live
    → (h' : Heap) × (free (block i s) h ≡ ok (tt, h'))
      × ((k : ℕ) → count k h.live ≡ one_if (k == i) + count k h'.live)
unfolding free
free-live i s h here =
    let (rest, removed, size, counts) = remove-count i h.live here in
    (record h { live = rest }, rw (removed, free) refl, counts)

-- Lists that hold each number equally often are equally long.
pub length-count : (js ks : List ℕ) → ((k : ℕ) → count k js ≡ count k ks) → length js ≡ length ks
unfolding count
length-count [] [] same = refl
length-count [] (k ∷ ks) same = (let one = ==-refl k in absurd (ground (arith, one, same k)))
length-count (j ∷ js) ks same =
    let one = ==-refl j in
    let (rest, removed, size, counts) = remove-count j ks (ground (arith, one, same j)) in
    ap suc (length-count js rest λ k. omega (arith, same k, counts k)) ∙ sym size
