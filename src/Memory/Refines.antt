-- ===== src/Memory/Refines.antt =====
-- Code that allocates, against the same code on values.
use sanitizer_symbolizer_too.Prelude.{◌≡◌, refl, subst, Outcome, ok, die, undefined, spent, then_do}
use sanitizer_symbolizer_too.Memory.Blocks.{Heap, Mem, ◌>>=◌, lift_mem}

abbrev Agree : {A B : Type 0} → (A → B → Heap → Type 0) → Outcome (A × Heap) → Outcome B → Type 0
Agree R (ok (a, h)) (ok b) = R a b h
Agree R die die = Unit
Agree R undefined undefined = Unit
Agree R spent spent = Unit
Agree R _ _ = ⊥

-- Both end in the same way, and the results and the heap stand in `R`.
pub record Refines {A B : Type 0} (R : A → B → Heap → Type 0) (m : Outcome (A × Heap))
    (v : Outcome B) : Type 0 where
  pub agree : Agree R m v

pub refines :
    {A B : Type 0} {R : A → B → Heap → Type 0} {m : Outcome (A × Heap)} {v : Outcome B}
    → Agree R m v
    → Refines R m v
refines a = record { agree = a }

module _ {A B C D : Type 0} {Q : A → B → Heap → Type 0} {R : C → D → Heap → Type 0} where
  pub Refines-bind :
      {m : Outcome (A × Heap)} {v : Outcome B} {f : A → Heap → Outcome (C × Heap)}
      {g : B → Outcome D}
      → Refines Q m v
      → ((a : A) (b : B) (h : Heap) → Q a b h → Refines R (f a h) (g b))
      → Refines R (then_do m λ r. f r.0 r.1) (then_do v g)
  Refines-bind {m = ok (a, h)} {v = ok b} q k = k a b h q.agree
  Refines-bind {m = die} {v = die} q k = refines tt
  Refines-bind {m = undefined} {v = undefined} q k = refines tt
  Refines-bind {m = spent} {v = spent} q k = refines tt
  Refines-bind {m = ok r} {v = die} q k = absurd q.agree
  Refines-bind {m = ok r} {v = undefined} q k = absurd q.agree
  Refines-bind {m = ok r} {v = spent} q k = absurd q.agree
  Refines-bind {m = die} {v = ok b} q k = absurd q.agree
  Refines-bind {m = die} {v = undefined} q k = absurd q.agree
  Refines-bind {m = die} {v = spent} q k = absurd q.agree
  Refines-bind {m = undefined} {v = ok b} q k = absurd q.agree
  Refines-bind {m = undefined} {v = die} q k = absurd q.agree
  Refines-bind {m = undefined} {v = spent} q k = absurd q.agree
  Refines-bind {m = spent} {v = ok b} q k = absurd q.agree
  Refines-bind {m = spent} {v = die} q k = absurd q.agree
  Refines-bind {m = spent} {v = undefined} q k = absurd q.agree

module _ {A B : Type 0} {Q R : A → B → Heap → Type 0} where
  pub Refines-mono :
      {m : Outcome (A × Heap)} {v : Outcome B}
      → Refines Q m v
      → ((a : A) (b : B) (h : Heap) → Q a b h → R a b h)
      → Refines R m v
  Refines-mono {m = ok (a, h)} {v = ok b} q k = refines (k a b h q.agree)
  Refines-mono {m = die} {v = die} q k = refines tt
  Refines-mono {m = undefined} {v = undefined} q k = refines tt
  Refines-mono {m = spent} {v = spent} q k = refines tt
  Refines-mono {m = ok r} {v = die} q k = absurd q.agree
  Refines-mono {m = ok r} {v = undefined} q k = absurd q.agree
  Refines-mono {m = ok r} {v = spent} q k = absurd q.agree
  Refines-mono {m = die} {v = ok b} q k = absurd q.agree
  Refines-mono {m = die} {v = undefined} q k = absurd q.agree
  Refines-mono {m = die} {v = spent} q k = absurd q.agree
  Refines-mono {m = undefined} {v = ok b} q k = absurd q.agree
  Refines-mono {m = undefined} {v = die} q k = absurd q.agree
  Refines-mono {m = undefined} {v = spent} q k = absurd q.agree
  Refines-mono {m = spent} {v = ok b} q k = absurd q.agree
  Refines-mono {m = spent} {v = die} q k = absurd q.agree
  Refines-mono {m = spent} {v = undefined} q k = absurd q.agree

-- A part that is the same on both sides.
module _ {A C D : Type 0} {R : C → D → Heap → Type 0} where
  pub Refines-lift :
      (m : Outcome A) (f : A → Mem C) (g : A → Outcome D) (h : Heap)
      → ((a : A) → Refines R (f a h) (g a))
      → Refines R ((lift_mem m >>= f) h) (then_do m g)
  Refines-lift (ok a) f g h k = k a
  Refines-lift die f g h k = refines tt
  Refines-lift undefined f g h k = refines tt
  Refines-lift spent f g h k = refines tt

module _ {A B : Type 0} {R : A → B → Heap → Type 0} where
  -- Where the values' side returns, so does the other.
  pub Refines-ok :
      {m : Outcome (A × Heap)} {v : Outcome B} {b : B}
      → Refines R m v
      → v ≡ ok b
      → (a : A) × (h : Heap) × (m ≡ ok (a, h)) × R a b h
  Refines-ok {m = ok (a, h)} {v = ok c} {b} r e =
      let same : c ≡ b = cc in (a, h, refl, subst (λ x. R a x h) same r.agree)
  Refines-ok {m = die} {v = ok c} r e = absurd r.agree
  Refines-ok {m = undefined} {v = ok c} r e = absurd r.agree
  Refines-ok {m = spent} {v = ok c} r e = absurd r.agree
  Refines-ok {v = die} r e = cc
  Refines-ok {v = undefined} r e = cc
  Refines-ok {v = spent} r e = cc
