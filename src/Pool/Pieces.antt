-- ===== src/Pool/Pieces.antt =====
-- The end of an addr2line reply: the end mark, and none before it.
use sanitizer_symbolizer_too.Prelude.{
  ℕ, zero, suc, ◌+◌, ◌-◌, ◌≤◌, ◌<◌, ◌≡◌, ◌≢◌, refl, sym, ap, ◌∙◌, true, false, inl, inr, Option, [],
  ◌∷◌, ◌++◌, arith, Bytes, ltb, ==-refl, Bool-cases, length, length-append, drop, drop-append,
}
use sanitizer_symbolizer_too.Clib.{starts_with, strcmp_eq}
use sanitizer_symbolizer_too.Clib.Laws.{strcmp_eq_iff}
use sanitizer_symbolizer_too.Symbolizer.{addr2line, output_terminator, reached_end_of_output}
use sanitizer_symbolizer_too.Process.Terminator.{EndsOnce}
use sanitizer_symbolizer_too.Process.Pieces.{EndsAtEnd}

starts_with-append : (p s : Bytes) → starts_with (p ++ s) p ≡ true
unfolding starts_with
starts_with-append [] s = refl
starts_with-append (c ∷ p) s = rw (==-refl c) (starts_with-append p s)

drop-inside : (k : ℕ) (u v : Bytes) → k ≤ length u → drop k (u ++ v) ≡ drop k u ++ v
drop-inside zero u v h = refl
drop-inside (suc k) [] v h = absurd (omega arith)
drop-inside (suc k) (c ∷ u) v h = drop-inside k u v (omega arith)

-- Text that the end mark ends begins with it eight bytes before its end.
mark_at :
    (module_name : Option Bytes) (u v : Bytes)
    → reached_end_of_output (addr2line module_name) u ≡ true
    → (8 < length u) × (starts_with (drop (length u - 8) (u ++ v)) output_terminator ≡ true)
unfolding reached_end_of_output
mark_at module_name u v e =
    let long : 8 < length u = ground arith in
    let same : strcmp_eq (drop (length u - 8) u) output_terminator ≡ true = ground arith in
    let mark = (strcmp_eq_iff (drop (length u - 8) u) output_terminator).0 same in
    (
      long,
      rw (drop-inside (length u - 8) u v (omega arith), mark)
          (starts_with-append output_terminator v),
    )

module _ (module_name : Option Bytes) (c : ℕ) (reply : Bytes) where
  whole : reached_end_of_output (addr2line module_name) ((c ∷ reply) ++ output_terminator) ≡ true
  unfolding reached_end_of_output
  whole =
      let size = length-append reply output_terminator in
      let long : ltb 8 (suc (length (reply ++ output_terminator))) ≡ true = ground (arith, size) in
      let place : suc (length (reply ++ output_terminator)) - 8 ≡ length (c ∷ reply) =
        omega (arith, size) in
      let mark = (strcmp_eq_iff output_terminator output_terminator).1 refl in
      rw (long, place, drop-append (c ∷ reply) output_terminator, mark) refl

  shorter :
      (u v : Bytes)
      → u ++ v ≡ (c ∷ reply) ++ output_terminator
      → v ≢ []
      → length u < length reply + 9
  shorter u [] e ne = absurd (ne refl)
  shorter u (x ∷ v) e ne =
      omega (arith, length-append u (x ∷ v), length-append reply output_terminator, ap length e)

  -- wait
  pub reply-EndsAtEnd :
      EndsOnce reply → EndsAtEnd (addr2line module_name) ((c ∷ reply) ++ output_terminator)
  reply-EndsAtEnd once = (whole, before)
    where
      before :
          (u v : Bytes)
          → u ++ v ≡ (c ∷ reply) ++ output_terminator
          → v ≢ []
          → reached_end_of_output (addr2line module_name) u ≡ false
      before u v e ne = elim (Bool-cases (reached_end_of_output (addr2line module_name) u)) [
        | inr h ↦ h
        | inl h ↦
            let (long, mark) = mark_at module_name u v h in
            let place : length u - 8 ≡ suc (length u - 9) = omega arith in
            let there : starts_with (drop (suc (length u - 9)) ((c ∷ reply) ++ output_terminator))
                  output_terminator
                ≡ true =
              rw (e, place) at mark in
            let clash : true ≡ false =
              sym there ∙ once (length u - 9) (omega (arith, shorter u v e ne)) in
            cc
      ]
