-- ===== src/Process/Pieces.antt =====
-- Where `ReachedEndOfOutput` stops the reading of a reply that arrives in pieces.
use sanitizer_symbolizer_too.Prelude.{
  ℕ, ◌≡◌, ◌≢◌, refl, sym, ap, ◌∙◌, true, false, List, [], ◌∷◌, ◌++◌, Bytes, ◌==◌, length,
  append_assoc, append-nil,
}
use sanitizer_symbolizer_too.System.{reads_from, Log, Os}
use sanitizer_symbolizer_too.Symbolizer.{Kind, llvm, addr2line, reached_end_of_output}
use sanitizer_symbolizer_too.Process.Delivery.{Gives, Delivers, joined}

-- Each read gives the next piece, and no piece is empty.
abbrev pub Arrives : Os → ℕ → Bytes → Log → List Bytes → Type 0
Arrives os fd acc l [] = Unit
Arrives os fd acc l (c ∷ cs) = Gives os fd acc l c × Arrives os fd (acc ++ c) (reads_from fd ∷ l) cs

-- The end is seen when the text is complete, and not before.
abbrev pub EndsAtEnd : Kind → Bytes → Type 0
EndsAtEnd kind text =
    (reached_end_of_output kind text ≡ true)
    × ((u v : Bytes) → u ++ v ≡ text → v ≢ [] → reached_end_of_output kind u ≡ false)

-- Then it does not matter where the text is cut.
Arrives-Delivers :
    (os : Os) (kind : Kind) (fd : ℕ) (acc text : Bytes) (l : Log) (cs : List Bytes)
    → EndsAtEnd kind text
    → acc ++ joined cs ≡ text
    → joined cs ≢ []
    → Arrives os fd acc l cs
    → Delivers os kind fd acc l cs
unfolding Delivers joined
Arrives-Delivers os kind fd acc text l [] ends whole ne given = absurd (ne refl)
Arrives-Delivers os kind fd acc text l (c ∷ []) ends whole ne (piece, given) =
    let last : acc ++ c ≡ text = ap (λ x. acc ++ x) (sym (append-nil c)) ∙ whole in
    (piece, ap (reached_end_of_output kind) last ∙ ends.0)
Arrives-Delivers os kind fd acc text l (c ∷ d ∷ cs) ends whole ne (piece, next) =
    let cut : (acc ++ c) ++ joined (d ∷ cs) ≡ text = append_assoc acc c (joined (d ∷ cs)) ∙ whole in
    let more : joined (d ∷ cs) ≢ [] = λ nil. rest_ne d (joined cs) next.0.1 nil in
    (
      piece,
      ends.1 (acc ++ c) (joined (d ∷ cs)) cut more,
      Arrives-Delivers os kind fd (acc ++ c) text (reads_from fd ∷ l) (d ∷ cs) ends cut more next,
    )
  where
    rest_ne : (d rest : Bytes) → (length d == 0) ≡ false → d ++ rest ≢ []
    rest_ne [] rest h e = cc
    rest_ne (x ∷ d) rest h e = cc

nothing_read : (kind : Kind) → reached_end_of_output kind [] ≡ false
unfolding reached_end_of_output
nothing_read llvm = refl
nothing_read (addr2line module_name) = refl

-- A whole reply.
pub whole-Delivers :
    (os : Os) (kind : Kind) (fd : ℕ) (text : Bytes) (l : Log) (cs : List Bytes)
    → EndsAtEnd kind text
    → joined cs ≡ text
    → Arrives os fd [] l cs
    → Delivers os kind fd [] l cs
whole-Delivers os kind fd text l cs ends whole given =
    Arrives-Delivers os kind fd [] text l cs ends whole
      (λ nil.
        let clash : false ≡ true =
          sym (nothing_read kind) ∙ ap (reached_end_of_output kind) (sym nil ∙ whole) ∙ ends.0 in
        cc)
      given
