-- ===== src/Process/Terminator.antt =====
-- Replies of addr2line and the end mark, which is the answer to the dummy address.
use sanitizer_symbolizer_too.Prelude.{
  ℕ, ◌≤◌, ◌<◌, ◌≡◌, ◌≢◌, refl, sym, ap, subst, ◌∙◌, true, false, inl, inr, Option, none, some, List,
  [], ◌∷◌, ◌++◌, arith, Bytes, ltb, Bool-cases, length, take, drop, take-append, drop-append,
  All-append, append_assoc, ok,
}
use sanitizer_symbolizer_too.Clib.{c_str, strstr, starts_with}
use sanitizer_symbolizer_too.Clib.Laws.{Finds, strstr-Finds}
use sanitizer_symbolizer_too.Common.Names.{HasNo}
use sanitizer_symbolizer_too.Output.Lines.{append-ne-nil}
use sanitizer_symbolizer_too.System.{Log, Os}
use sanitizer_symbolizer_too.Symbolizer.{
  Kind, llvm, addr2line, SymbolizerProcess, output_terminator,
}
use sanitizer_symbolizer_too.Process.{
  cut_terminator, finish_read, read_from_symbolizer, read_buffer,
}
use sanitizer_symbolizer_too.Process.Delivery.{
  Delivers, joined, reads_log, read_rounds-Delivers, c_str-append,
}

-- The end mark does not begin inside the text in front of it, its first byte aside.
abbrev pub EndsOnce : Bytes → Type 0
EndsOnce reply =
    (k : ℕ)
    → k < length reply
    → starts_with (drop k (reply ++ output_terminator)) output_terminator ≡ false

at_mark :
    (s : Bytes) → starts_with (drop (length s) (s ++ output_terminator)) output_terminator ≡ true
unfolding starts_with
at_mark s = rw (drop-append s output_terminator) refl

-- `strstr` finds the mark where it stands.
strstr-EndsOnce :
    (reply : Bytes)
    → EndsOnce reply
    → strstr (reply ++ output_terminator) output_terminator ≡ some (length reply)
strstr-EndsOnce reply once =
    found (strstr (reply ++ output_terminator) output_terminator)
      (strstr-Finds (reply ++ output_terminator) output_terminator)
  where
    found :
        (o : Option ℕ)
        → Finds (reply ++ output_terminator) output_terminator o
        → o ≡ some (length reply)
    found none h = (let clash : true ≡ false = sym (at_mark reply) ∙ h (length reply) in cc)
    found (some n) (within, there, first) = elim (Bool-cases (ltb n (length reply))) [
      | inl early ↦ (let clash : true ≡ false = sym there ∙ once n (ground arith) in cc)
      | inr late ↦ elim (Bool-cases (ltb (length reply) n)) [
        | inl past ↦
            (let clash : true ≡ false = sym (at_mark reply) ∙ first (length reply) (ground arith) in
              cc)
        | inr same ↦ ap some (ground arith)
      ]
    ]

mark-HasNo : HasNo 0 output_terminator
mark-HasNo = (refl, (refl, (refl, (refl, (refl, (refl, (refl, (refl, tt))))))))

module _ (os : Os) where
  cut_found :
      (c n : ℕ) (t : Bytes)
      → t ≢ []
      → strstr (c_str t) output_terminator ≡ some n
      → cut_terminator os (c ∷ t) ≡ ok (c ∷ (take n t ++ 0 ∷ []))
  unfolding cut_terminator
  cut_found c n [] ne e = absurd (ne refl)
  cut_found c n (d ∷ t) ne e = rw (e, cut_terminator) refl

  -- What Addr2LineProcess::ReadFromSymbolizer keeps of a reply, which may be the end mark
  -- itself, and the end mark behind it is the reply and a NUL. The reply holds no NUL behind its
  -- first byte, and no end mark begins behind that byte and before its end.
  pub cut_terminator_lem :
      (c : ℕ) (reply : Bytes)
      → HasNo 0 reply
      → EndsOnce reply
      → cut_terminator os ((c ∷ (reply ++ output_terminator)) ++ 0 ∷ [])
        ≡ ok (c ∷ (reply ++ 0 ∷ []))
  cut_terminator_lem c reply no_nul once =
      let whole = reply ++ output_terminator in
      let text = c_str-append whole (All-append _ reply output_terminator no_nul mark-HasNo) in
      let kept : take (length reply) (whole ++ 0 ∷ []) ≡ reply =
        ap (take (length reply)) (append_assoc reply output_terminator (0 ∷ []))
        ∙ take-append reply (output_terminator ++ 0 ∷ []) in
      cut_found c (length reply) (whole ++ 0 ∷ []) (append-ne-nil whole 0 [])
        (ap (λ x. strstr x output_terminator) text ∙ strstr-EndsOnce reply once)
      ∙ ap (λ x. ok (c ∷ (x ++ 0 ∷ []))) kept

  finish_read_addr2line :
      (kind : Kind) (module_name : Option Bytes) (p : SymbolizerProcess) (l : Log) {trimmed : Bytes}
      → kind ≡ addr2line module_name
      → cut_terminator os p.buffer ≡ ok trimmed
      → finish_read os kind (true, p) l ≡ ok ((true, record p { buffer = trimmed }), l)
  finish_read_addr2line llvm module_name p l e cut = cc
  finish_read_addr2line (addr2line name) module_name p l e cut = rw cut refl

  -- What an addr2line process reads of a reply in pieces.
  pub read_addr2line :
      (fuel : ℕ) (p : SymbolizerProcess) (l : Log) (module_name : Option Bytes) {input : ℕ}
      (cs : List Bytes) (c : ℕ) (reply : Bytes)
      → p.input_fd ≡ some input
      → p.kind ≡ addr2line module_name
      → Delivers os (addr2line module_name) input [] l cs
      → length cs ≤ fuel
      → joined cs ≡ (c ∷ reply) ++ output_terminator
      → HasNo 0 reply
      → EndsOnce reply
      → read_from_symbolizer os fuel p l
        ≡ ok ((true, record p { buffer = (c ∷ reply) ++ 0 ∷ [] }), reads_log input cs l)
  unfolding read_from_symbolizer read_buffer
  read_addr2line fuel p l module_name {input} cs c reply reading kind given enough text no_nul
        once =
      let read =
        read_rounds-Delivers os input cs fuel (record p { buffer = [] }) l reading
          (subst (λ k. Delivers os k input [] l cs) (sym kind) given) enough in
      let cut =
        ap (λ t. cut_terminator os (t ++ 0 ∷ [])) text ∙ cut_terminator_lem c reply no_nul once in
      rw
        (
          read,
          finish_read_addr2line p.kind module_name (record p { buffer = joined cs ++ 0 ∷ [] })
              (reads_log input cs l) kind cut,
        )
        refl
