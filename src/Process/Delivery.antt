-- ===== src/Process/Delivery.antt =====
-- A reply that arrives in pieces, and the command that it answers.
use sanitizer_symbolizer_too.Prelude.{
  ℕ, zero, suc, ◌+◌, ◌-◌, ◌≤◌, ◌<◌, ◌≡◌, refl, sym, ap, subst, ◌∙◌, Bool, true, false, some, List,
  [], ◌∷◌, ◌++◌, arith, Bytes, ◌==◌, ==-refl, length, append_assoc, append-nil, ok,
}
use sanitizer_symbolizer_too.Clib.{c_str}
use sanitizer_symbolizer_too.Common.Names.{HasNo}
use sanitizer_symbolizer_too.System.{done, reads_from, writes_to, Log, Os}
use sanitizer_symbolizer_too.Files.{read_from_file, write_to_file}
use sanitizer_symbolizer_too.Symbolizer.{
  Kind, llvm, addr2line, SymbolizerProcess, max_times_restarted, reached_end_of_output,
}
use sanitizer_symbolizer_too.Process.{
  read_rounds, read_buffer, finish_read, read_from_symbolizer, write_to_symbolizer, send_on,
  send_command_impl, attempts, send_command,
}
use sanitizer_symbolizer_too.Process.Replies.{send_on_open}

-- A read of one piece, which is not empty.
abbrev pub Gives : Os → ℕ → Bytes → Log → Bytes → Type 0
Gives os fd acc l c =
    (os.read l fd (os.capacity l (length acc + 1024) - length acc) ≡ done c)
    × ((length c == 0) ≡ false)

-- The child's output in pieces: each read gives the next one, and the text ends where the last one
-- ends and not before. `acc` is what was read before.
unfoldable pub Delivers : Os → Kind → ℕ → Bytes → Log → List Bytes → Type 0
Delivers os kind fd acc l [] = ⊥
Delivers os kind fd acc l (c ∷ []) =
    Gives os fd acc l c × (reached_end_of_output kind (acc ++ c) ≡ true)
Delivers os kind fd acc l (c ∷ d ∷ cs) =
    Gives os fd acc l c
    × (reached_end_of_output kind (acc ++ c) ≡ false)
    × Delivers os kind fd (acc ++ c) (reads_from fd ∷ l) (d ∷ cs)

unfoldable pub joined : List Bytes → Bytes
joined [] = []
joined (c ∷ cs) = c ++ joined cs

-- The log behind a read for each piece.
unfoldable pub reads_log : ℕ → List Bytes → Log → Log
reads_log fd [] l = l
reads_log fd (c ∷ cs) l = reads_log fd cs (reads_from fd ∷ l)

module _ (os : Os) where
  pub read_rounds-Delivers :
      (fd : ℕ) (cs : List Bytes) (fuel : ℕ) (p : SymbolizerProcess) (l : Log)
      → p.input_fd ≡ some fd
      → Delivers os p.kind fd p.buffer l cs
      → length cs ≤ fuel
      → read_rounds os fuel p l
        ≡ ok (record p { buffer = p.buffer ++ joined cs }, reads_log fd cs l)
  unfolding read_rounds read_from_file Delivers joined reads_log
  read_rounds-Delivers fd [] fuel p l e given enough = absurd given
  read_rounds-Delivers fd (c ∷ cs) zero p l e given enough = absurd (omega arith)
  read_rounds-Delivers fd (c ∷ []) (suc fuel) p l e ((piece, some_bytes), ended) enough =
      rw (e, read_rounds, piece, some_bytes, ended, append-nil)
        (ap (λ x. ok (record p { input_fd = x; buffer = p.buffer ++ c }, reads_from fd ∷ l)) e)
  read_rounds-Delivers fd (c ∷ d ∷ cs) (suc fuel) p l e ((piece, some_bytes), goes_on, given)
        enough =
      let p' = record p { buffer = p.buffer ++ c } in
      rw
        (
          e,
          read_rounds,
          piece,
          some_bytes,
          goes_on,
          read_rounds-Delivers fd (d ∷ cs) fuel p' (reads_from fd ∷ l) e given (omega arith),
          append_assoc p.buffer c (joined (d ∷ cs)),
        )
        (ap
          (λ x. ok (
            record p { input_fd = x; buffer = p.buffer ++ joined (c ∷ d ∷ cs) },
            reads_log fd (c ∷ d ∷ cs) l,
          ))
          e)

finish_read_llvm :
    (os : Os) (kind : Kind)
    → kind ≡ llvm
    → (r : Bool × SymbolizerProcess) (l : Log) → finish_read os kind r l ≡ ok (r, l)
finish_read_llvm os llvm e r l = refl
finish_read_llvm os (addr2line name) e r l = cc

-- The string that a buffer with its NUL holds.
pub c_str-append : (s : Bytes) → HasNo 0 s → c_str (s ++ 0 ∷ []) ≡ s
unfolding c_str
c_str-append [] h = refl
c_str-append (c ∷ s) (ne, h) = rw (ne, c_str-append s h) refl

-- What a llvm-symbolizer process reads of a reply in pieces.
pub read_llvm :
    (os : Os) (fuel : ℕ) (p : SymbolizerProcess) (l : Log) {input : ℕ} (cs : List Bytes)
    → p.input_fd ≡ some input
    → p.kind ≡ llvm
    → Delivers os llvm input [] l cs
    → length cs ≤ fuel
    → read_from_symbolizer os fuel p l
      ≡ ok ((true, record p { buffer = joined cs ++ 0 ∷ [] }), reads_log input cs l)
unfolding read_from_symbolizer read_buffer
read_llvm os fuel p l {input} cs reading kind given enough =
    let read =
      read_rounds-Delivers os input cs fuel (record p { buffer = [] }) l reading
        (subst (λ k. Delivers os k input [] l cs) (sym kind) given) enough in
    rw
      (
        read,
        finish_read_llvm os p.kind kind (true, record p { buffer = joined cs ++ 0 ∷ [] })
            (reads_log input cs l),
      )
      refl

-- A command that is written in full, and whose reply is read, is answered.
module _ (os : Os) (fuel : ℕ) (p : SymbolizerProcess) (command : Bytes) (l : Log) {input output : ℕ}
    (reading : p.input_fd ≡ some input) (writing : p.output_fd ≡ some output)
    (some_text : 0 < length command) (written : os.write l output command ≡ done (length command))
    {q : SymbolizerProcess} {l' : Log}
    (read : read_from_symbolizer os fuel p (writes_to output command ∷ l)
      ≡ ok ((true, q), l')) where
  write_whole : write_to_symbolizer os p command l ≡ ok (true, writes_to output command ∷ l)
  write_whole = go command written some_text
    where
      go :
          (text : Bytes)
          → os.write l output text ≡ done (length text)
          → 0 < length text
          → write_to_symbolizer os p text l ≡ ok (true, writes_to output text ∷ l)
      go [] w h = absurd (omega arith)
      go (c ∷ s) w h =
          unfold write_to_symbolizer write_to_file in
          rw (writing, write_to_symbolizer, w, ==-refl (length (c ∷ s))) refl

  answered : send_command_impl os fuel p command l ≡ ok ((some (c_str q.buffer), q), l')
  unfolding send_command_impl send_on
  answered =
      (λ i. send_on_open os fuel p command p.input_fd p.output_fd reading writing i l)
      ∙ rw (write_whole, read) refl

  pub attempts-answered :
      (rounds : ℕ) → attempts os fuel (suc rounds) p command l ≡ ok ((some (c_str q.buffer), q), l')
  unfolding attempts
  attempts-answered rounds = rw (answered, attempts) refl

  pub send_command-answered :
      p.failed_to_start ≡ false
      → p.times_restarted < max_times_restarted
      → send_command os fuel p command l ≡ ok ((some (c_str q.buffer), q), l')
  unfolding send_command
  send_command-answered alive rounds =
      let left : max_times_restarted - p.times_restarted
          ≡ suc (max_times_restarted - p.times_restarted - 1) =
        omega arith in
      let reply = attempts-answered (max_times_restarted - p.times_restarted - 1) in
      simp alive (
        subst (λ n. attempts os fuel n p command l ≡ ok ((some (c_str q.buffer), q), l')) (sym left)
          reply)
