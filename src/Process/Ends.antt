-- ===== src/Process/Ends.antt =====
-- The commands of a llvm-symbolizer process return, under a system that keeps some promises.
use sanitizer_symbolizer_too.Prelude.{
  ℕ, zero, suc, ◌+◌, ◌-◌, ◌≤◌, ◌≡◌, ◌≢◌, refl, sym, ap, subst, ◌∙◌, Bool, true, false, ◌⊎◌, inl,
  inr, none, some, [], ◌∷◌, ◌++◌, arith, Bytes, ◌==◌, Bool-cases, Option-cases, length,
}
use sanitizer_symbolizer_too.System.{Fd, Io, failed, done, reads_from, writes_to, Log, Os}
use sanitizer_symbolizer_too.System.Post.{Ends, ends, Ends-bind, Ends-Post}
use sanitizer_symbolizer_too.Files.{read_from_file, write_to_file}
use sanitizer_symbolizer_too.Symbolizer.{
  Kind, llvm, addr2line, SymbolizerProcess, max_times_restarted, reached_end_of_output,
}
use sanitizer_symbolizer_too.Process.{
  read_rounds, bytes_read, read_buffer, finish_read, read_from_symbolizer, wrote_all,
  write_to_symbolizer, send_on, send_command_impl, attempts, send_command,
}
use sanitizer_symbolizer_too.Process.Restarts.{Lives, Budget, send_command-Budget}
use sanitizer_symbolizer_too.Process.Starts.{Comes, IsLawful, IsLlvm, Kept, restart-Ends}

module _ (os : Os) (limit : ℕ) (lawful : IsLawful os limit) where
  read_rounds-Ends :
      (count fuel : ℕ) (p : SymbolizerProcess) (l : Log) {fd : ℕ}
      → p.input_fd ≡ some fd
      → count ≤ fuel
      → Comes os count fd p.buffer l
      → IsLlvm p
      → Ends (λ q l'. IsLlvm q) (read_rounds os fuel p l)
  unfolding read_rounds read_from_file Comes
  read_rounds-Ends zero fuel p l {fd} e enough comes h = absurd comes
  read_rounds-Ends (suc count) zero p l {fd} e enough comes h = absurd (omega arith)
  read_rounds-Ends (suc count) (suc fuel) p l {fd} e enough comes h =
      let room = os.capacity l (length p.buffer + 1024) - length p.buffer in
      let just_read = bytes_read os (os.read l fd room) in
      let p' = record p { buffer = p.buffer ++ just_read } in
      elim (Bool-cases (length just_read == 0)) [
        | inl nothing ↦ rw (e, read_rounds, nothing) (ends h)
        | inr some_bytes ↦ elim (Bool-cases (reached_end_of_output p.kind p'.buffer)) [
          | inl ended ↦ rw (e, read_rounds, some_bytes, ended) (ends h)
          | inr not_ended ↦
              rw (e, read_rounds, some_bytes, not_ended)
                (read_rounds-Ends count fuel p' (reads_from fd ∷ l) e (omega arith)
                  (later just_read p.buffer p.kind h.0 some_bytes not_ended comes) h)
        ]
      ]
    where
      later :
          {rest : Type 0} (piece text : Bytes) (kind : Kind)
          → kind ≡ llvm
          → (length piece == 0) ≡ false
          → reached_end_of_output kind (text ++ piece) ≡ false
          → (piece ≡ []) ⊎ ((reached_end_of_output llvm (text ++ piece) ≡ true) ⊎ rest)
          → rest
      later piece text kind same some_bytes not_ended (inl nothing) =
          (let clash : true ≡ false = sym (ap (λ s. length s == 0) nothing) ∙ some_bytes in cc)
      later piece text kind same some_bytes not_ended (inr (inl ended)) =
          (let other = ap (λ k. reached_end_of_output k (text ++ piece)) same in cc)
      later piece text kind same some_bytes not_ended (inr (inr r)) = r

  finish_read-Ends :
      (kind : Kind) (r : Bool × SymbolizerProcess) (l : Log)
      → kind ≡ llvm
      → IsLlvm r.1
      → Ends Kept (finish_read os kind r l)
  finish_read-Ends llvm (success, q) l e kept = ends kept
  finish_read-Ends (addr2line name) (success, q) l e kept = cc

  read_from_symbolizer-Ends :
      (fuel : ℕ) (p : SymbolizerProcess) (l : Log) {fd : ℕ}
      → p.input_fd ≡ some fd
      → limit ≤ fuel
      → Comes os limit fd [] l
      → IsLlvm p
      → Ends Kept (read_from_symbolizer os fuel p l)
  unfolding read_from_symbolizer read_buffer
  read_from_symbolizer-Ends fuel p l e enough comes h =
      Ends-bind
        (Ends-bind (read_rounds-Ends limit fuel (record p { buffer = [] }) l e enough comes h)
          λ q l' kept. ends kept)
        λ r l' kept. finish_read-Ends p.kind r l' h.0 kept

  -- The write is the only call, and what it reports is whether the command was taken in full.
  write_to_symbolizer-Ends :
      (p : SymbolizerProcess) (command : Bytes) (l : Log) {fd : ℕ}
      → p.output_fd ≡ some fd
      → command ≢ []
      → Ends
          (λ written l'.
            written ≡ true
            → (l' ≡ writes_to fd command ∷ l) × (os.write l fd command ≡ done (length command)))
          (write_to_symbolizer os p command l)
  unfolding write_to_symbolizer write_to_file
  write_to_symbolizer-Ends p [] l e some_command = absurd (some_command refl)
  write_to_symbolizer-Ends p (c ∷ s) l {fd} e some_command =
      elim (Bool-cases (wrote_all os (os.write l fd (c ∷ s)) (length (c ∷ s)))) [
        | inl whole ↦
            rw (e, write_to_symbolizer, whole)
              (ends λ yes. (refl, in_full (os.write l fd (c ∷ s)) (length (c ∷ s)) whole))
        | inr part ↦ rw (e, write_to_symbolizer, part) (ends λ yes. cc)
      ]
    where
      in_full : (answer : Io ℕ) (size : ℕ) → wrote_all os answer size ≡ true → answer ≡ done size
      in_full (failed n) size whole = cc
      in_full (done n) size whole = ap done (ground (arith, whole))

  send_on-Ends :
      (input_fd output_fd : Fd) (fuel : ℕ) (p : SymbolizerProcess) (command : Bytes) (l : Log)
      → p.input_fd ≡ input_fd
      → p.output_fd ≡ output_fd
      → limit ≤ fuel
      → command ≢ []
      → IsLlvm p
      → Ends Kept (send_on os input_fd output_fd fuel p command l)
  unfolding send_on
  send_on-Ends none output_fd fuel p command l ei eo enough some_command h = ends h
  send_on-Ends (some input) none fuel p command l ei eo enough some_command h = ends h
  send_on-Ends (some input) (some output) fuel p command l ei eo enough some_command h =
      Ends-bind (write_to_symbolizer-Ends p command l eo some_command) λ written l' taken.
        elim (Bool-cases written) [
          | inl all ↦
              let (event, in_full) = taken all in
              let comes =
                subst (Comes os limit input []) (sym event)
                  (lawful.replies l input output command some_command in_full) in
              rw all (
                Ends-bind (read_from_symbolizer-Ends fuel p l' ei enough comes h)
                  λ r l'' kept. ends kept)
          | inr not_all ↦ rw not_all (ends h)
        ]

  attempts-Ends :
      (fuel rounds : ℕ) (p : SymbolizerProcess) (command : Bytes) (l : Log)
      → limit ≤ fuel
      → command ≢ []
      → IsLlvm p
      → Ends Kept (attempts os fuel rounds p command l)
  unfolding attempts send_command_impl
  attempts-Ends fuel zero p command l enough some_command h = elim (Bool-cases p.failed_to_start) [
    | inl e ↦ rw e (ends h)
    | inr e ↦ rw e (ends h)
  ]
  attempts-Ends fuel (suc rounds) p command l enough some_command h =
      Ends-bind
        (send_on-Ends p.input_fd p.output_fd fuel p command l refl refl enough some_command h)
        λ (reply, q) l1 kept. elim (Option-cases reply) [
          | inr (text, er) ↦ rw er (ends kept)
          | inl er ↦ rw er (
              Ends-bind (restart-Ends os limit lawful q l1 kept) λ (b, r) l2 kept'.
                attempts-Ends fuel rounds (record r { times_restarted = r.times_restarted + 1 })
                  command l2 enough some_command kept')
        ]

  -- Under a system whose pipes get no descriptor below 3, whose children have positive pids,
  -- where no write meets a pipe without a reader (so that no SIGPIPE is sent), and where, behind
  -- each command that is not empty and is taken in full, at most `limit` reads end the reply or
  -- one of them gives nothing because the child has closed its end or the read fails (so that no
  -- read waits for ever), with fuel for `limit` reads: SendCommand of a command that is not
  -- empty, on a llvm-symbolizer process without posix_spawn, whose restarts are within five and
  -- which is marked as failed only at five, returns; then both still hold, the count of restarts
  -- did not go down, at most one child was started for each restart counted, and a command that
  -- got no reply left the process marked as failed.
  pub send_command-Ends :
      (fuel : ℕ) (p : SymbolizerProcess) (command : Bytes) (l : Log)
      → limit ≤ fuel
      → command ≢ []
      → IsLlvm p
      → Lives p
      → Ends (Budget p l) (send_command os fuel p command l)
  unfolding send_command
  send_command-Ends fuel p command l enough some_command h lives =
      Ends-Post (returns (Bool-cases p.failed_to_start))
        (send_command-Budget os fuel command p l lives)
    where
      returns :
          (p.failed_to_start ≡ true) ⊎ (p.failed_to_start ≡ false)
          → Ends Kept (send_command os fuel p command l)
      returns (inl e) = simp e (ends h)
      returns (inr e) = simp e (
          attempts-Ends fuel (max_times_restarted - p.times_restarted) p command l enough
            some_command h)
