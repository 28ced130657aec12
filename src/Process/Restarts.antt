-- ===== src/Process/Restarts.antt =====
-- `SendCommand`: the budget of restarts, and what a failed process does.
use sanitizer_symbolizer_too.Prelude.{
  ℕ, zero, suc, ◌+◌, ◌-◌, ◌≤◌, ◌≡◌, refl, sym, subst, ◌∙◌, Bool, true, false, inl, inr, Option,
  none, some, [], arith, Bytes, Bool-cases, Option-cases, ok,
}
use sanitizer_symbolizer_too.System.{Fd, Log, Os}
use sanitizer_symbolizer_too.System.Post.{Post, post, Post-bind, Post-lift, Post-mono, count_forks}
use sanitizer_symbolizer_too.Symbolizer.{
  Kind, llvm, addr2line, SymbolizerProcess, max_times_restarted,
}
use sanitizer_symbolizer_too.Process.{
  read_buffer, read_from_symbolizer, send_command_impl, send_on, attempts, send_command,
  finish_read, cut_terminator,
}
use sanitizer_symbolizer_too.Process.Life.{
  SameLife, SameLife-refl, Within, Quiet-Within, read_rounds-Within, write_to_symbolizer-Quiet,
  restart-Within,
}

module _ (os : Os) where
  finish_read-Within :
      (p q : SymbolizerProcess) (success : Bool) (l : Log)
      → SameLife p q
      → (kind : Kind) → Post (Within 0 p l) (finish_read os kind (success, q) l)
  finish_read-Within p q success l same llvm = post (same, omega arith)
  finish_read-Within p q false l same (addr2line name) = post (same, omega arith)
  finish_read-Within p q true l same (addr2line name) =
      Post-lift (Within 0 p l) (cut_terminator os q.buffer) _ l λ trimmed. post (same, omega arith)

  read_from_symbolizer-Within :
      (fuel : ℕ) (p : SymbolizerProcess) (l : Log)
      → Post (Within 0 p l) (read_from_symbolizer os fuel p l)
  unfolding read_from_symbolizer read_buffer
  read_from_symbolizer-Within fuel p l =
      Post-bind
        (Post-bind {P = λ r l'. SameLife p r.1 × (count_forks l' ≡ count_forks l)}
          (read_rounds-Within os fuel (record p { buffer = [] }) l) λ q l' w. post w)
        λ (success, q) l' w.
          Post-mono (finish_read-Within p q success l' w.0 p.kind)
            λ r l'' w'. (w'.0, omega (arith, w.1, w'.1))

  send_on-Within :
      (input_fd output_fd : Fd) (fuel : ℕ) (p : SymbolizerProcess) (command : Bytes) (l : Log)
      → Post (Within 0 p l) (send_on os input_fd output_fd fuel p command l)
  unfolding send_on
  send_on-Within none output_fd fuel p command l = post (SameLife-refl p, omega arith)
  send_on-Within (some input) none fuel p command l = post (SameLife-refl p, omega arith)
  send_on-Within (some input) (some output) fuel p command l =
      Quiet-Within 0 p l (write_to_symbolizer-Quiet os p command l) λ written l'.
        elim (Bool-cases written) [
          | inl e ↦ rw e (Post-bind (read_from_symbolizer-Within fuel p l') λ r l'' w. post w)
          | inr e ↦ rw e (post (SameLife-refl p, omega arith))
        ]

  pub send_command_impl-Within :
      (fuel : ℕ) (p : SymbolizerProcess) (command : Bytes) (l : Log)
      → Post (Within 0 p l) (send_command_impl os fuel p command l)
  unfolding send_command_impl
  send_command_impl-Within fuel p command l = send_on-Within p.input_fd p.output_fd fuel p command l

-- The restarts are within the limit, and a process is marked as failed only when they are used up.
pub record Lives (p : SymbolizerProcess) : Type 0 where
  pub within_limit : p.times_restarted ≤ max_times_restarted
  pub used_up : p.failed_to_start ≡ true → p.times_restarted ≡ max_times_restarted

-- Each child is paid for by a restart, and where no reply is given the process is marked as failed.
pub record Budget (p : SymbolizerProcess) (l : Log) (r : Option Bytes × SymbolizerProcess)
    (l' : Log) : Type 0 where
  pub lives : Lives r.1
  pub not_less : p.times_restarted ≤ r.1.times_restarted
  pub forks_paid : count_forks l' + p.times_restarted ≤ count_forks l + r.1.times_restarted
  pub gives_up : r.0 ≡ none → r.1.failed_to_start ≡ true

module _ (os : Os) (fuel : ℕ) (command : Bytes) where
  attempts-Budget :
      (rounds : ℕ) (p : SymbolizerProcess) (l : Log)
      → Lives p
      → p.times_restarted + rounds ≡ max_times_restarted
      → Post (Budget p l) (attempts os fuel rounds p command l)
  unfolding attempts count_forks
  attempts-Budget zero p l v e = elim (Bool-cases p.failed_to_start) [
    | inl failed ↦ simp failed (
        post (record {
          lives = v;
          not_less = omega arith;
          forks_paid = omega arith;
          gives_up = λ n. failed;
        }))
    | inr fresh ↦ simp fresh (
        post (record {
          lives = record { within_limit = omega arith; used_up = λ f. omega arith };
          not_less = omega arith;
          forks_paid = omega arith;
          gives_up = λ n. refl;
        }))
  ]
  attempts-Budget (suc rounds) p l v e =
      Post-bind (send_command_impl-Within os fuel p command l) λ (reply, q) l1 w.
        let q_lives : Lives q = record {
          within_limit = omega (arith, w.0.2, v.within_limit);
          used_up = λ f. w.0.2 ∙ v.used_up (sym w.0.3 ∙ f);
        } in
        elim (Option-cases reply) [
          | inr (text, er) ↦ rw er (
              post (record {
                lives = q_lives;
                not_less = omega (arith, w.0.2);
                forks_paid = omega (arith, w.0.2, w.1);
                gives_up = λ e. cc;
              }))
          | inl er ↦ rw er (
              Post-bind (restart-Within os q l1) λ (b, r) l2 w'.
                let r' = record r { times_restarted = r.times_restarted + 1 } in
                let fits : r.times_restarted + 1 + rounds ≡ max_times_restarted =
                  omega (arith, w.0.2, w'.0.2) in
                let lives : Lives r' = record {
                  within_limit = omega arith;
                  used_up = λ f.
                      absurd
                        (omega (arith, w.0.2, w'.0.2, v.used_up (sym w.0.3 ∙ (sym w'.0.3 ∙ f))));
                } in
                Post-mono (attempts-Budget rounds r' l2 lives fits) λ s l3 b'. record {
                  lives = b'.lives;
                  not_less = omega (arith, w.0.2, w'.0.2, b'.not_less);
                  forks_paid = omega (arith, w.0.2, w.1, w'.0.2, w'.1, b'.forks_paid);
                  gives_up = b'.gives_up;
                })
        ]

  -- For every system and every command on a process whose restarts are within five and which is
  -- marked as failed only at five: where SendCommand returns, both still hold, the count of
  -- restarts does not go down, at most one child was started for each restart counted, and a
  -- command that got no reply left the process marked as failed.
  pub send_command-Budget :
      (p : SymbolizerProcess) (l : Log)
      → Lives p
      → Post (Budget p l) (send_command os fuel p command l)
  unfolding send_command
  send_command-Budget p l v = elim (Bool-cases p.failed_to_start) [
    | inl failed ↦ simp failed (
        post (record {
          lives = v;
          not_less = omega arith;
          forks_paid = omega arith;
          gives_up = λ n. failed;
        }))
    | inr fresh ↦ simp fresh (
        attempts-Budget (max_times_restarted - p.times_restarted) p l v
          (omega (arith, v.within_limit)))
  ]

-- Once SendCommand gave no reply, on a process whose restarts are within five and which is
-- marked as failed only at five, every later command gives none, without a call of the system
-- and without a change of the process.
pub send_command_sticky :
    (os : Os) (fuel : ℕ) (p q : SymbolizerProcess) (command : Bytes) (l l' : Log)
    → Lives p
    → send_command os fuel p command l ≡ ok ((none, q), l')
    → (fuel' : ℕ) (later : Bytes) (l'' : Log)
    → send_command os fuel' q later l'' ≡ ok ((none, q), l'')
unfolding send_command
send_command_sticky os fuel p q command l l' v e fuel' later l'' =
    let b = (subst (Post (Budget p l)) e (send_command-Budget os fuel command p l v)).returned in
    rw (b.gives_up refl)

module _ (os : Os) (fuel : ℕ) (command : Bytes) where
  attempts-kind :
      (rounds : ℕ) (p : SymbolizerProcess) (l : Log)
      → Post (λ r l'. r.1.kind ≡ p.kind) (attempts os fuel rounds p command l)
  unfolding attempts
  attempts-kind zero p l = elim (Bool-cases p.failed_to_start) [
    | inl e ↦ rw e (post refl)
    | inr e ↦ rw e (post refl)
  ]
  attempts-kind (suc rounds) p l =
      Post-bind (send_command_impl-Within os fuel p command l) λ (reply, q) l1 w.
        elim (Option-cases reply) [
          | inr (text, er) ↦ rw er (post w.0.0)
          | inl er ↦ rw er (
              Post-bind (restart-Within os q l1) λ (b, r) l2 w'.
                Post-mono
                  (attempts-kind rounds (record r { times_restarted = r.times_restarted + 1 }) l2)
                  λ s l3 e. e ∙ (w'.0.0 ∙ w.0.0))
        ]

  -- A command leaves the subclass and its module name alone.
  pub send_command-kind :
      (p : SymbolizerProcess) (l : Log)
      → Post (λ r l'. r.1.kind ≡ p.kind) (send_command os fuel p command l)
  unfolding send_command
  send_command-kind p l = elim (Bool-cases p.failed_to_start) [
    | inl e ↦ simp e (post refl)
    | inr e ↦ simp e (attempts-kind (max_times_restarted - p.times_restarted) p l)
  ]
