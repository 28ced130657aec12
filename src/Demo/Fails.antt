-- ===== src/Demo/Fails.antt =====
-- The demo with addr2line: its requests for code, and its requests for data.
use sanitizer_symbolizer_too.Prelude.{
  ℕ, zero, suc, ◌+◌, ◌-◌, ◌%◌, ◌<◌, ◌^◌, ◌≡◌, refl, sym, ap, subst, ◌∙◌, true, false, inl, inr,
  Option, none, some, List, [], ◌∷◌, ◌++◌, arith, codes, leb, Bool-cases, ok, spent,
}
use sanitizer_symbolizer_too.Info.{chars, DataInfo, AddrInfo, FrameDat}
use sanitizer_symbolizer_too.System.{Log, Os}
use sanitizer_symbolizer_too.System.Post.{Post, post, Post-bind, Post-lift}
use sanitizer_symbolizer_too.Interface.{
  ToolCode, run_nothing, run_llvm_symbolizer, run_addr2line, SymbolizerTool, llvm_symbolizer,
  addr2line_pool, Globals, DataRead, symbolize_data, free_ptr, san_sym_tool_send_data_dat,
  san_sym_tool_read_data_dat, san_sym_tool_free_data_res,
}
use sanitizer_symbolizer_too.Interface.Calls.{addr_free, addr_send, addr_read, Reply, call}
use sanitizer_symbolizer_too.Interface.Session.{
  Session, view, no_symbol, read_data, current_of, Sends, Fit, IsWellFormed,
}
use sanitizer_symbolizer_too.Interface.Steps.{globals}
use sanitizer_symbolizer_too.Interface.Requests.{call-Obeys}
use sanitizer_symbolizer_too.Pool.{Addr2LinePool}
use sanitizer_symbolizer_too.Demo.{
  Line, data_at, symbol_line, use_prog, or_text, file_text, show_frame, show_symbol, frames_sent,
  frame_rounds, code_round, data_round, code_rounds, data_rounds,
}

-- The tool and the symbol stay.
pub record Keeps (s s' : Session) : Type 0 where
  pub same_tool : s'.running ≡ s.running
  pub same_symbol : s'.current ≡ s.current

Keeps-frames :
    {s s' : Session} (fs : Option (List FrameDat)) → s' ≡ record s { frames = fs } → Keeps s s'
Keeps-frames fs e = record {
  same_tool = ap (λ t. t.running) e;
  same_symbol = ap (λ t. t.current) e;
}

Keeps-eq : {s s' : Session} → s' ≡ s → Keeps s s'
Keeps-eq e = record { same_tool = ap (λ t. t.running) e; same_symbol = ap (λ t. t.current) e }

Keeps-trans : {s s' s'' : Session} → Keeps s s' → Keeps s' s'' → Keeps s s''
Keeps-trans h k = record {
  same_tool = k.same_tool ∙ h.same_tool;
  same_symbol = k.same_symbol ∙ h.same_symbol;
}

Sends-Keeps : (s : Session) (r : Reply) (s' : Session) → Sends s r s' → Keeps s s'
Sends-Keeps s r s' (inl (off, refused, e)) = Keeps-eq e
Sends-Keeps s r s' (inr (inl (on, failed, e))) = Keeps-eq e
Sends-Keeps s r s' (inr (inr (fs, new, on, has, readable, reply, e))) =
    Keeps-frames {s = s} {s' = s'} (some (fs ++ new)) e

-- Well-formed globals that show the same tool and symbol.
abbrev pub After : Globals → Globals → Type 0
After g g' = IsWellFormed g' × Keeps (view g) (view g')

module _ (os : Os) (fuel : ℕ) where
  frame_rounds-After :
      (rounds j : ℕ) (g : Globals) (l : Log)
      → IsWellFormed g
      → Post (λ r l'. After g r.1) (frame_rounds os fuel rounds j g l)
  unfolding frame_rounds
  frame_rounds-After zero j g l h = post (h, Keeps-eq refl)
  frame_rounds-After (suc rounds) j g l h =
      Post-bind (call-Obeys os fuel (addr_read j) g l h) λ (r, g1) l1 (h1, (reply, same)).
        Post-lift _ (show_frame r) _ l1 λ line.
          Post-bind (frame_rounds-After rounds (suc j) g1 l1 h1)
            λ rest l3 k. post (k.0, Keeps-trans (Keeps-eq same) k.1)

  code_round-After :
      (i : ℕ) (g : Globals) (l : Log)
      → IsWellFormed g
      → Post (λ r l'. After g r.1) (code_round os fuel i g l)
  unfolding code_round
  code_round-After i g l h =
      Post-bind (call-Obeys os fuel (addr_send (chars use_prog) i) g l h) λ (r, g1) l1 (h1, sends).
        Post-bind (frame_rounds-After (frames_sent r) 0 g1 l1 h1) λ (frames, g2) l2 (h2, k2).
          Post-bind (call-Obeys os fuel addr_free g2 l2 h2) λ (r', g3) l3 (h3, (reply, e)). post (
            h3,
            Keeps-trans (Sends-Keeps (view g) r (view g1) sends)
                (Keeps-trans k2 (Keeps-frames {s = view g2} _ e)),
          )

  pub code_rounds-After :
      (rounds tail i : ℕ) (g : Globals) (l : Log)
      → IsWellFormed g
      → Post (λ r l'. After g r.1) (code_rounds os fuel rounds tail i g l)
  unfolding code_rounds
  code_rounds-After zero tail i g l h = post tt
  code_rounds-After (suc rounds) tail i g l h = elim (Bool-cases (leb i tail)) [
    | inr past ↦ rw (past, code_rounds) (post (h, Keeps-eq refl))
    | inl within ↦
        rw (within, code_rounds)
          (Post-bind (code_round-After i g l h) λ (lines, g1) l1 (h1, k1).
            Post-bind (code_rounds-After rounds tail (suc i % 2 ^ 32) g1 l1 h1)
              λ rest l2 (h2, k2). post (h2, Keeps-trans k1 k2))
  ]

-- What is printed for a range of data: each address, and a symbol with no name, file or number.
unfoldable pub failed_lines : ℕ → ℕ → List Line
failed_lines zero i = []
failed_lines (suc rounds) i =
    data_at i ∷ symbol_line (codes "FAIL") (codes "FAIL") 0 0 0 ∷ failed_lines rounds (suc i)

-- addr2line runs, and no symbol is known.
pub record IsBlank (g : Globals) : Type 0 where
  pub well_formed : IsWellFormed g
  pub tool : (view g).running ≡ run_addr2line
  pub symbol : (view g).current ≡ some no_symbol

pub IsBlank-After : {g g' : Globals} → IsBlank g → After g g' → IsBlank g'
IsBlank-After h (formed, k) = record {
  well_formed = formed;
  tool = k.same_tool ∙ h.tool;
  symbol = k.same_symbol ∙ h.symbol;
}

-- A structure with the fields of a symbol.
abbrev restore : DataInfo → DataRead → DataInfo
restore d v = record d {
  file = v.file;
  name = v.name;
  line = v.line;
  start = v.start;
  size = v.size;
}

module _ (os : Os) (fuel : ℕ) where
  abbrev Fails : ℕ → Globals → Log → Type 0
  Fails i g l =
      (g' : Globals) × (data_round os fuel i g l
        ≡ ok ((data_at i ∷ symbol_line (codes "FAIL") (codes "FAIL") 0 0 0 ∷ [], g'), l))
      × IsBlank g'

  -- A round on globals that are blank.
  failed_round :
      (i : ℕ) (d : DataInfo) (a : AddrInfo) (s : Addr2LinePool) (l : Log)
      → IsBlank
          (globals (some (restore d no_symbol)) (some a) (some (addr2line_pool s)) run_addr2line)
      → Fails i
          (globals (some (restore d no_symbol)) (some a) (some (addr2line_pool s)) run_addr2line)
          l
  unfolding data_round call san_sym_tool_send_data_dat symbolize_data san_sym_tool_read_data_dat
      san_sym_tool_free_data_res free_ptr show_symbol file_text or_text
  failed_round i d a s l h =
      (_, refl, record { well_formed = h.well_formed; tool = refl; symbol = refl })

  -- Blank globals are those of a round.
  round_of :
      (i : ℕ) (d : Option DataInfo) (a : Option AddrInfo) (t : Option SymbolizerTool)
      (running : ToolCode) (l : Log)
      → Fit d a t running
      → IsBlank (globals d a t running)
      → running ≡ run_addr2line
      → current_of d ≡ some no_symbol
      → Fails i (globals d a t running) l
  round_of i (some d) (some a) (some (addr2line_pool s)) run_addr2line l h blank e current =
      let fields : read_data d ≡ no_symbol = cc in
      let same : d ≡ restore d no_symbol = ap (restore d) fields in
      subst (λ x. Fails i (globals (some x) (some a) (some (addr2line_pool s)) run_addr2line) l)
        (sym same)
        (failed_round i d a s l (
          subst (λ x. IsBlank (globals (some x) (some a) (some (addr2line_pool s)) run_addr2line))
            same blank))
  round_of i (some d) (some a) (some (llvm_symbolizer s)) run_addr2line l h blank e current =
      absurd h.2
  round_of i (some d) (some a) none run_addr2line l h blank e current = absurd h.2
  round_of i none none none run_addr2line l h blank e current = absurd h
  round_of i none none (some t) running l h blank e current = absurd h
  round_of i none (some a) t running l h blank e current = absurd h
  round_of i (some d) none t running l h blank e current = absurd h
  round_of i d a t run_nothing l h blank e current = cc
  round_of i d a t run_llvm_symbolizer l h blank e current = cc

  data_round-Fails : (i : ℕ) (g : Globals) (l : Log) → IsBlank g → Fails i g l
  data_round-Fails i g l h =
      round_of i g.data_info_buf g.addr_info_buf g.san_sym_tool g.running_this_tool l h.well_formed
        h h.tool h.symbol

  -- For every system, from well-formed globals with addr2line as the tool and no symbol known,
  -- the loop of data_each over any range whose last address is below UINT_MAX, with a round for
  -- each address and one more, returns, calls nothing of the system, prints FAIL as name and
  -- file and 0 as each number for every address, and ends in such globals again.
  pub data_rounds-Fails :
      (n rounds i tail : ℕ) (g : Globals) (l : Log)
      → i + n ≡ tail + 1
      → tail + 1 < 2 ^ 32
      → n < rounds
      → IsBlank g
      → (g' : Globals) × (data_rounds os fuel rounds tail i g l ≡ ok ((failed_lines n i, g'), l))
        × IsBlank g'
  unfolding data_rounds failed_lines
  data_rounds-Fails n zero i tail g l range small enough h = absurd (omega arith)
  data_rounds-Fails zero (suc rounds) i tail g l range small enough h =
      let past : leb i tail ≡ false = ground arith in (g, rw past refl, h)
  data_rounds-Fails (suc n) (suc rounds) i tail g l range small enough h =
      let within : leb i tail ≡ true = ground arith in
      let next : suc i % 2 ^ 32 ≡ suc i = omega arith in
      let (g1, round, h1) = data_round-Fails i g l h in
      let (g2, rest, h2) =
        data_rounds-Fails n rounds (suc i) tail g1 l (omega arith) small (omega arith) h1 in
      let rest' = ap (λ x. data_rounds os fuel rounds tail x g1 l) next ∙ rest in
      (g2, rw (within, round, rest') refl, h2)

  -- Where `tail` is the largest `unsigned int` the loop of data_each never ends.
  data_rounds-endless :
      (rounds i : ℕ) (g : Globals) (l : Log)
      → i < 2 ^ 32
      → IsBlank g
      → data_rounds os fuel rounds (2 ^ 32 - 1) i g l ≡ spent
  unfolding data_rounds
  data_rounds-endless zero i g l small h = refl
  data_rounds-endless (suc rounds) i g l small h =
      let within : leb i (2 ^ 32 - 1) ≡ true = ground arith in
      let (g1, round, h1) = data_round-Fails i g l h in
      let rest = data_rounds-endless rounds (suc i % 2 ^ 32) g1 l (omega arith) h1 in
      rw (within, round, rest) refl
