-- ===== src/Demo/Shows.antt =====
-- The frames of one request of the demo: how they are printed and freed.
use sanitizer_symbolizer_too.Prelude.{
  ℕ, suc, ◌≡◌, refl, sym, ap, ◌∙◌, false, inl, inr, some, List, [], ◌∷◌, ◌++◌, map, arith, Bytes,
  codes, leb, Bool-cases, length, length-append, get_elem?, append_assoc, ok,
}
use sanitizer_symbolizer_too.Clib.{strcmp_eq}
use sanitizer_symbolizer_too.Clib.Laws.{strcmp_eq_iff}
use sanitizer_symbolizer_too.Info.{nullptr, AddrInfo, FrameDat}
use sanitizer_symbolizer_too.Output.{unknown_to_null}
use sanitizer_symbolizer_too.Output.Frames.{Printed, frame_of}
use sanitizer_symbolizer_too.System.{Log, Os}
use sanitizer_symbolizer_too.Symbolizer.{SymbolizerProcess}
use sanitizer_symbolizer_too.Interface.{
  Globals, llvm_symbolizer, yes_read_done, free_ptr, free_frames, san_sym_tool_read_addr_dat,
  san_sym_tool_free_addr_res,
}
use sanitizer_symbolizer_too.Interface.Calls.{addr_free, nothing, frame, call}
use sanitizer_symbolizer_too.Demo.{Line, frame_line, or_text, show_frame, frame_rounds}

-- The line for a frame: what the child printed, with 0 for a number that it did not print.
abbrev pub line_of : Printed → Line
line_of p = frame_line p.func p.file (frame_of p).lin (frame_of p).col

-- `??` becomes a null pointer, and is printed as `??` again.
or_text-unknown_to_null : (s : Bytes) → or_text (codes "??") (unknown_to_null s) ≡ ok s
unfolding or_text
or_text-unknown_to_null s = elim (Bool-cases (strcmp_eq s (codes "??"))) [
  | inl same ↦ rw same (ap ok (sym ((strcmp_eq_iff s (codes "??")).0 same)))
  | inr other ↦ rw other refl
]

free-unknown_to_null : (s : Bytes) → free_ptr (unknown_to_null s) ≡ ok nullptr
unfolding free_ptr
free-unknown_to_null s = elim (Bool-cases (strcmp_eq s (codes "??"))) [
  | inl same ↦ rw same refl
  | inr other ↦ rw other refl
]

show_frame-frame_of :
    (p : Printed) → show_frame (frame yes_read_done (some (frame_of p))) ≡ ok (line_of p)
unfolding show_frame frame_of
show_frame-frame_of p = rw (or_text-unknown_to_null p.file, or_text-unknown_to_null p.func) refl

free_frames-frame_of : (ps : List Printed) → free_frames (map frame_of ps) ≡ ok tt
unfolding free_frames frame_of
free_frames-frame_of [] = refl
free_frames-frame_of (p ∷ ps) =
    rw (free-unknown_to_null p.func, free-unknown_to_null p.file, free_frames-frame_of ps) refl

get_elem?-middle :
    (front : List FrameDat) (f : FrameDat) (fs : List FrameDat) {frames : List FrameDat} {j : ℕ}
    → frames ≡ front ++ f ∷ fs
    → j ≡ length front
    → (get_elem? frames j ≡ some f) × (leb (length frames) j ≡ false)
get_elem?-middle front f fs {frames} {j} whole at_j =
    let (found, within) = go front in
    (
      ap (get_elem? frames) at_j ∙ ap (λ x. get_elem? x (length front)) whole ∙ found,
      ap (leb (length frames)) at_j ∙ ap (λ x. leb (length x) (length front)) whole ∙ within,
    )
  where
    go :
        (front : List FrameDat)
        → (get_elem? (front ++ f ∷ fs) (length front) ≡ some f)
          × (leb (length (front ++ f ∷ fs)) (length front) ≡ false)
    go [] = (refl, ground arith)
    go (g ∷ front) = (let ih = go front in (ih.0, ground (arith, ih.1)))

-- The tool with its process, and the structure with the frames of one request.
abbrev pub serving : Globals → SymbolizerProcess → Bytes → AddrInfo → List FrameDat → Globals
serving g p command a frames = record g {
  san_sym_tool = some (llvm_symbolizer (record { symbolizer_process = some p; buffer = command }));
  addr_info_buf = some (record a { frames = frames });
}

module _ (os : Os) (fuel : ℕ) where
  pub frame_rounds-line_of :
      (ps : List Printed) (front frames : List FrameDat) (j : ℕ) (g : Globals)
      (p : SymbolizerProcess) (command : Bytes) (a : AddrInfo) (l : Log)
      → frames ≡ front ++ map frame_of ps
      → j ≡ length front
      → frame_rounds os fuel (length ps) j (serving g p command a frames) l
        ≡ ok ((map line_of ps, serving g p command a frames), l)
  unfolding frame_rounds call san_sym_tool_read_addr_dat
  frame_rounds-line_of [] front frames j g p command a l whole at_j = refl
  frame_rounds-line_of (x ∷ ps) front frames j g p command a l whole at_j =
      let (found, within) = get_elem?-middle front (frame_of x) (map frame_of ps) whole at_j in
      let rest =
        frame_rounds-line_of ps (front ++ frame_of x ∷ []) frames (suc j) g p command a l
          (whole ∙ sym (append_assoc front (frame_of x ∷ []) (map frame_of ps)))
          (omega (arith, length-append front (frame_of x ∷ []))) in
      rw (frame_rounds, within, found, show_frame-frame_of x, rest) refl

  pub freed :
      (ps : List Printed) (g : Globals) (p : SymbolizerProcess) (command : Bytes) (a : AddrInfo)
      (l : Log)
      → call os fuel addr_free (serving g p command a (map frame_of ps)) l
        ≡ ok ((nothing, serving g p command a []), l)
  unfolding call san_sym_tool_free_addr_res
  freed ps g p command a l = rw (free_frames-frame_of ps) refl
