-- ===== src/Memory/Replies.antt =====
-- Whole replies: what the parsers allocate, keep and free.
use sanitizer_symbolizer_too.Prelude.{
  ℕ, zero, suc, ◌+◌, ◌≤◌, ◌<◌, ◌≡◌, refl, sym, ap, subst, ◌∙◌, inl, inr, List, [], ◌∷◌, ◌++◌, map,
  arith, Bytes, codes, ◌==◌, Bool-cases, length, take, drop, All, All-append, ok, then_do,
}
use sanitizer_symbolizer_too.Clib.{strcspn}
use sanitizer_symbolizer_too.Info.{AddrInfo, FrameDat}
use sanitizer_symbolizer_too.Token.{skip, extract_token}
use sanitizer_symbolizer_too.Output.{
  unknown_to_null, clean_file, parse_frame, frames_loop, parse_symbolize_addr_output,
}
use sanitizer_symbolizer_too.Memory.Blocks.{
  Heap, wild, block, one_if, count, ◌>>=◌, give, malloc, load-live, free-live,
}
use sanitizer_symbolizer_too.Memory.{
  Frame, extract_token_mem, unknown_to_null_mem, clean_file_mem, parse_frame_mem, frames_loop_mem,
  parse_symbolize_addr_output_mem,
}
use sanitizer_symbolizer_too.Memory.Refines.{Refines, refines, Refines-bind, Refines-mono}
use sanitizer_symbolizer_too.Memory.Lines.{
  in_ptr, in_frames, in_frames-append, IsSetFrame, view_frame, fresh_live,
  parse_file_line_info_mem-Refines, frame_cleaned-Refines,
}

one_if-count : (k j : ℕ) (js : List ℕ) → 0 < count j js → one_if (k == j) ≤ count k js
one_if-count k j js h = elim (Bool-cases (k == j)) [
  | inr other ↦ rw other (omega arith)
  | inl same ↦
      let e : j ≡ k = ground arith in
      let here : 0 < count k js = subst (λ x. 0 < count x js) e h in rw same here
]

-- The name's block goes into the frame or is freed.
parse_frame_mem-Refines :
    (j : ℕ) (name str : Bytes) (h : Heap)
    → 0 < count j h.live
    → Refines {A = Frame × Bytes} {B = FrameDat × Bytes}
        (λ (f, rest) (v, rest') h'.
          (rest ≡ rest')
          × (view_frame f ≡ v)
          × IsSetFrame f
          × ((k : ℕ)
              → count k h'.live + one_if (k == j)
                ≡ count k h.live + in_ptr k f.func + in_ptr k f.file))
        (parse_frame_mem (block j name) str h)
        (parse_frame name str)
unfolding parse_frame_mem parse_frame
parse_frame_mem-Refines j name str h here =
    Refines-bind
      (parse_file_line_info_mem-Refines
        (record { func = block j name; file = wild; lin = 0; col = 0 }) str h refl)
      λ (f, rest) (v, rest') h1 (same, what, named, counts).
        subst
          (λ (x : FrameDat × Bytes).
            Refines {A = Frame × Bytes} {B = FrameDat × Bytes}
              (λ (g, left) (w, left') h'.
                (left ≡ left')
                × (view_frame g ≡ w)
                × IsSetFrame g
                × ((k : ℕ)
                    → count k h'.live + one_if (k == j)
                      ≡ count k h.live + in_ptr k g.func + in_ptr k g.file))
              ((unknown_to_null_mem f.func >>= λ func. clean_file_mem f.file f.lin >>= λ file.
                  give (record f { func = func; file = file }, rest))
                h1)
              (then_do (clean_file x.0.file x.0.lin)
                λ file. ok (record x.0 { func = unknown_to_null name; file = file }, x.1)))
          (λ i. (what i, same i))
          (Refines-mono
            (frame_cleaned-Refines j name f rest h1 named
              λ k. omega (arith, counts k, one_if-count k j h.live here))
            λ (g, left) (w, left') h2 (e, e', set, counts').
              (e, e', set, λ k. omega (arith, counts k, counts' k)))

map-append :
    (fs : List Frame) (f : Frame)
    → map view_frame (fs ++ f ∷ []) ≡ map view_frame fs ++ view_frame f ∷ []
map-append [] f = refl
map-append (g ∷ fs) f = ap (◌∷◌ (view_frame g)) (map-append fs f)

in_frames_one : (k : ℕ) (f : Frame) → in_frames k (f ∷ []) ≡ in_ptr k f.func + in_ptr k f.file
unfolding in_frames
in_frames_one k f = omega arith

-- The frames are those of the values, and hold the blocks that were added.
abbrev pub Keeps : List Frame → Heap → List Frame → List FrameDat → Heap → Type 0
Keeps frames h fs vs h' =
    (map view_frame fs ≡ vs)
    × (All IsSetFrame frames → All IsSetFrame fs)
    × ((k : ℕ) → count k h'.live + in_frames k frames ≡ count k h.live + in_frames k fs)

frames_loop_mem-Refines :
    (fuel : ℕ) (str : Bytes) (frames : List Frame) (h : Heap)
    → Refines
        (Keeps frames h)
        (frames_loop_mem fuel str frames h)
        (frames_loop fuel str (map view_frame frames))
unfolding frames_loop_mem frames_loop extract_token_mem extract_token malloc count
frames_loop_mem-Refines zero str frames h = refines tt
frames_loop_mem-Refines (suc fuel) str frames h =
    let name = take (strcspn str (codes "\n")) str in
    let rest = skip 1 (drop (strcspn str (codes "\n")) str) in
    let h1 : Heap = record { next = suc h.next; live = h.next ∷ h.live } in
    let read = load-live h.next name h1 (fresh_live h.next h.live) in
    elim (Bool-cases (length name == 0)) [
      | inl last ↦
          let (h', freed, counts) = free-live h.next name h1 (fresh_live h.next h.live) in
          rw (frames_loop_mem, frames_loop, read, last, freed)
            (refines (refl, (λ set. set), λ k. omega (arith, counts k)))
      | inr more ↦
          rw (frames_loop_mem, frames_loop, read, more)
            (Refines-bind (parse_frame_mem-Refines h.next name rest h1 (fresh_live h.next h.live))
              λ (f, left) (v, left') h2 (same, what, set, counts).
                let next_round : Refines (Keeps (frames ++ f ∷ []) h2)
                    (frames_loop_mem fuel left (frames ++ f ∷ []) h2)
                    (frames_loop fuel left' (map view_frame frames ++ v ∷ [])) =
                  subst
                    (λ (x : List FrameDat × Bytes).
                      Refines (Keeps (frames ++ f ∷ []) h2)
                        (frames_loop_mem fuel left (frames ++ f ∷ []) h2)
                        (frames_loop fuel x.1 x.0))
                    (λ i. (seen f what i, same i))
                    (frames_loop_mem-Refines fuel left (frames ++ f ∷ []) h2) in
                Refines-mono next_round λ fs vs h3 (views, sets, counts'). (
                  views,
                  λ before. sets (All-append _ frames (f ∷ []) before (set, tt)),
                  λ k. omega (
                    arith,
                    counts k,
                    counts' k,
                    in_frames-append k frames (f ∷ []),
                    in_frames_one k f,
                  ),
                ))
    ]
  where
    seen :
        (f : Frame) {v : FrameDat}
        → view_frame f ≡ v
        → map view_frame (frames ++ f ∷ []) ≡ map view_frame frames ++ v ∷ []
    seen f what = map-append frames f ∙ ap (λ x. map view_frame frames ++ x ∷ []) what

-- ParseSymbolizeAddrOutput with its calls of malloc and free implements the parser on values,
-- on every text and heap: both end in the same way, and where they return, the pointers of the
-- frames hold what the values say, no pointer is left uninitialised if none was before, and
-- besides the blocks that were live before, those of the new frames are live, each once, and
-- no other, so all else that was allocated is freed. The frames held before are those of the
-- structure.
pub parse_symbolize_addr_output_mem-Refines :
    (str : Bytes) (frames : List Frame) (info : AddrInfo) (h : Heap)
    → map view_frame frames ≡ info.frames
    → Refines
        (λ fs res h'.
          (res ≡ record info { frames = map view_frame fs })
          × (All IsSetFrame frames → All IsSetFrame fs)
          × ((k : ℕ) → count k h'.live + in_frames k frames ≡ count k h.live + in_frames k fs))
        (parse_symbolize_addr_output_mem str frames h)
        (parse_symbolize_addr_output str info)
unfolding parse_symbolize_addr_output_mem parse_symbolize_addr_output
parse_symbolize_addr_output_mem-Refines str frames info h held =
    Refines-bind
      (subst
        (λ vs.
          Refines (Keeps frames h) (frames_loop_mem (length str + 1) str frames h)
            (frames_loop (length str + 1) str vs))
        held (frames_loop_mem-Refines (length str + 1) str frames h))
      λ fs vs h' (views, sets, counts).
        refines (ap (λ x. record info { frames = x }) (sym views), sets, counts)
