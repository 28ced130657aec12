-- ===== src/Memory/Lines.antt =====
-- The lines and strings of a frame: what the parser allocates, keeps and frees.
use sanitizer_symbolizer_too.Prelude.{
  ℕ, suc, ◌+◌, ◌-◌, ◌≤◌, ◌<◌, ◌≡◌, refl, inl, inr, some, List, [], ◌∷◌, ◌++◌, arith, Bytes, codes,
  ◌==◌, ==-refl, Bool-cases, length, take, drop, ok, then_do,
}
use sanitizer_symbolizer_too.Clib.{strcspn, strcmp_eq}
use sanitizer_symbolizer_too.Info.{FrameDat}
use sanitizer_symbolizer_too.Token.{skip, extract_token}
use sanitizer_symbolizer_too.Output.{
  number_rounds, cut_unknown_line, unknown_to_null, clean_file, parse_file_line_info,
}
use sanitizer_symbolizer_too.Memory.Blocks.{
  Heap, Ptr, wild, null, block, view, one_if, count, give, ◌>>=◌, malloc, load-live, store-live,
  free-live,
}
use sanitizer_symbolizer_too.Memory.{
  Frame, extract_token_mem, extract_token_at, parse_file_line_info_mem, unknown_to_null_mem,
  clean_file_mem,
}
use sanitizer_symbolizer_too.Memory.Refines.{Refines, refines, Refines-bind, Refines-lift}

-- How often a block stands in a pointer, and in the pointers of frames.
unfoldable pub in_ptr : ℕ → Ptr → ℕ
in_ptr i wild = 0
in_ptr i null = 0
in_ptr i (block j s) = one_if (i == j)

unfoldable pub in_frames : ℕ → List Frame → ℕ
unfolding in_ptr
in_frames i [] = 0
in_frames i (f ∷ fs) = in_ptr i f.func + in_ptr i f.file + in_frames i fs

pub in_frames-append :
    (i : ℕ) (fs gs : List Frame) → in_frames i (fs ++ gs) ≡ in_frames i fs + in_frames i gs
unfolding in_frames
in_frames-append i [] gs = omega arith
in_frames-append i (f ∷ fs) gs = omega (arith, in_frames-append i fs gs)

-- A pointer that was set.
abbrev pub IsSetPtr : Ptr → Type 0
IsSetPtr wild = ⊥
IsSetPtr null = Unit
IsSetPtr (block i s) = Unit

abbrev pub IsSetFrame : Frame → Type 0
IsSetFrame f = IsSetPtr f.func × IsSetPtr f.file

-- What the frame's pointers hold.
abbrev pub view_frame : Frame → FrameDat
view_frame f = record { func = view f.func; file = view f.file; lin = f.lin; col = f.col }

pub fresh_live : (n : ℕ) (js : List ℕ) → 0 < count n (n ∷ js)
unfolding count
fresh_live n js = (let same = ==-refl n in ground (arith, same))

-- The line is freed; `file` is a new block, or stays as it was where the line is empty.
pub parse_file_line_info_mem-Refines :
    (info : Frame) (str : Bytes) (h : Heap)
    → info.file ≡ wild
    → Refines
        (λ (f, rest) (v, rest') h'.
          (rest ≡ rest')
          × (view_frame f ≡ v)
          × (f.func ≡ info.func)
          × ((i : ℕ) → count i h'.live ≡ in_ptr i f.file + count i h.live))
        (parse_file_line_info_mem info str h)
        (parse_file_line_info (view_frame info) str)
unfolding parse_file_line_info_mem parse_file_line_info extract_token_mem extract_token malloc
    in_ptr count
parse_file_line_info_mem-Refines info str h no_file =
    let line = take (strcspn str (codes "\n")) str in
    let rest = skip 1 (drop (strcspn str (codes "\n")) str) in
    let h1 : Heap = record { next = suc h.next; live = h.next ∷ h.live } in
    let read = load-live h.next line h1 (fresh_live h.next h.live) in
    elim (Bool-cases (length line == 0)) [
      | inl empty ↦
          let (h', freed, counts) = free-live h.next line h1 (fresh_live h.next h.live) in
          rw (read, empty, freed)
            (refines (refl, refl, refl, λ i. rw no_file (omega (arith, counts i))))
      | inr full ↦
          rw (read, full)
            (Refines-lift
              (number_rounds 2 (record {
                text = line;
                back = some (length line - 1);
                lin = info.lin;
                col = info.col;
              }))
              _ _ h1
              λ s.
                let token = take (strcspn s.text []) s.text in
                let h2 : Heap = record { next = suc h1.next; live = h1.next ∷ h1.live } in
                let here : 0 < count h.next h2.live = omega (arith, fresh_live h.next h.live) in
                let (h', freed, counts) = free-live h.next s.text h2 here in
                let kept = store-live h.next line s.text h1 (fresh_live h.next h.live) in
                let again = load-live h.next s.text h1 (fresh_live h.next h.live) in
                rw (kept, extract_token_at, again, freed)
                  (refines (refl, refl, refl, λ i. omega (arith, counts i))))
    ]

-- The pointer that is left holds what the value is, and the block is freed where it is null.
unknown_to_null_mem_lem :
    (i : ℕ) (s : Bytes) (h : Heap)
    → 0 < count i h.live
    → (p : Ptr) × (h' : Heap) × (unknown_to_null_mem (block i s) h ≡ ok (p, h'))
      × (view p ≡ unknown_to_null s)
      × IsSetPtr p
      × ((k : ℕ) → count k h'.live + one_if (k == i) ≡ count k h.live + in_ptr k p)
unfolding unknown_to_null_mem in_ptr
unknown_to_null_mem_lem i s h here = elim (Bool-cases (strcmp_eq s (codes "??"))) [
  | inl same ↦
      let (h', freed, counts) = free-live i s h here in
      (
        null,
        h',
        rw (load-live i s h here, same, freed) refl,
        rw same refl,
        tt,
        λ k. omega (arith, counts k),
      )
  | inr other ↦ (block i s, h, rw (load-live i s h here, other) refl, rw other refl, tt, λ k. refl)
]

clean_file_mem-Refines :
    (p : Ptr) (lin : ℕ) (h : Heap)
    → ((k : ℕ) → in_ptr k p ≤ count k h.live)
    → Refines
        (λ q v h'.
          (view q ≡ v)
          × IsSetPtr q
          × ((k : ℕ) → count k h'.live + in_ptr k p ≡ count k h.live + in_ptr k q))
        (clean_file_mem p lin h)
        (clean_file (view p) lin)
unfolding clean_file_mem clean_file in_ptr
clean_file_mem-Refines wild lin h owned = refines tt
clean_file_mem-Refines null lin h owned = refines (refl, tt, λ k. refl)
clean_file_mem-Refines (block i s) lin h owned =
    let same = ==-refl i in
    let here : 0 < count i h.live = ground (arith, owned i) in
    let (p, h', made, what, set, counts) =
      unknown_to_null_mem_lem i (cut_unknown_line s lin) h here in
    rw (load-live i s h here, store-live i s (cut_unknown_line s lin) h here, made)
      (refines (what, set, counts))

module _ (j : ℕ) (name : Bytes) where
  -- The part of `parse_frame_mem` behind the line.
  pub frame_cleaned-Refines :
      (f : Frame) (rest : Bytes) (h : Heap)
      → f.func ≡ block j name
      → ((k : ℕ) → one_if (k == j) + in_ptr k f.file ≤ count k h.live)
      → Refines {A = Frame × Bytes} {B = FrameDat × Bytes}
          (λ (g, rest') (v, rest'') h'.
            (rest' ≡ rest'')
            × (view_frame g ≡ v)
            × IsSetFrame g
            × ((k : ℕ)
                → count k h'.live + one_if (k == j) + in_ptr k f.file
                  ≡ count k h.live + in_ptr k g.func + in_ptr k g.file))
          ((unknown_to_null_mem f.func >>= λ func. clean_file_mem f.file f.lin >>= λ file.
              give (record f { func = func; file = file }, rest))
            h)
          (then_do
            (clean_file (view f.file) f.lin)
            λ file. ok (record (view_frame f) { func = unknown_to_null name; file = file }, rest))
  frame_cleaned-Refines f rest h named owned =
      let same = ==-refl j in
      let here : 0 < count j h.live = ground (arith, owned j) in
      let (p, h1, made, what, set, counts) = unknown_to_null_mem_lem j name h here in
      rw (named, made)
        (Refines-bind (clean_file_mem-Refines f.file f.lin h1 λ k. omega (arith, counts k, owned k))
          λ q v h2 (what', set', counts').
            refines
              (refl, rw (what, what') refl, (set, set'), λ k. omega (arith, counts k, counts' k)))
