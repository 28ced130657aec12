-- ===== src/Memory/Results.antt =====
-- The reply for a data address, and the functions that free results.
use sanitizer_symbolizer_too.Prelude.{
  ℕ, suc, ◌+◌, ◌≤◌, ◌<◌, ◌≡◌, refl, List, [], ◌∷◌, arith, Bytes, codes, ==-refl, length, take, All,
  ok,
}
use sanitizer_symbolizer_too.Clib.{strcspn}
use sanitizer_symbolizer_too.Info.{DataInfo}
use sanitizer_symbolizer_too.Token.{extract_token, extract_uptr}
use sanitizer_symbolizer_too.Output.{parse_symbolize_data_output}
use sanitizer_symbolizer_too.Memory.Blocks.{
  Heap, Ptr, wild, null, block, view, count, malloc, free, load-live, free-live,
}
use sanitizer_symbolizer_too.Memory.{
  Frame, Data, extract_token_mem, extract_uptr_mem, parse_symbolize_data_output_mem, free_ptr_mem,
  free_data_res, free_addr_res,
}
use sanitizer_symbolizer_too.Memory.Lines.{in_ptr, in_frames, IsSetPtr, IsSetFrame, fresh_live}

-- The token of a number is freed again.
extract_uptr_mem_lem :
    (str delims : Bytes) (h : Heap)
    → (h' : Heap) × (extract_uptr_mem str delims h ≡ ok (extract_uptr str delims, h'))
      × ((k : ℕ) → count k h'.live ≡ count k h.live)
unfolding extract_uptr_mem extract_uptr extract_token_mem extract_token malloc count
extract_uptr_mem_lem str delims h =
    let token = take (strcspn str delims) str in
    let h1 : Heap = record { next = suc h.next; live = h.next ∷ h.live } in
    let read = load-live h.next token h1 (fresh_live h.next h.live) in
    let (h', freed, counts) = free-live h.next token h1 (fresh_live h.next h.live) in
    (h', rw (read, freed) refl, λ k. omega (arith, counts k))

-- How often a block stands in the structure.
unfoldable pub in_data : ℕ → Data → ℕ
unfolding in_ptr
in_data i d = in_ptr i d.file + in_ptr i d.name

-- What the structure holds, in the request that it is part of.
abbrev pub view_data : DataInfo → Data → DataInfo
view_data info d = record info {
  file = view d.file;
  line = d.line;
  name = view d.name;
  start = d.start;
  size = d.size;
}

abbrev pub IsSetData : Data → Type 0
IsSetData d = IsSetPtr d.file × IsSetPtr d.name

-- wait
pub parse_symbolize_data_output_mem_lem :
    (str : Bytes) (d : Data) (info : DataInfo) (h : Heap)
    → (d' : Data) × (h' : Heap) × (parse_symbolize_data_output_mem str d h ≡ ok (d', h'))
      × (parse_symbolize_data_output str (view_data info d) ≡ view_data info d')
      × IsSetData d'
      × ((ids : List ℕ) × (length ids ≡ 2) × ((k : ℕ) → in_data k d' ≡ count k ids))
      × ((k : ℕ) → count k h'.live ≡ count k h.live + in_data k d')
unfolding parse_symbolize_data_output_mem parse_symbolize_data_output extract_token_mem
    extract_token malloc count in_data in_ptr
parse_symbolize_data_output_mem_lem str d info h =
    let name = extract_token str (codes "\n") in
    let h1 : Heap = record { next = suc h.next; live = h.next ∷ h.live } in
    let start = extract_uptr name.1 (codes " ") in
    let (h2, start_read, start_counts) = extract_uptr_mem_lem name.1 (codes " ") h1 in
    let size = extract_uptr start.1 (codes "\n") in
    let (h3, size_read, size_counts) = extract_uptr_mem_lem start.1 (codes "\n") h2 in
    let file = extract_token size.1 (codes ":") in
    let h4 : Heap = record { next = suc h3.next; live = h3.next ∷ h3.live } in
    let line = extract_uptr file.1 (codes "\n") in
    let (h5, line_read, line_counts) = extract_uptr_mem_lem file.1 (codes "\n") h4 in
    (
      record {
        file = block h3.next file.0;
        line = line.0;
        name = block h.next name.0;
        start = start.0;
        size = size.0;
      },
      h5,
      rw (start_read, size_read, line_read) refl,
      refl,
      (tt, tt),
      (h3.next ∷ h.next ∷ [], refl, λ k. omega arith),
      λ k. omega (arith, start_counts k, size_counts k, line_counts k),
    )

free_ptr_mem_lem :
    (p : Ptr) (h : Heap)
    → IsSetPtr p
    → ((k : ℕ) → in_ptr k p ≤ count k h.live)
    → (h' : Heap) × (free p h ≡ ok (tt, h'))
      × ((k : ℕ) → count k h'.live + in_ptr k p ≡ count k h.live)
unfolding free in_ptr
free_ptr_mem_lem wild h set owned = absurd set
free_ptr_mem_lem null h set owned = (h, refl, λ k. omega arith)
free_ptr_mem_lem (block i s) h set owned =
    let same = ==-refl i in
    let here : 0 < count i h.live = ground (arith, owned i) in
    let (h', freed, counts) = free-live i s h here in (h', freed, λ k. omega (arith, counts k))

pub free_addr_res_lem :
    (fs : List Frame) (h : Heap)
    → All IsSetFrame fs
    → ((k : ℕ) → in_frames k fs ≤ count k h.live)
    → (h' : Heap) × (free_addr_res fs h ≡ ok ([], h'))
      × ((k : ℕ) → count k h'.live + in_frames k fs ≡ count k h.live)
unfolding free_addr_res in_frames
free_addr_res_lem [] h set owned = (h, refl, λ k. omega arith)
free_addr_res_lem (f ∷ fs) h ((func_set, file_set), later) owned =
    let (h1, freed, counts) = free_ptr_mem_lem f.func h func_set λ k. omega (arith, owned k) in
    let (h2, freed', counts') =
      free_ptr_mem_lem f.file h1 file_set λ k. omega (arith, owned k, counts k) in
    let (h3, freed'', counts'') =
      free_addr_res_lem fs h2 later λ k. omega (arith, owned k, counts k, counts' k) in
    (
      h3,
      rw (freed, free_addr_res, freed', freed'') refl,
      λ k. omega (arith, counts k, counts' k, counts'' k),
    )

abbrev pub cleared : Data → Data
cleared d = record d { file = null; name = null }

pub free_data_res_lem :
    (d : Data) (h : Heap)
    → IsSetData d
    → ((k : ℕ) → in_data k d ≤ count k h.live)
    → (h' : Heap) × (free_data_res d h ≡ ok (cleared d, h'))
      × ((k : ℕ) → count k h'.live + in_data k d ≡ count k h.live)
unfolding free_data_res free_ptr_mem in_data
free_data_res_lem d h (file_set, name_set) owned =
    let (h1, freed, counts) = free_ptr_mem_lem d.file h file_set λ k. omega (arith, owned k) in
    let (h2, freed', counts') =
      free_ptr_mem_lem d.name h1 name_set λ k. omega (arith, owned k, counts k) in
    (h2, rw (freed, freed') refl, λ k. omega (arith, counts k, counts' k))
