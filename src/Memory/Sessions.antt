-- ===== src/Memory/Sessions.antt =====
-- What every such sequence leaves on the heap.
use sanitizer_symbolizer_too.Prelude.{
  ℕ, ◌+◌, ◌≡◌, refl, ◌∙◌, Bool, true, false, List, [], ◌∷◌, ◌++◌, map, arith, Bytes, if◌then◌else◌,
  length, length-append, All, Outcome, ok, then_do,
}
use sanitizer_symbolizer_too.Info.{AddrInfo}
use sanitizer_symbolizer_too.Interface.{new_addr_info, new_data_info}
use sanitizer_symbolizer_too.Memory.Blocks.{count, length-count}
use sanitizer_symbolizer_too.Memory.Refines.{Refines-ok}
use sanitizer_symbolizer_too.Memory.Lines.{in_ptr, in_frames, IsSetFrame, view_frame}
use sanitizer_symbolizer_too.Memory.Replies.{parse_symbolize_addr_output_mem-Refines}
use sanitizer_symbolizer_too.Memory.Results.{
  in_data, IsSetData, cleared, parse_symbolize_data_output_mem_lem, free_addr_res_lem,
  free_data_res_lem,
}
use sanitizer_symbolizer_too.Memory.Steps.{
  Store, no_strings, Step, addr_reply, data_reply, addr_free, data_free, take_step, take_steps,
  free_all, lost, IsParsed,
}

count-append : (k : ℕ) (js ks : List ℕ) → count k (js ++ ks) ≡ count k js + count k ks
unfolding count
count-append k [] ks = omega arith
count-append k (j ∷ js) ks = omega (arith, count-append k js ks)

-- Each live block is held once by a structure, or is one of those that were lost.
pub record Owned (held : Bool) (gone : List ℕ) (s : Store) : Type 0 where
  pub frames_set : All IsSetFrame s.frames
  pub data_set : IsSetData s.data_info_buf
  pub data_blocks :
      (ids : List ℕ) × (length ids ≡ (if held then 2 else 0))
      × ((k : ℕ) → in_data k s.data_info_buf ≡ count k ids)
  pub blocks :
      (k : ℕ)
      → count k s.heap.live ≡ in_frames k s.frames + in_data k s.data_info_buf + count k gone

-- What a step gives: it is not undefined, and what was lost is counted.
abbrev Goes : Bool → List ℕ → ℕ → Outcome Store → Type 0
Goes held gone more r =
    (s : Store) × (gone' : List ℕ) × (r ≡ ok s)
    × Owned held gone' s
    × (length gone' ≡ length gone + more)

module _ (held : Bool) (gone : List ℕ) (s : Store) (owned : Owned held gone s) where
  addr_reply-Owned :
      (str : Bytes) → IsParsed (addr_reply str) → Goes held gone 0 (take_step (addr_reply str) s)
  unfolding take_step
  addr_reply-Owned str parsed =
      let info : AddrInfo = record new_addr_info { frames = map view_frame s.frames } in
      let (res, e) = parsed info in
      let (fs, h, run, (what, sets, counts)) =
        Refines-ok (parse_symbolize_addr_output_mem-Refines str s.frames info s.heap refl) e in
      (
        record s { frames = fs; heap = h },
        gone,
        rw run refl,
        record {
          frames_set = sets owned.frames_set;
          data_set = owned.data_set;
          data_blocks = owned.data_blocks;
          blocks = λ k. omega (arith, counts k, owned.blocks k);
        },
        omega arith,
      )

  data_reply-Owned :
      (str : Bytes) → Goes true gone (if held then 2 else 0) (take_step (data_reply str) s)
  unfolding take_step
  data_reply-Owned str =
      let (d, h, run, views, set, ids, counts) =
        parse_symbolize_data_output_mem_lem str s.data_info_buf new_data_info s.heap in
      let (old, size, old_counts) = owned.data_blocks in
      (
        record s { data_info_buf = d; heap = h },
        old ++ gone,
        rw run refl,
        record {
          frames_set = owned.frames_set;
          data_set = set;
          data_blocks = ids;
          blocks =
              λ k. omega (arith, counts k, owned.blocks k, old_counts k, count-append k old gone);
        },
        omega (arith, length-append old gone, size),
      )

  addr_free-Owned : Goes held gone 0 (take_step addr_free s)
  unfolding take_step in_frames
  addr_free-Owned =
      let (h, run, counts) =
        free_addr_res_lem s.frames s.heap owned.frames_set λ k. omega (arith, owned.blocks k) in
      (
        record s { frames = []; heap = h },
        gone,
        rw run refl,
        record {
          frames_set = tt;
          data_set = owned.data_set;
          data_blocks = owned.data_blocks;
          blocks = λ k. omega (arith, counts k, owned.blocks k);
        },
        omega arith,
      )

  data_free-Owned : Goes false gone 0 (take_step data_free s)
  unfolding take_step in_data in_ptr count
  data_free-Owned =
      let (h, run, counts) =
        free_data_res_lem s.data_info_buf s.heap owned.data_set
          λ k. omega (arith, owned.blocks k) in
      (
        record s { data_info_buf = cleared s.data_info_buf; heap = h },
        gone,
        rw run refl,
        record {
          frames_set = owned.frames_set;
          data_set = (tt, tt);
          data_blocks = ([], refl, λ k. refl);
          blocks = λ k. omega (arith, counts k, owned.blocks k);
        },
        omega arith,
      )

-- The steps one after the other.
Goes-then :
    (held : Bool) (gone : List ℕ) (more rest : ℕ) {total : ℕ} (r : Outcome Store) (xs : List Step)
    → total ≡ more + rest
    → Goes held gone more r
    → ((s : Store) (gone' : List ℕ)
        → Owned held gone' s
        → (held' : Bool) × Goes held' gone' rest (take_steps xs s))
    → (held' : Bool) × Goes held' gone total (then_do r λ s. take_steps xs s)
Goes-then held gone more rest r xs sum (s, gone', e, owned, size) next =
    let (held', (s', gone'', e', owned', size')) = next s gone' owned in
    (held', (s', gone'', rw (e, e') refl, owned', omega (arith, sum, size, size')))

take_steps-Owned :
    (xs : List Step) (held : Bool) (gone : List ℕ) (s : Store)
    → Owned held gone s
    → All IsParsed xs
    → (held' : Bool) × Goes held' gone (lost held xs) (take_steps xs s)
unfolding take_steps lost
take_steps-Owned [] held gone s owned parsed = (held, (s, gone, refl, owned, omega arith))
take_steps-Owned (addr_reply str ∷ xs) held gone s owned (here, parsed) =
    Goes-then held gone 0 (lost held xs) (take_step (addr_reply str) s) xs (omega arith)
      (addr_reply-Owned held gone s owned str here)
      λ s' gone' owned'. take_steps-Owned xs held gone' s' owned' parsed
take_steps-Owned (data_reply str ∷ xs) held gone s owned (here, parsed) =
    Goes-then true gone (if held then 2 else 0) (lost true xs) (take_step (data_reply str) s) xs
      (omega arith) (data_reply-Owned held gone s owned str)
      λ s' gone' owned'. take_steps-Owned xs true gone' s' owned' parsed
take_steps-Owned (addr_free ∷ xs) held gone s owned (here, parsed) =
    Goes-then held gone 0 (lost held xs) (take_step addr_free s) xs (omega arith)
      (addr_free-Owned held gone s owned)
      λ s' gone' owned'. take_steps-Owned xs held gone' s' owned' parsed
take_steps-Owned (data_free ∷ xs) held gone s owned (here, parsed) =
    Goes-then false gone 0 (lost false xs) (take_step data_free s) xs (omega arith)
      (data_free-Owned held gone s owned)
      λ s' gone' owned'. take_steps-Owned xs false gone' s' owned' parsed

no_strings-Owned : Owned false [] no_strings
unfolding in_frames in_data in_ptr count
no_strings-Owned = record {
  frames_set = tt;
  data_set = (tt, tt);
  data_blocks = ([], refl, λ k. refl);
  blocks = λ k. refl;
}

-- With every malloc and free in place: from an empty heap, every sequence of replies that are
-- parsed, for code or for data, and of calls of SanSymTool_addr_free and SanSymTool_data_free,
-- followed by the freeing in SanSymToolFini, runs without a read, a write or a free of a block
-- that is not live, and leaves exactly two blocks for each reply for data that came on top of
-- one whose strings were not freed, and no other. Each reply for code is one whose parse is
-- defined.
pub free_all-lost :
    (xs : List Step)
    → All IsParsed xs
    → (s t : Store) × (take_steps xs no_strings ≡ ok s)
      × (free_all s ≡ ok t)
      × (length t.heap.live ≡ lost false xs)
unfolding free_all take_step count
free_all-lost xs parsed =
    let (held, (s, gone, e, owned, size)) =
      take_steps-Owned xs false [] no_strings no_strings-Owned parsed in
    let (h, run, counts) =
      free_data_res_lem s.data_info_buf s.heap owned.data_set λ k. omega (arith, owned.blocks k) in
    let (h', run', counts') =
      free_addr_res_lem s.frames h owned.frames_set λ k. omega (arith, owned.blocks k, counts k) in
    (
      s,
      record { heap = h'; data_info_buf = cleared s.data_info_buf; frames = [] },
      e,
      rw (run, run') refl,
      length-count h'.live gone (λ k. omega (arith, owned.blocks k, counts k, counts' k))
          ∙ size
          ∙ omega arith,
    )
