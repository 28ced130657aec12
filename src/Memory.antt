-- ===== src/Memory.antt =====
-- lib/symbolizer.cpp, lib/use_llvm_symbolizer.cpp and lib/interface.cpp: the parsers of the replies
-- and the functions that free their results, with each `malloc` and `free`.
pub mod Blocks
pub mod Refines
pub mod Lines
pub mod Replies
pub mod Results
pub mod Steps
pub mod Sessions
use sanitizer_symbolizer_too.Prelude.{
  ℕ, zero, suc, ◌+◌, ◌-◌, ◌*◌, ◌/◌, ◌%◌, ◌^◌, ◌≤◌, ◌<◌, ◌≡◌, ◌≢◌, ◌↔◌, refl, sym, ap, subst, ◌∙◌,
  ◌≡⟨◌⟩◌, ◌∎, Bool, true, false, not, ◌&&◌, ◌||◌, ◌⊎◌, inl, inr, Option, none, some, List, [], ◌∷◌,
  ◌++◌, map, arith, Bytes, codes, ltb, leb, ◌==◌, ==-refl, ==-ne, if◌then◌else◌, Bool-cases,
  Option-cases, length, length-append, length-drop-le, take, drop, take-append, take-length,
  take-all, drop-length, take-append-drop, length-take_of_le, drop-append, get_elem?, All,
  All-append, All-map, append_assoc, append-nil, Outcome, ok, die, undefined, spent, then_do,
  then_do-eq-ok,
}
use sanitizer_symbolizer_too.Clib.{strcspn, strcmp_eq}
use sanitizer_symbolizer_too.Clib.Number.{atoll, to_uptr}
use sanitizer_symbolizer_too.Token.{skip}
use sanitizer_symbolizer_too.Output.{number_rounds, cut_unknown_line}
use sanitizer_symbolizer_too.Memory.Blocks.{
  Ptr, wild, null, block, Mem, give, ◌>>=◌, ◌>>◌, lift_mem, malloc, free, load, store,
}

-- The fields of `FrameDat`, and those of `DataInfo` that a reply sets.
pub record Frame : Type 0 where
  pub func : Ptr
  pub file : Ptr
  pub lin : ℕ
  pub col : ℕ

pub record Data : Type 0 where
  pub file : Ptr
  pub line : ℕ
  pub name : Ptr
  pub start : ℕ
  pub size : ℕ

-- `*result` is a new block.
unfoldable pub extract_token_mem : Bytes → Bytes → Mem (Ptr × Bytes)
extract_token_mem str delims = do
  let prefix_len = strcspn str delims
  result ← malloc (take prefix_len str)
  give (result, skip 1 (drop prefix_len str))

-- `std::atoll(buff)` of a string in a block.
unfoldable pub atoll_at : Ptr → Mem ℕ
atoll_at buff = do text ← load buff; give (to_uptr (atoll text))

-- The token is freed behind its conversion.
unfoldable pub extract_uptr_mem : Bytes → Bytes → Mem (ℕ × Bytes)
unfolding atoll_at
extract_uptr_mem str delims = do
  res ← extract_token_mem str delims
  result ← atoll_at res.0
  free res.0
  give (result, res.1)

-- `ExtractToken` of a string in a block.
unfoldable pub extract_token_at : Ptr → Bytes → Mem (Ptr × Bytes)
extract_token_at str delims = do text ← load str; extract_token_mem text delims

-- The line is freed on both paths. The loop reads it and cuts it in place, and the name that is left
-- is read again.
unfoldable pub parse_file_line_info_mem : Frame → Bytes → Mem (Frame × Bytes)
unfolding extract_token_at
parse_file_line_info_mem info str = do
  res ← extract_token_mem str (codes "\n")
  text ← load res.0
  if length text == 0 then (do free res.0; give (info, res.1)) else (do
    s ← lift_mem (
        number_rounds 2
          (record { text = text; back = some (length text - 1); lin = info.lin; col = info.col }))
    line ← store res.0 s.text
    file ← extract_token_at line []
    free line
    give (record info { file = file.0; lin = s.lin; col = s.col }, res.1))

-- A string `??` is freed, and the pointer is null then.
unfoldable pub unknown_to_null_mem : Ptr → Mem Ptr
unknown_to_null_mem p = do
  s ← load p
  if strcmp_eq s (codes "??") then (do free p; give null) else give p

unfoldable pub clean_file_mem : Ptr → ℕ → Mem Ptr
unfolding unknown_to_null_mem
clean_file_mem wild lin = lift_mem undefined
clean_file_mem null lin = give null
clean_file_mem (block i s) lin = do
  file ← load (block i s)
  p ← store (block i s) (cut_unknown_line file lin)
  unknown_to_null_mem p

unfoldable pub parse_frame_mem : Ptr → Bytes → Mem (Frame × Bytes)
parse_frame_mem function_name str = do
  res ←
      parse_file_line_info_mem (record { func = function_name; file = wild; lin = 0; col = 0 }) str
  func ← unknown_to_null_mem res.0.func
  file ← clean_file_mem res.0.file res.0.lin
  give (record res.0 { func = func; file = file }, res.1)

-- `while (true)`, with fuel. The empty name that ends the loop is freed.
unfoldable pub frames_loop_mem : ℕ → Bytes → List Frame → Mem (List Frame)
frames_loop_mem zero str frames = lift_mem spent
frames_loop_mem (suc fuel) str frames = do
  res ← extract_token_mem str (codes "\n")
  name ← load res.0
  if length name == 0 then (do free res.0; give frames) else (do
    next ← parse_frame_mem res.0 res.1
    frames_loop_mem fuel next.1 (frames ++ next.0 ∷ []))

unfoldable pub parse_symbolize_addr_output_mem : Bytes → List Frame → Mem (List Frame)
parse_symbolize_addr_output_mem str frames = do
  parsed ← frames_loop_mem (length str + 1) str frames
  give parsed

-- The pointers that `info` held are overwritten.
unfoldable pub parse_symbolize_data_output_mem : Bytes → Data → Mem Data
parse_symbolize_data_output_mem str info = do
  name ← extract_token_mem str (codes "\n")
  start ← extract_uptr_mem name.1 (codes " ")
  size ← extract_uptr_mem start.1 (codes "\n")
  file ← extract_token_mem size.1 (codes ":")
  line ← extract_uptr_mem file.1 (codes "\n")
  give (record info { name = name.0; start = start.0; size = size.0; file = file.0; line = line.0 })

-- `if (p) { free(p); p = nullptr; }`
unfoldable pub free_ptr_mem : Ptr → Mem Ptr
free_ptr_mem p = do free p; give null

-- `SanSymToolFreeDataRes`, behind the test of `pDataInfoBuf`.
unfoldable pub free_data_res : Data → Mem Data
free_data_res d = do
  file ← free_ptr_mem d.file
  name ← free_ptr_mem d.name
  give (record d { file = file; name = name })

-- `SanSymToolFreeAddrRes`, likewise.
unfoldable pub free_addr_res : List Frame → Mem (List Frame)
free_addr_res [] = give []
free_addr_res (f ∷ fs) = do free f.func; free f.file; free_addr_res fs
