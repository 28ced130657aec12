-- ===== src/Memory/Steps.antt =====
-- Sequences of replies and of calls that free, on the strings that the interface holds.
use sanitizer_symbolizer_too.Prelude.{
  ℕ, ◌+◌, ◌≡◌, Bool, true, false, List, [], ◌∷◌, Bytes, if◌then◌else◌, Outcome, ok, then_do,
}
use sanitizer_symbolizer_too.Info.{AddrInfo}
use sanitizer_symbolizer_too.Output.{parse_symbolize_addr_output}
use sanitizer_symbolizer_too.Memory.Blocks.{Heap, null}
use sanitizer_symbolizer_too.Memory.{
  Frame, Data, parse_symbolize_addr_output_mem, parse_symbolize_data_output_mem, free_data_res,
  free_addr_res,
}

-- The heap and the strings that the two structures hold.
pub record Store : Type 0 where
  pub heap : Heap
  pub data_info_buf : Data
  pub frames : List Frame

-- Behind `new DataInfo()` and `new AddrInfo()`.
abbrev pub no_strings : Store
no_strings = record {
  heap = record { next = 0; live = [] };
  data_info_buf = record { file = null; line = 0; name = null; start = 0; size = 0 };
  frames = [];
}

-- A reply that is parsed, for a code address or for a data address, and the two calls that free.
pub data Step : Type 0 where
  addr_reply data_reply : Bytes → Step
  addr_free data_free : Step

unfoldable pub take_step : Step → Store → Outcome Store
take_step (addr_reply str) s =
    then_do (parse_symbolize_addr_output_mem str s.frames s.heap)
      λ r. ok (record s { frames = r.0; heap = r.1 })
take_step (data_reply str) s =
    then_do (parse_symbolize_data_output_mem str s.data_info_buf s.heap)
      λ r. ok (record s { data_info_buf = r.0; heap = r.1 })
take_step addr_free s =
    then_do (free_addr_res s.frames s.heap) λ r. ok (record s { frames = r.0; heap = r.1 })
take_step data_free s =
    then_do (free_data_res s.data_info_buf s.heap)
      λ r. ok (record s { data_info_buf = r.0; heap = r.1 })

unfoldable pub take_steps : List Step → Store → Outcome Store
take_steps [] s = ok s
take_steps (x ∷ xs) s = then_do (take_step x s) λ s'. take_steps xs s'

-- What `SanSymToolFini` does to the strings.
unfoldable pub free_all : Store → Outcome Store
free_all s = then_do (take_step data_free s) λ s'. take_step addr_free s'

-- Two strings for each data reply that comes on top of one that was not freed.
unfoldable pub lost : Bool → List Step → ℕ
lost held [] = 0
lost held (data_reply str ∷ xs) = (if held then 2 else 0) + lost true xs
lost held (data_free ∷ xs) = lost false xs
lost held (addr_reply str ∷ xs) = lost held xs
lost held (addr_free ∷ xs) = lost held xs

-- A reply that is parsed without undefined behaviour.
abbrev pub IsParsed : Step → Type 0
IsParsed (addr_reply str) =
    (info : AddrInfo) → (res : AddrInfo) × (parse_symbolize_addr_output str info ≡ ok res)
IsParsed (data_reply str) = Unit
IsParsed addr_free = Unit
IsParsed data_free = Unit
