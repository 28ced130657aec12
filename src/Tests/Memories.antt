-- ===== src/Tests/Memories.antt =====
-- Strings that are allocated and freed.
use sanitizer_symbolizer_too.Prelude.{
  ℕ, ◌+◌, ◌≡◌, refl, false, List, [], ◌∷◌, map, Bytes, codes, length, All, ok,
}
use sanitizer_symbolizer_too.Output.{parse_symbolize_addr_output}
use sanitizer_symbolizer_too.Output.Frames.{
  print_frames, at_empty_line, parse_symbolize_addr_output-print_frames,
}
use sanitizer_symbolizer_too.Interface.{new_addr_info}
use sanitizer_symbolizer_too.Memory.{parse_symbolize_addr_output_mem}
use sanitizer_symbolizer_too.Memory.Blocks.{count}
use sanitizer_symbolizer_too.Memory.Refines.{Refines}
use sanitizer_symbolizer_too.Memory.Lines.{in_frames, IsSetFrame, view_frame}
use sanitizer_symbolizer_too.Memory.Replies.{parse_symbolize_addr_output_mem-Refines}
use sanitizer_symbolizer_too.Memory.Steps.{
  Store, no_strings, Step, addr_reply, data_reply, addr_free, data_free, IsParsed, take_steps,
  free_all, lost,
}
use sanitizer_symbolizer_too.Memory.Sessions.{free_all-lost}
use sanitizer_symbolizer_too.Tests.Requests.{answered, answered-Fits}

abbrev reply : Bytes
reply = print_frames (answered ∷ []) (codes "\n")

parse_symbolize_addr_output_mem-Refines_example :
    Refines
      (λ fs res h'.
        (res ≡ record new_addr_info { frames = map view_frame fs })
        × (All IsSetFrame [] → All IsSetFrame fs)
        × ((k : ℕ)
            → count k h'.live + in_frames k [] ≡ count k no_strings.heap.live + in_frames k fs))
      (parse_symbolize_addr_output_mem reply [] no_strings.heap)
      (parse_symbolize_addr_output reply new_addr_info)
parse_symbolize_addr_output_mem-Refines_example =
    parse_symbolize_addr_output_mem-Refines reply [] new_addr_info no_strings.heap refl

reply-IsParsed : IsParsed (addr_reply reply)
reply-IsParsed info = (
  _,
  parse_symbolize_addr_output-print_frames (answered ∷ []) (codes "\n") info (answered-Fits, tt)
      (at_empty_line [] refl),
)

-- Two data replies with no call that frees between them.
abbrev steps : List Step
steps =
    addr_reply reply
    ∷ addr_reply reply
    ∷ data_reply (codes "v\n16 4\na.c:7\n\n")
    ∷ data_reply (codes "w\n32 8\n\n")
    ∷ addr_free
    ∷ data_free
    ∷ data_reply (codes "v\n16 4\na.c:7\n\n")
    ∷ []

lost-steps : lost false steps ≡ 2
unfolding lost
lost-steps = refl

free_all-lost_example :
    (s t : Store) × (take_steps steps no_strings ≡ ok s)
    × (free_all s ≡ ok t)
    × (length t.heap.live ≡ lost false steps)
free_all-lost_example =
    free_all-lost steps (reply-IsParsed, (reply-IsParsed, (tt, (tt, (tt, (tt, (tt, tt)))))))
