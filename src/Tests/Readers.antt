-- ===== src/Tests/Readers.antt =====
-- The reference reader, run.
use sanitizer_symbolizer_too.Prelude.{
  ◌≡◌, refl, [], ◌∷◌, ◌++◌, Bytes, codes, ok, undefined, then_do,
}
use sanitizer_symbolizer_too.Clib.{byte_at, strcmp_eq}
use sanitizer_symbolizer_too.Clib.Number.{digits_value, to_llong, signed_value, atoll, to_uptr}
use sanitizer_symbolizer_too.Info.{nullptr, chars}
use sanitizer_symbolizer_too.Output.{parse_symbolize_addr_output}
use sanitizer_symbolizer_too.Output.Reader.{lines, all_digits, split_last, read_line, read_frames}
use sanitizer_symbolizer_too.Output.Agrees.{parse_symbolize_addr_output-read_frames}
use sanitizer_symbolizer_too.Tests.Requests.{request}

abbrev two_frames : Bytes
two_frames = codes "f\na:b.c:12:3\n??\nlib.so:?\n\n"

read_frames-two :
    read_frames (lines two_frames)
    ≡ ok (
        record { func = chars (codes "f"); file = chars (codes "a:b.c"); lin = 12; col = 3 }
        ∷ record { func = nullptr; file = chars (codes "lib.so"); lin = 0; col = 0 }
        ∷ [])
unfolding read_frames lines read_line split_last all_digits atoll signed_value digits_value to_llong
    to_uptr strcmp_eq byte_at
read_frames-two = refl

-- Before the last colon nothing is left.
read_frames-bare : read_frames (lines (codes "f\n:12\n")) ≡ undefined
unfolding read_frames lines read_line split_last all_digits
read_frames-bare = refl

parse_symbolize_addr_output-read_frames_example :
    parse_symbolize_addr_output two_frames request
    ≡ then_do
        (read_frames (lines two_frames))
        λ frames. ok (record request { frames = request.frames ++ frames })
parse_symbolize_addr_output-read_frames_example =
    parse_symbolize_addr_output-read_frames two_frames request
