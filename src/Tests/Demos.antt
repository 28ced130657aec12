-- ===== src/Tests/Demos.antt =====
-- The demo's requests for two addresses, answered.
use sanitizer_symbolizer_too.Prelude.{ℕ, ◌≡◌, refl, List, [], ◌∷◌, arith, Bytes, ok}
use sanitizer_symbolizer_too.Output.Frames.{Printed}
use sanitizer_symbolizer_too.System.{Log}
use sanitizer_symbolizer_too.Interface.{Globals, initial, new_addr_info}
use sanitizer_symbolizer_too.Demo.{code_rounds}
use sanitizer_symbolizer_too.Demo.Prints.{Answered, AllAnswered, demo_text, code_rounds-Answered}
use sanitizer_symbolizer_too.Demo.Shows.{serving}
use sanitizer_symbolizer_too.Tests.Processes.{started}
use sanitizer_symbolizer_too.Tests.Requests.{
  answered, answered-Fits, talking_os, pieces, pieces-print_frames, pieces-HasNo, started-IsReady,
}

abbrev replies : List (List Printed × List Bytes)
replies = (answered ∷ [], pieces) ∷ (answered ∷ [], pieces) ∷ []

address-Answered : (i : ℕ) (l : Log) → Answered talking_os 2 10 13 i l (answered ∷ []) pieces
address-Answered i l = record {
  taken = refl;
  arrives = ((refl, refl), ((refl, refl), tt));
  text = pieces-print_frames;
  no_nul = pieces-HasNo;
  some_frame = λ e. cc;
  shapes = (answered-Fits, tt);
  enough = omega arith;
}

replies-AllAnswered : AllAnswered talking_os 2 10 13 0x1320 [] replies
unfolding AllAnswered
replies-AllAnswered = (address-Answered 0x1320 [], (address-Answered 0x1321 _, tt))

code_rounds-Answered_example :
    (g' : Globals) × (l' : Log) × (code_rounds talking_os 2 3 0x1321 0x1320
        (serving initial started [] new_addr_info [])
        []
      ≡ ok ((demo_text 0x1320 replies, g'), l'))
code_rounds-Answered_example =
    code_rounds-Answered talking_os 2 replies 3 0x1320 0x1321 [] initial started [] new_addr_info
      refl (omega arith) (omega arith) started-IsReady replies-AllAnswered
