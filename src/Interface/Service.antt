-- ===== src/Interface/Service.antt =====
-- From the initialisation to the frames that are read, with a child that does its part.
use sanitizer_symbolizer_too.Prelude.{
  ℕ, zero, suc, ◌%◌, ◌^◌, ◌≤◌, ◌<◌, ◌≡◌, ◌≢◌, refl, ap, ◌∙◌, true, false, some, List, [], ◌∷◌, ◌++◌,
  map, arith, Bytes, codes, leb, length, get_elem?, All, ok,
}
use sanitizer_symbolizer_too.Clib.{starts_with}
use sanitizer_symbolizer_too.Common.{unknown, strip_module_name}
use sanitizer_symbolizer_too.Common.Names.{HasNo}
use sanitizer_symbolizer_too.Info.{chars, AddrInfo, FrameDat}
use sanitizer_symbolizer_too.Output.Frames.{Printed, Fits, print_frames, frame_of}
use sanitizer_symbolizer_too.System.{done, accesses, Log, Os}
use sanitizer_symbolizer_too.Symbolizer.{llvm}
use sanitizer_symbolizer_too.Process.Delivery.{joined, reads_log}
use sanitizer_symbolizer_too.Process.Pieces.{Arrives}
use sanitizer_symbolizer_too.Process.FirstUse.{
  Spawn, StartsWell, restarted_once, log_running, log_asked,
}
use sanitizer_symbolizer_too.Llvm
use sanitizer_symbolizer_too.Llvm.{LlvmSymbolizer, buffer_size}
use sanitizer_symbolizer_too.Llvm.Answers.{command_for}
use sanitizer_symbolizer_too.Llvm.First.{
  new_symbolizer, new_llvm_symbolizer-eq, symbolize_addr-StartsWell,
}
use sanitizer_symbolizer_too.Interface.{
  Globals, initial, with_buffers, new_addr_info, llvm_symbolizer, run_llvm_symbolizer,
  yes_init_done, yes_send_done, yes_read_done, choose_tool, init_tool, san_sym_tool_init,
  symbolize_addr, san_sym_tool_send_addr_dat, san_sym_tool_read_addr_dat,
}
use sanitizer_symbolizer_too.Interface.Calls.{init, addr_send, addr_read, code, sent, frame, call}

pub get_elem?-map :
    {A B : Type 0} (f : A → B) (xs : List A) (i : ℕ) {x : A}
    → get_elem? xs i ≡ some x
    → (get_elem? (map f xs) i ≡ some (f x)) × (leb (length (map f xs)) i ≡ false)
get_elem?-map f [] i e = cc
get_elem?-map f (y ∷ ys) zero {x} e =
    let same : y ≡ x = cc in (ap (λ z. some (f z)) same, ground arith)
get_elem?-map f (y ∷ ys) (suc i) e =
    (let ih = get_elem?-map f ys i e in (ih.0, ground (arith, ih.1)))

some-ne-nil : {A : Type 0} (xs : List A) (i : ℕ) {x : A} → get_elem? xs i ≡ some x → xs ≢ []
some-ne-nil [] i e = cc
some-ne-nil (y ∷ ys) i e = λ nil. cc

pub length-map : {A B : Type 0} (f : A → B) (xs : List A) → length (map f xs) ≡ length xs
length-map f [] = refl
length-map f (x ∷ xs) = ap suc (length-map f xs)

-- The globals behind the initialisation, and the log.
abbrev pub ready : Bytes → Globals
ready path = with_buffers initial (llvm_symbolizer (new_symbolizer path)) run_llvm_symbolizer

abbrev pub log_ready : Bytes → Log
log_ready path = accesses (some path) ∷ []

-- The request that is made of the arguments.
abbrev pub request_for : Bytes → ℕ → AddrInfo
request_for name offset = record new_addr_info {
  module_name = chars name;
  module_offset = offset % 2 ^ 32;
  module_arch = unknown;
}

choose_tool-llvm :
    (path base : Bytes)
    → path ≢ []
    → starts_with base (codes "llvm-symbolizer") ≡ true
    → choose_tool initial path base ≡ ok (yes_init_done, ready path)
unfolding choose_tool
choose_tool-llvm [] base ne e = absurd (ne refl)
choose_tool-llvm (c ∷ path) base ne e = rw (e, new_llvm_symbolizer-eq (c ∷ path) ne) refl

init_tool-llvm :
    (path base : Bytes)
    → path ≢ []
    → strip_module_name (some path) ≡ some base
    → starts_with base (codes "llvm-symbolizer") ≡ true
    → init_tool initial (some path) ≡ ok (yes_init_done, ready path)
unfolding init_tool
init_tool-llvm path base ne named e = rw (named, init_tool, choose_tool-llvm path base ne e) refl

init-ready :
    (os : Os) (fuel : ℕ) (path base : Bytes)
    → path ≢ []
    → strip_module_name (some path) ≡ some base
    → starts_with base (codes "llvm-symbolizer") ≡ true
    → os.access [] (some path) ≡ true
    → call os fuel (init (some path)) initial []
      ≡ ok ((code yes_init_done, ready path), log_ready path)
unfolding call san_sym_tool_init
init-ready os fuel path base ne named llvm_name allowed =
    rw (allowed, init_tool-llvm path base ne named llvm_name) refl

-- A request of a tool that fills in frames.
sent-frames :
    (os : Os) (fuel : ℕ) (path name : Bytes) (offset : ℕ) (l l' : Log) (s : LlvmSymbolizer)
    (fs : List FrameDat)
    → Llvm.symbolize_addr os fuel (new_symbolizer path) (request_for name offset) l
      ≡ ok ((true, s, record (request_for name offset) { frames = fs }), l')
    → call os fuel (addr_send (chars name) offset) (ready path) l
      ≡ ok (
        (
          sent yes_send_done (some (length fs)),
          record (ready path) {
            san_sym_tool = some (llvm_symbolizer s);
            addr_info_buf = some (record (request_for name offset) { frames = fs });
          },
        ),
        l',
      )
unfolding call san_sym_tool_send_addr_dat symbolize_addr
sent-frames os fuel path name offset l l' s fs e = rw e refl

pub read-frame :
    (os : Os) (fuel i : ℕ) (g : Globals) (l : Log) (a : AddrInfo) {f : FrameDat}
    → g.addr_info_buf ≡ some a
    → get_elem? a.frames i ≡ some f
    → leb (length a.frames) i ≡ false
    → call os fuel (addr_read i) g l ≡ ok ((frame yes_read_done (some f), g), l)
unfolding call san_sym_tool_read_addr_dat
read-frame os fuel i g l a e found within = rw (e, within, found) refl

-- From the start of the program: SanSymTool_init with a path that may be executed and whose
-- last component begins with llvm-symbolizer succeeds; the first SanSymTool_addr_send then
-- starts a child, succeeds and tells the number of frames that the child prints; and
-- SanSymTool_addr_read for the index of a printed frame gives that frame. The file is there,
-- two high pipes are made, the fork succeeds and the child runs when it is looked at; the
-- command is shorter than the buffer and is written in full; the child prints frames, with no
-- NUL, that arrive in any pieces that are not empty, at most as many as the fuel. The frames
-- fit as for the parser of the replies.
pub init-addr_send-addr_read :
    (os : Os) (fuel : ℕ) (path base name : Bytes) (offset : ℕ) (s : Spawn) (cs : List Bytes)
    (ps : List Printed) (i : ℕ) (p : Printed)
    → path ≢ []
    → strip_module_name (some path) ≡ some base
    → starts_with base (codes "llvm-symbolizer") ≡ true
    → os.access [] (some path) ≡ true
    → StartsWell os llvm path (log_ready path) s
    → length (command_for name (request_for name offset)) < buffer_size
    → os.write
        (log_running os llvm path (log_ready path) s)
        s.command_end
        (command_for name (request_for name offset))
      ≡ done (length (command_for name (request_for name offset)))
    → Arrives os s.reply_end []
        (log_asked os llvm path (log_ready path) s (command_for name (request_for name offset)))
        cs
    → joined cs ≡ print_frames ps (codes "\n")
    → HasNo 0 (joined cs)
    → All Fits ps
    → length cs ≤ fuel
    → get_elem? ps i ≡ some p
    → (g : Globals) × (l : Log) × (call os fuel (init (some path)) initial []
        ≡ ok ((code yes_init_done, ready path), log_ready path))
      × (call os fuel (addr_send (chars name) offset) (ready path) (log_ready path)
          ≡ ok ((sent yes_send_done (some (length ps)), g), l))
      × (call os fuel (addr_read i) g l ≡ ok ((frame yes_read_done (some (frame_of p)), g), l))
init-addr_send-addr_read os fuel path base name offset s cs ps i p ne stripped llvm_name allowed
      well fits written given text no_nul shapes enough at_i =
    let command = command_for name (request_for name offset) in
    let l' = reads_log s.reply_end cs (log_asked os llvm path (log_ready path) s command) in
    let tool : LlvmSymbolizer = record {
      symbolizer_process =
          some (record (restarted_once llvm path s) { buffer = joined cs ++ 0 ∷ [] });
      buffer = command;
    } in
    let a = record (request_for name offset) { frames = map frame_of ps } in
    let g = record (ready path) {
      san_sym_tool = some (llvm_symbolizer tool);
      addr_info_buf = some a;
    } in
    let sends = sent-frames os fuel path name offset (log_ready path) l' tool (map frame_of ps) (
      symbolize_addr-StartsWell os fuel path (log_ready path) s well (request_for name offset) name
        cs ps refl fits written given text no_nul (some-ne-nil ps i at_i) shapes enough) in
    let (found, within) = get_elem?-map frame_of ps i at_i in
    (
      g,
      l',
      init-ready os fuel path base ne stripped llvm_name allowed,
      sends ∙ ap (λ n. ok ((sent yes_send_done (some n), g), l')) (length-map frame_of ps),
      read-frame os fuel i g l' a refl found within,
    )
