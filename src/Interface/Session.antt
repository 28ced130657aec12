-- ===== src/Interface/Session.antt =====
-- The library as its clients see it: which tool runs, the frames and the symbol that can be read.
-- Children, descriptors and logs are left out.
use sanitizer_symbolizer_too.Prelude.{
  ℕ, ◌≡◌, ◌≢◌, true, ◌⊎◌, Option, none, some, List, [], ◌++◌, Bytes, codes, length, get_elem?, All,
}
use sanitizer_symbolizer_too.Clib.{starts_with}
use sanitizer_symbolizer_too.Common.Names.{IsBaseName}
use sanitizer_symbolizer_too.Info.{nullptr, DataInfo, FrameDat, AddrInfo}
use sanitizer_symbolizer_too.Output.Total.{IsValid, IsReadable}
use sanitizer_symbolizer_too.Interface.{
  ToolCode, run_nothing, run_llvm_symbolizer, run_addr2line, RetCode, yes_init_done, yes_send_done,
  yes_read_done, err_path_not_executable, err_path_corrupted, err_unsupported_tool,
  err_symbolize_failed, err_has_nullptr, err_outofbound, SymbolizerTool, llvm_symbolizer,
  addr2line_pool, Globals, DataRead,
}
use sanitizer_symbolizer_too.Interface.Tools.{IsManned}
use sanitizer_symbolizer_too.Interface.Calls.{
  Call, init, fini, addr_free, data_free, data_read, addr_send, addr_read, data_send, Reply,
  nothing, code, sent, frame, symbol,
}
use sanitizer_symbolizer_too.Pool.Invariant.{IsPool}

pub record Session : Type 0 where
  pub running : ToolCode
  pub frames : Option (List FrameDat)
  pub current : Option DataRead

-- Before an initialisation.
abbrev pub off : Session
off = record { running = run_nothing; frames = none; current = none }

-- What can be read of a structure.
abbrev pub read_data : DataInfo → DataRead
read_data d = record { file = d.file; name = d.name; line = d.line; start = d.start; size = d.size }

abbrev pub frames_of : Option AddrInfo → Option (List FrameDat)
frames_of none = none
frames_of (some a) = some a.frames

abbrev pub current_of : Option DataInfo → Option DataRead
current_of none = none
current_of (some d) = some (read_data d)

abbrev pub view : Globals → Session
view g = record {
  running = g.running_this_tool;
  frames = frames_of g.addr_info_buf;
  current = current_of g.data_info_buf;
}

-- The tool that a path stands for, by the last component of the path.
abbrev pub IsToolFor : Option Bytes → ToolCode → ToolCode → Type 0
IsToolFor none before after = after ≡ before
IsToolFor (some path) before after =
    (base : Bytes) × IsBaseName path base
    × (((starts_with base (codes "llvm-symbolizer") ≡ true) × (after ≡ run_llvm_symbolizer))
        ⊎ ((base ≡ codes "addr2line") × (after ≡ run_addr2line)))

-- A symbol of which nothing is known.
abbrev pub no_symbol : DataRead
no_symbol = record { file = nullptr; name = nullptr; line = 0; start = 0; size = 0 }

abbrev pub Initializes : Option Bytes → Session → RetCode → Session → Type 0
Initializes path s yes_init_done s' =
    IsToolFor path s.running s'.running × (s'.frames ≡ some []) × (s'.current ≡ some no_symbol)
Initializes path s err_path_not_executable s' = s' ≡ s
Initializes path s err_path_corrupted s' = (s' ≡ s) × (path ≡ some [])
Initializes path s err_unsupported_tool s' = (s' ≡ s) × (path ≢ none)
Initializes path s _ s' = ⊥

abbrev pub emptied : Option (List FrameDat) → Option (List FrameDat)
emptied none = none
emptied (some fs) = some []

abbrev pub cleared : Option DataRead → Option DataRead
cleared none = none
cleared (some d) = some (record d { file = nullptr; name = nullptr })

abbrev pub shown : Option FrameDat → Reply
shown none = frame err_outofbound none
shown (some f) = frame yes_read_done (some f)

abbrev pub read_frame : Option (List FrameDat) → ℕ → Reply
read_frame none idx = frame err_has_nullptr none
read_frame (some fs) idx = shown (get_elem? fs idx)

abbrev pub read_current : Option DataRead → Reply
read_current none = symbol err_has_nullptr none
read_current (some d) = symbol yes_read_done (some d)

-- A request for a code address: refused where no tool runs, else it fails and changes nothing, or
-- it appends frames and tells how many there are then.
abbrev pub Sends : Session → Reply → Session → Type 0
Sends s r s' =
    ((s.running ≡ run_nothing) × (r ≡ sent err_has_nullptr none) × (s' ≡ s))
    ⊎ ((s.running ≢ run_nothing) × (r ≡ sent err_symbolize_failed none) × (s' ≡ s))
    ⊎ ((fs : List FrameDat) × (new : List FrameDat) × (s.running ≢ run_nothing)
        × (s.frames ≡ some fs)
        × All IsReadable new
        × (r ≡ sent yes_send_done (some (length (fs ++ new))))
        × (s' ≡ record s { frames = some (fs ++ new) }))

-- A request for a data address. addr2line answers none.
abbrev pub Asks : Session → Reply → Session → Type 0
Asks s r s' =
    ((s.running ≡ run_nothing) × (r ≡ code err_has_nullptr) × (s' ≡ s))
    ⊎ ((s.running ≢ run_nothing) × (r ≡ code err_symbolize_failed) × (s' ≡ s))
    ⊎ ((d : DataRead) × (s.running ≡ run_llvm_symbolizer)
        × IsValid d.file
        × IsValid d.name
        × (r ≡ code yes_send_done)
        × (s' ≡ record s { current = some d }))

-- What each call may give, and what it may leave.
abbrev pub Allows : Call → Session → Reply → Session → Type 0
Allows (init path) s r s' = (ret : RetCode) × (r ≡ code ret) × Initializes path s ret s'
Allows fini s r s' = (r ≡ nothing) × (s' ≡ off)
Allows addr_free s r s' = (r ≡ nothing) × (s' ≡ record s { frames = emptied s.frames })
Allows data_free s r s' = (r ≡ nothing) × (s' ≡ record s { current = cleared s.current })
Allows data_read s r s' = (r ≡ read_current s.current) × (s' ≡ s)
Allows (addr_read idx) s r s' = (r ≡ read_frame s.frames idx) × (s' ≡ s)
Allows (addr_send name offset) s r s' = Sends s r s'
Allows (data_send name offset) s r s' = Asks s r s'

-- The invariant of the globals: both buffers are there, or there is nothing; the code fits the
-- tool, and the tool is sound; every pointer in the buffers may be read and freed.
abbrev pub Runs : Option SymbolizerTool → ToolCode → Type 0
Runs none run_nothing = Unit {0}
Runs (some (llvm_symbolizer s)) run_llvm_symbolizer = IsManned s
Runs (some (addr2line_pool s)) run_addr2line = IsPool s.addr2line_pool
Runs _ _ = ⊥

abbrev pub Fit : Option DataInfo → Option AddrInfo → Option SymbolizerTool → ToolCode → Type 0
Fit none none none run_nothing = Unit {0}
Fit (some d) (some a) tool running =
    (IsValid d.file × IsValid d.name) × All IsReadable a.frames × Runs tool running
Fit _ _ _ _ = ⊥

abbrev pub IsWellFormed : Globals → Type 0
IsWellFormed g = Fit g.data_info_buf g.addr_info_buf g.san_sym_tool g.running_this_tool
