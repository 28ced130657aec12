-- ===== src/Lib.antt =====
-- SanitizerSymbolizerTool: a library that starts llvm-symbolizer or addr2line as a child process,
-- sends it addresses over a pipe and parses its replies. The files of lib/ are modelled, for POSIX.
--
-- The parts, from the caller down:
-- - lib/interface.cpp holds four globals (the tool, one buffer for each kind of request, the code
--   of the tool) and the functions of include/sanitizer_symbolizer_tool.h. Interface.antt has the
--   globals as the record `Globals` and a function for each of SanSymToolInit, SanSymToolFini,
--   SanSymToolSendAddrDat and so on; Interface/Calls has the calls of a client, the extern "C"
--   wrappers. Interface/Lifecycle is about the end of a session. Interface/Session is the abstract
--   specification: a session with a running tool, frames and a symbol, and what each call may do to
--   it, with the invariant of the globals; Interface/Tools says what the two tools promise the
--   interface, Interface/Steps, Interface/Sends and Interface/Requests prove each call, and
--   Interface/Traces sequences of calls. Interface/Service and Interface/PoolService go from the
--   initialisation to a frame, with llvm-symbolizer and with addr2line. Interface/TooLong is about
--   long module names.
-- - lib/use_llvm_symbolizer.cpp: class LLVMSymbolizer formats a command, sends it and parses the
--   reply. Llvm.antt, with whole requests in Llvm/Answers and Llvm/Requests, and the first one in
--   Llvm/First. Llvm/Pieces and Llvm/SymbolPieces are about the end of a reply that is cut
--   anywhere. The parsers themselves are in Output.antt, with lemmas on numbers (Output/Numbers),
--   single lines (Output/Lines), whole replies (Output/Frames, Output/Symbol) and on any text
--   (Output/Total). Output/Reader is a reference reader, line by line, Output/Ends compares the
--   numbers at the end of a line, and Output/Agrees whole texts.
-- - lib/use_addr2line.cpp: class Addr2LinePool keeps one process for each module, at most 16.
--   Pool.antt, with the invariant of the pool in Pool/Invariant, whole requests in Pool/Requests
--   and, for a module without a process, in Pool/First, and the end of a reply in Pool/Pieces.
-- - lib/symbolizer.cpp: class SymbolizerProcess owns the child and its pipes. Symbolizer.antt has
--   its fields as a record, whose `kind` stands for the subclass, and the virtual functions that
--   compute. Process.antt has one function for each method. Process/Life and Process/Restarts
--   follow the counters over all answers of the system, Process/Starts and Process/Ends the return
--   of a command, Process/Spares and Process/Signals which children are signalled, Process/FirstUse
--   the start of the first child, Process/Recovers a child that is gone, Process/Delivery a reply
--   in pieces, Process/Pieces where the reading of one stops, Process/Terminator the end mark of
--   addr2line, Process/Replies single paths. The static functions (pipes, fork, waitpid, kill) are
--   in Child.antt, with Child/Pipes on the descriptors of pipes, the child's side of
--   StartSubprocess in Child/Redirect, Child/Inherits on what the program in the child finds open,
--   the parsing helpers in Token.antt, with their laws in Token/Splits.
-- - demo/simple_demo.c: a client. Demo.antt has its loops as functions over the calls, Demo/Fails,
--   Demo/Runs, Demo/Shows and Demo/Prints what it prints.
-- - The strings of the results: Memory.antt has ExtractToken, ExtractUptr, the parsers of replies,
--   SanSymToolFreeDataRes and SanSymToolFreeAddrRes once more, with each malloc and free.
--   Memory/Blocks is the heap, Memory/Refines compares runs with those on values, Memory/Lines and
--   Memory/Replies do so for frames and replies, Memory/Results has the reply for data and the
--   functions that free, Memory/Steps and Memory/Sessions sequences of replies and frees.
-- - Prelude.antt has the names, the list lemmas and the outcomes that all parts share, Tests.antt
--   and its modules run the code and apply the theorems at concrete inputs.
-- - lib/symbolizer.h: the structures that pass between these parts, Info.antt.
-- - lib/common.h, lib/common.cpp: names and characters in Common.antt, file functions in
--   Files.antt.
--
-- The operating system is a record of answers (System.antt): each call is answered by a function of
-- the log of all events before it, so a statement for every `Os` is one for every behaviour of the
-- system and of the children. Stateful code is a function of the log (System/Monad) and ends in an
-- `Outcome`: a value and the log, `die` for a failed CHECK, `undefined` for undefined behaviour,
-- and `spent` for a loop out of fuel. System/Post is a postcondition of the runs that return.
--
-- Strings are lists of bytes up to, and without, their NUL; a `char *` is a `CharPtr`, which may be
-- indeterminate; in Memory it is a `Ptr`, which names a block of the heap and carries its text.
-- uptr is 64 bits wide. What snprintf returns is an int, negative for a text of 2^31 bytes or more;
-- the buffer holds the text as it was cut then too, as with glibc. The C library's string functions
-- are written out in Clib.antt after their documentation, atoll with the clamping of strtoll.
--
-- Fuel: the loop over frames has the length of the text and one round more, since each round takes
-- at least one byte off it. The loop of ReadFromSymbolizer ends when the child says so, its fuel is
-- a parameter; as many rounds as a reply takes reads are enough. The loop of SendCommand has the
-- rounds that `times_restarted` leaves, out of five. The loops of the demo over an `unsigned int`
-- have a round for each address and one for the test that ends them.
--
-- The child of StartSubprocess is a function of its own: fork gives the parent its answer, and the
-- child's table of descriptors is followed from fork to execv, where a program of the system takes
-- over.
--
-- Not modelled: the failure of malloc and new, SIGPIPE, so a write to a pipe without a reader is
-- answered with an error, as in a program that ignores that signal, a call that waits for ever, the
-- text of warnings, the branches for Windows and macOS, and the build.
pub mod Prelude
pub mod Clib
pub mod Token
pub mod Common
pub mod Info
pub mod Output
pub mod Memory
pub mod System
pub mod Files
pub mod Child
pub mod Symbolizer
pub mod Process
pub mod Llvm
pub mod Pool
pub mod Interface
pub mod Demo
mod Tests
