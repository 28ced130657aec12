-- ===== src/Interface/Traces.antt =====
-- Sequences of calls of lib/interface.cpp, and those of a session.
use sanitizer_symbolizer_too.Prelude.{
  ℕ, zero, suc, ◌<◌, ◌≡◌, refl, ap, subst, false, inl, inr, Option, none, some, List, [], ◌∷◌, ◌++◌,
  arith, leb, length, get_elem?, All, ok,
}
use sanitizer_symbolizer_too.Info.{CharPtr, FrameDat, AddrInfo, DataInfo}
use sanitizer_symbolizer_too.Output.Total.{IsReadable}
use sanitizer_symbolizer_too.System.{Log, Os}
use sanitizer_symbolizer_too.System.Post.{Post}
use sanitizer_symbolizer_too.Interface.{
  ToolCode, SymbolizerTool, Globals, initial, yes_send_done, yes_read_done,
  san_sym_tool_read_addr_dat,
}
use sanitizer_symbolizer_too.Interface.Calls.{Call, addr_send, addr_read, Reply, sent, frame, call}
use sanitizer_symbolizer_too.Interface.Session.{
  Session, off, frames_of, view, Allows, Fit, IsWellFormed,
}
use sanitizer_symbolizer_too.Interface.Steps.{Obeys, get_elem?_within}
use sanitizer_symbolizer_too.Interface.Requests.{call-Obeys}

-- Calls with their replies, from one state of the globals and the log to another. Each call has its
-- own fuel.
pub data Trace (os : Os) : Globals → Log → List (Call × Reply) → Globals → Log → Type 0 where
  ended : {g : Globals} {l : Log} → Trace os g l [] g l
  called :
      {g g' g'' : Globals} {l l' l'' : Log} {c : Call} {r : Reply} {cs : List (Call × Reply)}
      (fuel : ℕ)
      → call os fuel c g l ≡ ok ((r, g'), l')
      → Trace os g' l' cs g'' l''
      → Trace os g l ((c, r) ∷ cs) g'' l''

-- The same of a session.
pub data Follows : Session → List (Call × Reply) → Session → Type 0 where
  rests : {s : Session} → Follows s [] s
  moves :
      {s s' s'' : Session} {c : Call} {r : Reply} {cs : List (Call × Reply)}
      → Allows c s r s'
      → Follows s' cs s''
      → Follows s ((c, r) ∷ cs) s''

-- A call that returned obeys.
called-Obeys :
    (os : Os) (fuel : ℕ) (c : Call) (g : Globals) (l : Log) {g' : Globals} {l' : Log} {r : Reply}
    → IsWellFormed g
    → call os fuel c g l ≡ ok ((r, g'), l')
    → Obeys c g (r, g') l'
called-Obeys os fuel c g l h e = (subst (Post (Obeys c g)) e (call-Obeys os fuel c g l h)).returned

Trace-Follows :
    {os : Os} {g g' : Globals} {l l' : Log} {cs : List (Call × Reply)}
    → Trace os g l cs g' l'
    → IsWellFormed g
    → IsWellFormed g' × Follows (view g) cs (view g')
Trace-Follows ended h = (h, rests)
Trace-Follows {os} (called {g = g} {l = l} {c = c} fuel e rest) h =
    let step = called-Obeys os fuel c g l h e in
    let later = Trace-Follows rest step.0 in (later.0, moves step.1 later.1)

-- Every sequence of calls with their replies, from the start of the program and an empty log
-- on, under every system and with any fuel for each call, ends in globals that are well
-- formed, and is a sequence that a session allows: the session knows only which tool runs, the
-- frames and the symbol that can be read, and says for each call what it may reply and leave,
-- with both outcomes of a request.
pub Trace-Follows-initial :
    (os : Os) (cs : List (Call × Reply)) {g : Globals} {l : Log}
    → Trace os initial [] cs g l
    → IsWellFormed g × Follows off cs (view g)
Trace-Follows-initial os cs trace = Trace-Follows trace tt

All-get_elem? :
    {A : Type 0} (P : A → Type 0) (xs : List A) (i : ℕ) {x : A}
    → All P xs
    → get_elem? xs i ≡ some x
    → P x
All-get_elem? P [] i h e = cc
All-get_elem? P (y ∷ ys) zero {x} h e = let same : y ≡ x = cc in subst P same h.0
All-get_elem? P (y ∷ ys) (suc i) h e = All-get_elem? P ys i h.1 e

Fit-IsReadable :
    (d : Option DataInfo) (a : AddrInfo) (t : Option SymbolizerTool) (running : ToolCode)
    → Fit d (some a) t running
    → All IsReadable a.frames
Fit-IsReadable none a t running h = absurd h
Fit-IsReadable (some d) a t running h = h.1

read_within :
    (os : Os) (fuel i : ℕ) (g : Globals) (a : Option AddrInfo) (l : Log) (fs : List FrameDat)
    → IsWellFormed g
    → g.addr_info_buf ≡ a
    → frames_of a ≡ some fs
    → i < length fs
    → (f : FrameDat) × (call os fuel (addr_read i) g l ≡ ok ((frame yes_read_done (some f), g), l))
      × IsReadable f
unfolding call san_sym_tool_read_addr_dat
read_within os fuel i g none l fs h e has within = cc
read_within os fuel i g (some a) l fs h e has within =
    let same : a.frames ≡ fs = cc in
    let inside : leb (length a.frames) i ≡ false = ground (arith, ap length same) in
    let (f, found) = get_elem?_within a.frames i inside in
    let readable =
      Fit-IsReadable g.data_info_buf a g.san_sym_tool g.running_this_tool
        (subst (λ o. Fit g.data_info_buf o g.san_sym_tool g.running_this_tool) e h) in
    (f, rw (e, call, inside, found) refl, All-get_elem? IsReadable a.frames i readable found)

-- From well-formed globals, when SanSymTool_addr_send succeeds and tells n frames,
-- SanSymTool_addr_read for every index below n then succeeds, changes nothing, and gives a
-- frame whose two names are null or strings.
pub addr_send-addr_read :
    (os : Os) (fuel fuel' : ℕ) (g : Globals) (l : Log) (name : CharPtr) (offset n i : ℕ)
    {g' : Globals} {l' : Log}
    → IsWellFormed g
    → call os fuel (addr_send name offset) g l ≡ ok ((sent yes_send_done (some n), g'), l')
    → i < n
    → (f : FrameDat) × (call os fuel' (addr_read i) g' l'
        ≡ ok ((frame yes_read_done (some f), g'), l'))
      × IsReadable f
addr_send-addr_read os fuel fuel' g l name offset n i {g'} {l'} h e within =
    let (kept, sends) = called-Obeys os fuel (addr_send name offset) g l h e in
    elim sends [
      | inl (off, refused, same) ↦ cc
      | inr (inl (on, failed, same)) ↦ cc
      | inr (inr (fs, new, on, has, readable, count, grown)) ↦
          let counted : n ≡ length (fs ++ new) = cc in
          read_within os fuel' i g' g'.addr_info_buf l' (fs ++ new) kept refl
            (ap (λ s. s.frames) grown) (omega arith)
    ]
