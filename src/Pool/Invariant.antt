-- ===== src/Pool/Invariant.antt =====
-- The pool of lib/use_addr2line.cpp: how many processes it holds, and for which modules.
use sanitizer_symbolizer_too.Prelude.{
  ℕ, ◌≤◌, ◌<◌, ◌≡◌, ◌≢◌, refl, sym, ap, subst, ◌∙◌, true, false, inl, inr, Option, none, some, List,
  [], ◌∷◌, ◌++◌, map, arith, Bytes, leb, if◌then◌else◌, Bool-cases, Option-cases, length,
  length-append, All, All-append, append_assoc,
}
use sanitizer_symbolizer_too.Clib.{strcmp_eq}
use sanitizer_symbolizer_too.Clib.Laws.{strcmp_eq_iff}
use sanitizer_symbolizer_too.Info.{chars}
use sanitizer_symbolizer_too.System.{Log, Os}
use sanitizer_symbolizer_too.System.Monad.{pure, lift, check}
use sanitizer_symbolizer_too.System.Post.{Post, post, Post-bind, Post-mono, Post-any}
use sanitizer_symbolizer_too.Symbolizer.{SymbolizerProcess, new_process}
use sanitizer_symbolizer_too.Process.Restarts.{send_command-kind}
use sanitizer_symbolizer_too.Pool.{
  Addr2LinePool, pool_max, name_of, module_name, serves, Found, find_process, new_addr2line_process,
  flush_loop, flush_pool, choose_process, send_to_pool,
}

-- No element comes twice.
abbrev pub Distinct : List (Option Bytes) → Type 0
Distinct [] = Unit {0}
Distinct (x ∷ xs) = All (λ y. y ≢ x) xs × Distinct xs

Distinct-append :
    (xs : List (Option Bytes)) (x : Option Bytes)
    → Distinct xs
    → All (λ y. y ≢ x) xs
    → Distinct (xs ++ x ∷ [])
Distinct-append [] x d h = (tt, tt)
Distinct-append (y ∷ ys) x (fresh, d) (ne, h) =
    (All-append (λ z. z ≢ y) ys (x ∷ []) fresh ((λ e. ne (sym e)), tt), Distinct-append ys x d h)

abbrev pub names : List SymbolizerProcess → List (Option Bytes)
names ps = map module_name ps

names-append : (ps qs : List SymbolizerProcess) → names (ps ++ qs) ≡ names ps ++ names qs
names-append [] qs = refl
names-append (p ∷ ps) qs = ap (◌∷◌ (module_name p)) (names-append ps qs)

-- At most 16 processes, each for a module of its own.
pub record IsPool (ps : List SymbolizerProcess) : Type 0 where
  pub few : length ps ≤ pool_max
  pub distinct : Distinct (names ps)
  pub named : All (λ y. y ≢ none) (names ps)

-- A process of the pool is for the module.
abbrev pub ServedIn : Bytes → List SymbolizerProcess → Type 0
ServedIn name ps =
    (front : List SymbolizerProcess) × (p : SymbolizerProcess) × (behind : List SymbolizerProcess)
    × (ps ≡ front ++ p ∷ behind)
    × (module_name p ≡ some name)

-- What a search over `ps` gives, in the pool `all`.
abbrev Sought : Bytes → List SymbolizerProcess → List SymbolizerProcess → Option Found → Type 0
Sought name all ps none = All (λ y. y ≢ some name) (names ps)
Sought name all ps (some f) =
    (all ≡ f.front ++ f.process ∷ f.behind) × (module_name f.process ≡ some name)

-- One step of the search, past a process for another module.
Sought-step :
    (name : Bytes) (front : List SymbolizerProcess) (p : SymbolizerProcess)
    (ps : List SymbolizerProcess) {own : Bytes} (r : Option Found)
    → module_name p ≡ some own
    → strcmp_eq name own ≡ false
    → Sought name ((front ++ p ∷ []) ++ ps) ps r
    → Sought name (front ++ p ∷ ps) (p ∷ ps) r
Sought-step name front p ps {own} none e other h = (
  (λ same.
      let equal : name ≡ own = cc in
      let hit : strcmp_eq name own ≡ true = (strcmp_eq_iff name own).1 equal in cc),
  h,
)
Sought-step name front p ps (some f) e other (whole, own) =
    (sym (append_assoc front (p ∷ []) ps) ∙ whole, own)

find_process-Sought :
    (name : Bytes) (front ps : List SymbolizerProcess) (l : Log)
    → Post (λ r l'. Sought name (front ++ ps) ps r) (lift (find_process name front ps) l)
unfolding find_process serves
find_process-Sought name front [] l = post tt
find_process-Sought name front (p ∷ ps) l = elim (Option-cases (module_name p)) [
  | inl e ↦ rw (e, find_process, serves) (post tt)
  | inr (own, e) ↦ elim (Bool-cases (strcmp_eq name own)) [
    | inl same ↦
        rw (e, find_process, serves, same)
          (post (refl, e ∙ ap some (sym ((strcmp_eq_iff name own).0 same))))
    | inr other ↦
        rw (e, find_process, serves, other)
          (Post-mono (find_process-Sought name (front ++ p ∷ []) ps l)
            λ r l' h. Sought-step name front p ps r e other h)
  ]
]

-- The pool in which a process was chosen for a module.
abbrev Chosen : Bytes → Found → Type 0
Chosen name f = IsPool (f.front ++ f.process ∷ f.behind) × (module_name f.process ≡ some name)

-- A new process at the end of a pool that has room and does not serve the module.
IsPool-append :
    (ps : List SymbolizerProcess) (p : SymbolizerProcess) {name : Bytes}
    → IsPool ps
    → length ps < pool_max
    → All (λ y. y ≢ some name) (names ps)
    → module_name p ≡ some name
    → IsPool (ps ++ p ∷ [])
IsPool-append ps p {name} pool room fresh e = record {
  few = omega (arith, length-append ps (p ∷ []));
  distinct =
      rw (names-append ps (p ∷ []), e) (Distinct-append (names ps) (some name) pool.distinct fresh);
  named =
      rw (names-append ps (p ∷ []), e)
        (All-append (λ y. y ≢ none) (names ps) (some name ∷ []) pool.named ((λ n. cc), tt));
}

names-replace :
    (front behind : List SymbolizerProcess) (p q : SymbolizerProcess)
    → q.kind ≡ p.kind
    → names (front ++ p ∷ behind) ≡ names (front ++ q ∷ behind)
names-replace front behind p q e =
    names-append front (p ∷ behind)
    ∙ (ap (λ k. names front ++ name_of k ∷ names behind) (sym e)
        ∙ sym (names-append front (q ∷ behind)))

-- A process that keeps its module may change otherwise.
IsPool-replace :
    (front behind : List SymbolizerProcess) (p q : SymbolizerProcess)
    → q.kind ≡ p.kind
    → IsPool (front ++ p ∷ behind)
    → IsPool (front ++ q ∷ behind)
IsPool-replace front behind p q e pool = record {
  few = omega (arith, pool.few, length-append front (p ∷ behind), length-append front (q ∷ behind));
  distinct = subst Distinct (names-replace front behind p q e) pool.distinct;
  named = subst (All λ y. y ≢ none) (names-replace front behind p q e) pool.named;
}

module _ (os : Os) where
  flush_pool-empty :
      (s : Addr2LinePool) (l : Log) → Post (λ s' l'. s'.addr2line_pool ≡ []) (flush_pool os s l)
  unfolding flush_pool
  flush_pool-empty s l = Post-bind (Post-any (flush_loop os s.addr2line_pool l)) λ u l' v. post refl

  -- Room is made where there is none.
  make_room :
      (s : Addr2LinePool) (name : Bytes) (l : Log)
      → IsPool s.addr2line_pool
      → All (λ y. y ≢ some name) (names s.addr2line_pool)
      → Post
          (λ s' l'.
            IsPool s'.addr2line_pool
            × (length s'.addr2line_pool < pool_max)
            × All (λ y. y ≢ some name) (names s'.addr2line_pool))
          ((if leb pool_max (length s.addr2line_pool) then flush_pool os s else pure s) l)
  make_room s name l pool fresh = elim (Bool-cases (leb pool_max (length s.addr2line_pool))) [
    | inl full ↦ rw full (
        Post-mono (flush_pool-empty s l) λ s' l' e.
          subst (λ ps. IsPool ps × (length ps < pool_max) × All (λ y. y ≢ some name) (names ps))
            (sym e) (record { few = omega arith; distinct = tt; named = tt }, omega arith, tt))
    | inr room ↦ rw room (post (pool, ground arith, fresh))
  ]

  new_process-name :
      (path : Option Bytes) (name : Bytes) (l : Log)
      → Post (λ p l'. module_name p ≡ some name) (lift (new_addr2line_process path name) l)
  unfolding new_addr2line_process new_process
  new_process-name none name l = post tt
  new_process-name (some []) name l = post tt
  new_process-name (some (c ∷ path)) name l = post refl

  choose_process-Chosen :
      (s : Addr2LinePool) (name : Bytes) (l : Log)
      → IsPool s.addr2line_pool
      → Post (λ r l'. Chosen name r.1) (choose_process os s name l)
  unfolding choose_process
  choose_process-Chosen s name l pool =
      Post-bind (find_process-Sought name [] s.addr2line_pool l) λ found l1 h.
        elim (Option-cases found) [
          | inr (f, e) ↦
              let sought = subst (Sought name s.addr2line_pool s.addr2line_pool) e h in
              rw e (post (subst IsPool sought.0 pool, sought.1))
          | inl e ↦
              let fresh = subst (Sought name s.addr2line_pool s.addr2line_pool) e h in
              rw e (
                Post-bind (make_room s name l1 pool fresh) λ s' l2 (pool', room, fresh').
                  Post-bind (new_process-name s'.addr2line_path name l2) λ p l3 named.
                    post (IsPool-append s'.addr2line_pool p pool' room fresh' named, named))
        ]

  -- From a pool of at most 16 processes, no two for the same module, a request through
  -- Addr2LinePool::SendCommand for a module name that is a string leads, where it returns, to
  -- such a pool again, and one of its processes is for that module. This holds for every answer
  -- of the system, whether the process is found, added, or added behind a flush of the full
  -- pool.
  pub send_to_pool-IsPool :
      (fuel : ℕ) (s : Addr2LinePool) (name : Bytes) (offset : ℕ) (l : Log)
      → IsPool s.addr2line_pool
      → Post
          (λ r l'. IsPool r.1.addr2line_pool × ServedIn name r.1.addr2line_pool)
          (send_to_pool os fuel s (chars name) offset l)
  unfolding send_to_pool
  send_to_pool-IsPool fuel s name offset l pool =
      Post-bind (choose_process-Chosen s name l pool) λ (s', f) l1 chosen.
        Post-bind (Post-any (lift (serves name f.process) l1)) λ same l2 u.
          Post-bind (Post-any (check same l2)) λ v l3 u'.
            Post-bind (send_command-kind os fuel _ f.process l3) λ r l4 kept. post (
              IsPool-replace f.front f.behind f.process r.1 kept chosen.0,
              (f.front, r.1, f.behind, refl, ap name_of kept ∙ chosen.1),
            )
