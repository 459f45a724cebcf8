-- ===== src/Wmap/Fault/Killed.antt =====
-- The page fault of p4/xv6-public/trap.c where something fails.
use cs537_group_projects.Base.{
  ℕ, ◌≡◌, refl, sym, subst, List, [], ◌∷◌, ◌++◌, Option, none, some, Bool, true, Option-cases, inl,
  inr, ◌⊎◌, ◌∙◌,
}
use cs537_group_projects.Wmap.State.{
  Outcome, done, null_access, panic, ◌>>=◌, Entry, Proc, PageDir, Effect, page_round_down, pte_w,
  freed,
}
use cs537_group_projects.Wmap.Fault.{
  count_page, mappages, find_covering, page_bytes, load_page, page_fault, kill_process, pte_u,
}
use Prim.Native.Nat.{bit_or}

-- The process is killed and is otherwise as it was, but for the log.
abbrev Stopped : Proc → Proc → List Effect → Type 0
Stopped p q log = (q.killed ≡ true) × (q.pgdir ≡ p.pgdir) × (q.mmaps ≡ p.mmaps) × (q.log ≡ log)

-- Where a mapping has the address and `kalloc` gave a page, that page is given back, and nothing
-- else; where no mapping has it, or there was no page, nothing is.
abbrev pub Killed : Proc → Proc → ℕ → Option ℕ → Type 0
Killed p q va mem =
    (((find_covering va p.mmaps ≡ none) ⊎ (mem ≡ none)) × Stopped p q p.log)
    ⊎ ((cut : List Entry × Entry × List Entry) × (pa : ℕ) × (find_covering va p.mmaps ≡ some cut)
        × (mem ≡ some pa)
        × Stopped p q (p.log ++ (freed pa ∷ [])))

given_back :
    (p q : Proc) (pa : ℕ)
    → kill_process (record p { log = p.log ++ (freed pa ∷ []) }) ≡ q
    → Stopped p q (p.log ++ (freed pa ∷ []))
given_back p q pa e = subst (λ q. Stopped p q (p.log ++ (freed pa ∷ []))) e (refl, refl, refl, refl)

counted-Stopped :
    (m : Outcome (Option PageDir)) (pa : ℕ) (bytes : ℕ → ℕ) (p q : Proc) (front : List Entry)
    (me : Entry) (back : List Entry)
    → (m >>= count_page pa bytes p front me back) ≡ done (q, none)
    → Stopped p q (p.log ++ (freed pa ∷ []))
unfolding count_page
counted-Stopped (done none) pa bytes p q front me back e = given_back p q pa cc
counted-Stopped (done (some pgdir)) pa bytes p q front me back e = cc
counted-Stopped null_access pa bytes p q front me back e = cc
counted-Stopped panic pa bytes p q front me back e = cc

load_page-Stopped :
    (read : ℕ → ℕ → Option (ℕ × (ℕ → ℕ))) (table : Bool) (pa va : ℕ) (p q : Proc)
    (front : List Entry) (me : Entry) (back : List Entry)
    → load_page read table pa va p front me back ≡ done (q, none)
    → Stopped p q (p.log ++ (freed pa ∷ []))
unfolding load_page
load_page-Stopped read table pa va p q front me back e =
    elim (Option-cases (page_bytes read va me)) [
      | inl unread ↦
          let fails : load_page read table pa va p front me back
              ≡ done (kill_process (record p { log = p.log ++ (freed pa ∷ []) }), none) =
            rw (unread, load_page) refl in
          given_back p q pa cc
      | inr (bytes, loaded) ↦
          let goes : load_page read table pa va p front me back ≡ (
              mappages table p.pgdir (page_round_down va) pa (bit_or pte_w pte_u)
              >>= count_page pa bytes p front me back) =
            rw (loaded, load_page) refl in
          counted-Stopped (mappages table p.pgdir (page_round_down va) pa (bit_or pte_w pte_u)) pa
            bytes p q front me back (sym goes ∙ e)
    ]

-- A fault that maps no page kills the process, whose page table and mappings stay as before. Where
-- a mapping has the address and `kalloc` gave a page, exactly this page is given back; otherwise
-- none is.
pub page_fault-kills :
    (read : ℕ → ℕ → Option (ℕ × (ℕ → ℕ))) (mem : Option ℕ) (table : Bool) (va : ℕ) (p q : Proc)
    → page_fault read mem table va p ≡ done (q, none)
    → Killed p q va mem
unfolding page_fault
page_fault-kills read none table va p q e =
    let same : page_fault read none table va p ≡ done (kill_process p, none) =
      elim (Option-cases (find_covering va p.mmaps)) [
        | inl outside ↦ rw (outside, page_fault) refl
        | inr (cut, inside) ↦ rw (inside, page_fault) refl
      ] in
    let after : kill_process p ≡ q = cc in
    inl (inr refl, subst (λ q. Stopped p q p.log) after (refl, refl, refl, refl))
page_fault-kills read (some pa) table va p q e = elim (Option-cases (find_covering va p.mmaps)) [
  | inl outside ↦
      let fails : page_fault read (some pa) table va p ≡ done (kill_process p, none) =
        rw (outside, page_fault) refl in
      let after : kill_process p ≡ q = cc in
      inl (inl outside, subst (λ q. Stopped p q p.log) after (refl, refl, refl, refl))
  | inr ((front, me, back), inside) ↦
      let goes : page_fault read (some pa) table va p ≡ load_page read table pa va p front me back =
        rw (inside, page_fault) refl in
      inr (
        (front, me, back),
        pa,
        inside,
        refl,
        load_page-Stopped read table pa va p q front me back (sym goes ∙ e),
      )
]
