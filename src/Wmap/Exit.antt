-- ===== src/Wmap/Exit.antt =====
-- The loop of `exit` in p4/xv6-public/proc.c over the mappings of the process.
use cs537_group_projects.Base.{
  ℕ, zero, suc, ◌+◌, ◌≤◌, ◌≡◌, ◌⊎◌, inl, inr, refl, sym, ap, subst, ◌∙◌, List, [], ◌∷◌, ◌++◌,
  Option, none, some, true, false, length, arith, Bool-cases, if◌then◌else◌,
}
use cs537_group_projects.Wmap.State.{
  Outcome, done, null_access, panic, ◌>>=◌, >>=-eq-done, u32, page_size, map_private, map_shared,
  has, Entry, PageDir, walkpgdir, set_pte, pte_p, pte_w, pte_addr, without_w, Proc, Effect, freed,
  freed_entry, wrote_on, close_if,
}
use cs537_group_projects.Wmap.Map.{pages}

-- A page that is present is cleared and given back.
unfoldable pub free_page : ℕ → PageDir × List Effect → PageDir × List Effect
unfolding walkpgdir set_pte has
free_page va (pgdir, log) = elim (walkpgdir pgdir va) [
  | none ↦ (pgdir, log)
  | some pte ↦
      if has pte pte_p
      then (set_pte pgdir va 0, log ++ (freed (pte_addr pte) ∷ []))
      else (pgdir, log)
]

-- The rounds left, and the offset `i`.
unfoldable pub free_pages : ℕ → ℕ → ℕ → PageDir × List Effect → PageDir × List Effect
unfolding free_page
free_pages zero i addr r = r
free_pages (suc n) i addr r = free_pages n (i + page_size) addr (free_page (u32 (addr + i)) r)

-- A page that is present and writable is written to the file, which is not tested before.
unfoldable pub write_back : Option ℕ → ℕ → PageDir × List Effect → Outcome (PageDir × List Effect)
unfolding walkpgdir set_pte has
write_back file va (pgdir, log) = elim (walkpgdir pgdir va) [
  | none ↦ done (pgdir, log)
  | some pte ↦
      if has pte pte_p
      then (if has pte pte_w
          then elim file [
            | none ↦ null_access
            | some f ↦ done (set_pte pgdir va (without_w pte), log ++ (wrote_on f va ∷ []))
          ]
          else done (pgdir, log))
      else done (pgdir, log)
]

unfoldable pub write_pages :
    ℕ → Option ℕ → ℕ → ℕ → PageDir × List Effect → Outcome (PageDir × List Effect)
unfolding write_back free_page
write_pages zero file i addr r = done r
write_pages (suc n) file i addr r = write_back file (u32 (addr + i)) r >>= λ q.
    write_pages n file (i + page_size) addr (free_page (u32 (addr + i)) q)

-- A round of the loop for the first mapping. It is taken out of the list in the case of MAP_SHARED.
unfoldable pub exit_round : Entry → List Entry → Proc → Outcome Proc
unfolding has free_pages write_pages close_if
exit_round me rest p =
    if has me.flags map_private
    then (let r = free_pages (pages me.length) 0 me.addr (p.pgdir, p.log) in
        done (record p { pgdir = r.0; log = r.1 }))
    else (if has me.flags map_shared
        then (write_pages (pages me.length) me.file 0 me.addr (p.pgdir, p.log) >>= λ r.
            close_if (record p { pgdir = r.0; log = r.1 }) me.file >>= λ q.
            done (record q { mmaps = rest; log = q.log ++ (freed_entry me.addr ∷ []) }))
        else done p)

-- The loop, for the rounds that are left; none where they are used up.
unfoldable pub exit_mappings : ℕ → Proc → Outcome (Option Proc)
unfolding exit_round
exit_mappings zero p = elim p.mmaps [ [] ↦ done (some p) | me ∷ rest ↦ done none ]
exit_mappings (suc n) p = elim p.mmaps [
  | [] ↦ done (some p)
  | me ∷ rest ↦ exit_round me rest p >>= exit_mappings n
]

-- The mappings that a round takes out of the list, and the others.
abbrev pub IsShared : Entry → Type 0
IsShared me = (has me.flags map_private ≡ false) × (has me.flags map_shared ≡ true)

abbrev pub AllShared : List Entry → Type 0
AllShared [] = Unit
AllShared (me ∷ mes) = IsShared me × AllShared mes

-- A mapping that is private, behind any number of others.
abbrev pub SomePrivate : List Entry → Type 0
SomePrivate [] = ⊥
SomePrivate (me ∷ mes) = (has me.flags map_private ≡ true) ⊎ SomePrivate mes

exit_round-shared :
    (me : Entry) (rest : List Entry) (p q : Proc)
    → has me.flags map_private ≡ false
    → has me.flags map_shared ≡ true
    → exit_round me rest p ≡ done q
    → q.mmaps ≡ rest
unfolding exit_round
exit_round-shared me rest p q private shared e =
    let whole : shared_round ≡ done q = sym (rw (exit_round, private, shared) refl) ∙ e in
    let (r, wrote, closing) = >>=-eq-done written close whole in
    let (t, closed, ending) = >>=-eq-done (closed_of r) last closing in
    let same : record t { mmaps = rest; log = t.log ++ (freed_entry me.addr ∷ []) } ≡ q = cc in
    sym (ap Proc.mmaps same)
  where
    written : Outcome (PageDir × List Effect)
    written = write_pages (pages me.length) me.file 0 me.addr (p.pgdir, p.log)

    closed_of : PageDir × List Effect → Outcome Proc
    closed_of r = close_if (record p { pgdir = r.0; log = r.1 }) me.file

    last : Proc → Outcome Proc
    last q = done (record q { mmaps = rest; log = q.log ++ (freed_entry me.addr ∷ []) })

    close : PageDir × List Effect → Outcome Proc
    close r = closed_of r >>= last

    shared_round : Outcome Proc
    shared_round = written >>= close

-- A round that goes on, and one that faults.
Outcome-cases : (o : Outcome Proc) → ((q : Proc) × (o ≡ done q)) ⊎ ((o ≡ null_access) ⊎ (o ≡ panic))
Outcome-cases (done q) = inl (q, refl)
Outcome-cases null_access = inr (inl refl)
Outcome-cases panic = inr (inr refl)

-- What the loop comes to when all mappings are gone, or a round faults.
abbrev pub Ends : Outcome (Option Proc) → Type 0
Ends o = ((q : Proc) × (o ≡ done (some q)) × (q.mmaps ≡ [])) ⊎ ((o ≡ null_access) ⊎ (o ≡ panic))

exit_mappings-more :
    (n : ℕ) (mes : List Entry) (p : Proc)
    → p.mmaps ≡ mes
    → AllShared mes
    → length mes ≤ n
    → Ends (exit_mappings n p)
unfolding exit_mappings
exit_mappings-more zero [] p e shared room = rw (exit_mappings, e) (inl (p, refl, e))
exit_mappings-more (suc n) [] p e shared room = rw (exit_mappings, e) (inl (p, refl, e))
exit_mappings-more zero (me ∷ mes) p e shared room = absurd (omega (arith, room))
exit_mappings-more (suc n) (me ∷ mes) p e ((private, is_shared), shared) room =
    elim (Outcome-cases (exit_round me mes p)) [
      | inl (q, ran) ↦
          rw (exit_mappings, e, ran)
            (exit_mappings-more n mes q (exit_round-shared me mes p q private is_shared ran) shared
              (omega (arith, room)))
      | inr (inl fault) ↦ rw (exit_mappings, e, fault) (inr (inl refl))
      | inr (inr lost) ↦ rw (exit_mappings, e, lost) (inr (inr refl))
    ]

-- Where all mappings are shared, the loop of `exit` ends within a round for each: with no mapping
-- left, or in a round that reads through a null pointer or panics.
pub exit_mappings-Ends :
    (n : ℕ) (p : Proc) → AllShared p.mmaps → length p.mmaps ≤ n → Ends (exit_mappings n p)
exit_mappings-Ends n p shared room = exit_mappings-more n p.mmaps p refl shared room

-- The list behind a round that is not of MAP_SHARED alone is as before.
exit_round-keeps :
    (me : Entry) (rest : List Entry) (p q : Proc)
    → p.mmaps ≡ me ∷ rest
    → SomePrivate (me ∷ rest)
    → exit_round me rest p ≡ done q
    → SomePrivate q.mmaps
unfolding exit_round
exit_round-keeps me rest p q e some_private ran = elim (Bool-cases (has me.flags map_private)) [
  | inl private ↦
      let r = free_pages (pages me.length) 0 me.addr (p.pgdir, p.log) in
      let went : exit_round me rest p ≡ done (record p { pgdir = r.0; log = r.1 }) =
        rw (exit_round, private) refl in
      let same : record p { pgdir = r.0; log = r.1 } ≡ q = cc in
      subst SomePrivate (sym e ∙ ap Proc.mmaps same) some_private
  | inr other ↦ elim (Bool-cases (has me.flags map_shared)) [
    | inl shared ↦
        let taken = exit_round-shared me rest p q other shared ran in
        subst SomePrivate (sym taken) (behind some_private other)
    | inr neither ↦
        let went : exit_round me rest p ≡ done p = rw (exit_round, other, neither) refl in
        let same : p ≡ q = cc in subst SomePrivate (sym e ∙ ap Proc.mmaps same) some_private
  ]
]
  where
    behind : SomePrivate (me ∷ rest) → has me.flags map_private ≡ false → SomePrivate rest
    behind (inl private) other = cc
    behind (inr later) other = later

exit_mappings-stuck :
    (n : ℕ) (mes : List Entry) (p q : Proc)
    → p.mmaps ≡ mes
    → SomePrivate mes
    → ¬ (exit_mappings n p ≡ done (some q))
unfolding exit_mappings
exit_mappings-stuck n [] p q e none_private = λ back. none_private
exit_mappings-stuck zero (me ∷ mes) p q e some_private =
    λ back. let open_still : exit_mappings 0 p ≡ done none = rw (exit_mappings, e) refl in cc
exit_mappings-stuck (suc n) (me ∷ mes) p q e some_private = λ back.
    let again : exit_mappings (suc n) p ≡ (exit_round me mes p >>= exit_mappings n) = ap next e in
    let (t, ran, rest) = >>=-eq-done (exit_round me mes p) (exit_mappings n) (sym again ∙ back) in
    exit_mappings-stuck n t.mmaps t q refl (exit_round-keeps me mes p t e some_private ran) rest
  where
    next : List Entry → Outcome (Option Proc)
    next mes = elim mes [
      | [] ↦ done (some p)
      | me ∷ rest ↦ exit_round me rest p >>= exit_mappings n
    ]

-- `exit` does not come back from its loop in a process with a private mapping, whatever the number
-- of rounds: no round takes that mapping out of the list.
pub exit_mappings-never :
    (n : ℕ) (p q : Proc) → SomePrivate p.mmaps → ¬ (exit_mappings n p ≡ done (some q))
exit_mappings-never n p q some_private = exit_mappings-stuck n p.mmaps p q refl some_private
