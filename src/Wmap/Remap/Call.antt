-- ===== src/Wmap/Remap/Call.antt =====
-- The answers of `sys_wremap`: a mapping that stays, and the address of one that moves.
use cs537_group_projects.Base.{
  ℕ, ◌+◌, ◌^◌, ◌%◌, ◌<◌, ◌≤◌, ◌≡◌, ◌≢◌, sym, ap, ap₂, ◌∙◌, subst, ◌⊎◌, inl, inr, List, [], ◌∷◌,
  ◌++◌, Option, none, some, Bool, false, ◌&&◌, ltb, if◌then◌else◌, arith, Bool-cases, Option-cases,
}
use cs537_group_projects.Wmap.State.{u32, has, Entry, Proc}
use cs537_group_projects.Wmap.Map.{map_end, free_address}
use cs537_group_projects.Wmap.Search.{InRegion, Clear}
use cs537_group_projects.Wmap.Disjoint.{IsValid, Disjoint}
use cs537_group_projects.Wmap.Remap.{
  Resized, refused, stays, no_room, moves, may_move, find_mapping, must_move, new_place, wremap,
}
use cs537_group_projects.Wmap.Search.{free_address-Found}
use cs537_group_projects.Wmap.Remap.Resize.{
  resized, FoundAt, find_mapping-Search, middle-InRegion, stays-Fits, Disjoint-resized,
}

-- What `wremap` does with the mapping it has found.
abbrev remapped : Proc → ℕ → ℕ → ℕ → List Entry → Entry → List Entry → Resized
remapped p oldsize newsize flags front me back =
    if must_move oldsize newsize front me back
    then (if has flags may_move then new_place newsize p.mmaps else refused)
    else stays (record p { mmaps = front ++ (resized me newsize ∷ back) })

new_place-never_stays :
    (p : Proc) (newsize : ℕ) (mes : List Entry) → new_place newsize mes ≢ stays p
new_place-never_stays p newsize mes e = elim (Option-cases (free_address newsize mes)) [
  | inl none_free ↦ ground arith
  | inr (a, free) ↦ ground arith
]

-- `remapped` by its two tests, and `wremap` by its test and what `find_mapping` gives.
abbrev by_tests : Resized → Proc → Bool → Bool → Resized
by_tests moved q must may = if must then (if may then moved else refused) else stays q

abbrev by_search : Proc → ℕ → ℕ → ℕ → Bool → Option (List Entry × Entry × List Entry) → Resized
by_search p oldsize newsize flags positive found =
    if positive
    then elim found [
      | none ↦ refused
      | some (front, me, back) ↦ remapped p oldsize newsize flags front me back
    ]
    else refused

refused-never_stays : (p : Proc) → refused ≢ stays p
refused-never_stays p e = ground arith

stays-mmaps : (p q : Proc) → stays p ≡ stays q → p.mmaps ≡ q.mmaps
stays-mmaps p q e =
    ap (λ r. elim r [ refused ↦ [] | stays s ↦ s.mmaps | no_room ↦ [] | moves a ↦ [] ]) e

remapped-stays :
    (p q : Proc) (oldsize newsize flags : ℕ) (front : List Entry) (me : Entry) (back : List Entry)
    → remapped p oldsize newsize flags front me back ≡ stays q
    → (must_move oldsize newsize front me back ≡ false)
      × (q.mmaps ≡ front ++ (resized me newsize ∷ back))
remapped-stays p q oldsize newsize flags front me back e =
    let moved = new_place newsize p.mmaps in
    let kept : Proc = record p { mmaps = front ++ (resized me newsize ∷ back) } in
    elim (Bool-cases (must_move oldsize newsize front me back)) [
      | inl move ↦ absurd (elim (Bool-cases (has flags may_move)) [
        | inl may ↦
            new_place-never_stays q newsize p.mmaps (sym (ap₂ (by_tests moved kept) move may) ∙ e)
        | inr not_may ↦ refused-never_stays q (sym (ap₂ (by_tests moved kept) move not_may) ∙ e)
      ])
      | inr stay ↦ (
        stay,
        sym (
            stays-mmaps kept q
              (sym (ap (λ must. by_tests moved kept must (has flags may_move)) stay) ∙ e)),
      )
    ]

wremap-remapped :
    (p q : Proc) (oldaddr oldsize newsize flags : ℕ) (front : List Entry) (me : Entry)
    (back : List Entry)
    → find_mapping oldaddr oldsize p.mmaps ≡ some (front, me, back)
    → wremap p oldaddr oldsize newsize flags ≡ stays q
    → (newsize < 2 ^ 31) × (remapped p oldsize newsize flags front me back ≡ stays q)
unfolding wremap
wremap-remapped p q oldaddr oldsize newsize flags front me back found e =
    elim (Bool-cases (ltb 0 newsize && ltb newsize (2 ^ 31))) [
      | inl good ↦ (ground arith, sym (ap₂ (by_search p oldsize newsize flags) good found) ∙ e)
      | inr bad ↦
          absurd
            (refused-never_stays q (sym (ap₂ (by_search p oldsize newsize flags) bad found) ∙ e))
    ]

-- The mapping of an address and a size has a new size in the list, and the others are as before.
abbrev pub SizedTo : ℕ → ℕ → ℕ → List Entry → List Entry → Type 0
SizedTo addr oldsize newsize mes after =
    (front : List Entry) × (me : Entry) × (back : List Entry) × FoundAt addr oldsize mes front me
      back
    × (after ≡ front ++ (record me { length = newsize } ∷ back))
    × Disjoint after

-- Where `sys_wremap` resizes in place, the mapping of the old address and size has the new size,
-- the other mappings are as they were, and no two mappings meet, if the mappings were valid before.
pub wremap_stays :
    (p q : Proc) (oldaddr oldsize newsize flags : ℕ)
    → IsValid p.mmaps
    → wremap p oldaddr oldsize newsize flags ≡ stays q
    → SizedTo oldaddr oldsize newsize p.mmaps q.mmaps
unfolding wremap
wremap_stays p q oldaddr oldsize newsize flags valid e =
    elim (find_mapping-Search oldaddr oldsize p.mmaps) [
      | inl missing ↦ absurd (ground (arith, missing, e))
      | inr (front, me, back, found, (whole, at, sized)) ↦
          let (small, after) =
            wremap-remapped p q oldaddr oldsize newsize flags front me back found e in
          let (stay, list) = remapped-stays p q oldsize newsize flags front me back after in
          let region = middle-InRegion front me back (subst InRegion whole valid.region) in
          let fits = stays-Fits oldsize newsize front me back small sized region stay in
          (
            front,
            me,
            back,
            (whole, at, sized),
            list,
            subst Disjoint (sym list)
                (Disjoint-resized me newsize front back fits (subst Disjoint whole valid.disjoint)),
          )
    ]

moves-address : (a b : ℕ) → moves a ≡ moves b → a ≡ b
moves-address a b e = ap (λ r. elim r [ refused ↦ 0 | stays s ↦ 0 | no_room ↦ 0 | moves c ↦ c ]) e

-- A range of the region that meets no mapping, page aligned.
abbrev pub IsRoom : ℕ → ℕ → List Entry → Type 0
IsRoom a size mes = (a % 4096 ≡ 0) × (a + size ≤ map_end) × Clear a size mes

room-Clear :
    (b size : ℕ) (mes : List Entry)
    → b + size ≤ map_end
    → (map_end < b + size) ⊎ Clear b size mes
    → Clear b size mes
room-Clear b size mes inside (inl past) = absurd (omega arith)
room-Clear b size mes inside (inr clear) = clear

new_place-IsRoom :
    (newsize a : ℕ) (mes : List Entry)
    → newsize < 2 ^ 31
    → InRegion mes
    → new_place newsize mes ≡ moves a
    → IsRoom a newsize mes
new_place-IsRoom newsize a mes small r e =
    let (b, free, good) = free_address-Found newsize mes small r in
    elim (Bool-cases (ltb map_end (u32 (b + newsize)))) [
      | inl out ↦ absurd (ground (arith, free, out, e))
      | inr fits ↦
          let same : b ≡ a = ground (arith, free, fits, e) in
          let inside : b + newsize ≤ map_end = ground (arith, fits, good.high) in
          let clear : Clear b newsize mes = room-Clear b newsize mes inside good.free in
          subst (λ c. IsRoom c newsize mes) same (good.aligned, inside, clear)
    ]

remapped-moves :
    (p : Proc) (oldsize newsize flags a : ℕ) (front : List Entry) (me : Entry) (back : List Entry)
    → remapped p oldsize newsize flags front me back ≡ moves a
    → new_place newsize p.mmaps ≡ moves a
remapped-moves p oldsize newsize flags a front me back e =
    let moved = new_place newsize p.mmaps in
    let kept : Proc = record p { mmaps = front ++ (resized me newsize ∷ back) } in
    elim (Bool-cases (must_move oldsize newsize front me back)) [
      | inl move ↦ elim (Bool-cases (has flags may_move)) [
        | inl may ↦ sym (ap₂ (by_tests moved kept) move may) ∙ e
        | inr not_may ↦ absurd (ground (arith, sym (ap₂ (by_tests moved kept) move not_may) ∙ e))
      ]
      | inr stay ↦ absurd (
          ground (arith, sym (ap (λ must. by_tests moved kept must (has flags may_move)) stay) ∙ e))
    ]

-- Where `sys_wremap` moves a mapping, the new address is page aligned, the new size fits within the
-- region there, and the range meets none of the mappings, the old range of the moved one included,
-- if all ended within the region before.
pub wremap_moves :
    (p : Proc) (oldaddr oldsize newsize flags a : ℕ)
    → InRegion p.mmaps
    → wremap p oldaddr oldsize newsize flags ≡ moves a
    → IsRoom a newsize p.mmaps
unfolding wremap
wremap_moves p oldaddr oldsize newsize flags a region e =
    let positive = ltb 0 newsize && ltb newsize (2 ^ 31) in
    elim (find_mapping-Search oldaddr oldsize p.mmaps) [
      | inl missing ↦ absurd (ground (arith, missing, e))
      | inr (front, me, back, found, there) ↦ elim (Bool-cases positive) [
        | inl good ↦ new_place-IsRoom newsize a p.mmaps (ground arith) region (
            remapped-moves p oldsize newsize flags a front me back
              (sym (ap₂ (by_search p oldsize newsize flags) good found) ∙ e))
        | inr bad ↦
            absurd (ground (arith, sym (ap₂ (by_search p oldsize newsize flags) bad found) ∙ e))
      ]
    ]
