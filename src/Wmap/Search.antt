-- ===== src/Wmap/Search.antt =====
-- The loop that looks for an address: it ends, and what it finds is free.
use cs537_group_projects.Base.{
  ℕ, zero, suc, ◌+◌, ◌%◌, ◌^◌, ◌<◌, ◌≤◌, ◌≡◌, ◌⊎◌, inl, inr, List, [], ◌∷◌, none, some, true, ltb,
  arith, length, Option-cases, Bool-cases, if◌then◌else◌, subst,
}
use cs537_group_projects.Wmap.State.{Entry, u32, page_round_up}
use cs537_group_projects.Wmap.Map.{find_overlap, search, free_address, map_start, map_end, overlaps}

-- Every mapping ends below the end of the region.
abbrev pub InRegion : List Entry → Type 0
InRegion [] = Unit
InRegion (me ∷ mes) = (me.addr + me.length ≤ map_end) × InRegion mes

-- [addr, addr + length) meets none of the mappings.
abbrev pub Clear : ℕ → ℕ → List Entry → Type 0
Clear addr length [] = Unit
Clear addr length (me ∷ mes) =
    ((addr + length ≤ me.addr) ⊎ (me.addr + me.length ≤ addr)) × Clear addr length mes

pub find_overlap-none :
    (addr size : ℕ) (mes : List Entry)
    → addr + size < 2 ^ 32
    → InRegion mes
    → find_overlap addr size mes ≡ none
    → Clear addr size mes
unfolding find_overlap
find_overlap-none addr size [] h r e = tt
find_overlap-none addr size (me ∷ mes) h r e = elim (Bool-cases (overlaps addr size me)) [
  | inl o ↦ absurd (ground arith)
  | inr o ↦ (ground arith, find_overlap-none addr size mes h r.1 (ground arith))
]

-- The entries that end above an address: those that can still be in the way.
count_above : ℕ → List Entry → ℕ
count_above addr [] = 0
count_above addr (me ∷ mes) =
    (if ltb addr (me.addr + me.length) then 1 else 0) + count_above addr mes

count_above-le :
    (addr next : ℕ) (mes : List Entry) → addr ≤ next → count_above next mes ≤ count_above addr mes
unfolding count_above
count_above-le addr next [] h = omega arith
count_above-le addr next (me ∷ mes) h = ground (arith, count_above-le addr next mes h)

count_above-le-length : (addr : ℕ) (mes : List Entry) → count_above addr mes ≤ length mes
unfolding count_above
count_above-le-length addr [] = omega arith
count_above-le-length addr (me ∷ mes) = ground (arith, count_above-le-length addr mes)

-- Where the search goes from an entry in the way.
abbrev after_entry : Entry → ℕ
after_entry me = page_round_up (u32 (me.addr + me.length))

record Passed (addr : ℕ) (me : Entry) (mes : List Entry) : Type 0 where
  up : addr < after_entry me
  below : after_entry me ≤ map_end
  aligned : after_entry me % 4096 ≡ 0
  fewer : count_above (after_entry me) mes < count_above addr mes

Passed-head :
    (addr size : ℕ) (me : Entry) (mes : List Entry)
    → me.addr + me.length ≤ map_end
    → overlaps addr size me ≡ true
    → Passed addr me (me ∷ mes)
unfolding count_above
Passed-head addr size me mes r o =
    let wraps : u32 (me.addr + me.length) ≡ me.addr + me.length = omega arith in
    let meets : addr < me.addr + me.length = ground arith in
    let up : me.addr + me.length ≤ after_entry me = omega arith in
    record {
      up = omega arith;
      below = omega arith;
      aligned = omega arith;
      fewer = ground (arith, count_above-le addr (after_entry me) mes);
    }

find_overlap-Passed :
    (addr size : ℕ) (mes : List Entry) (me : Entry)
    → InRegion mes
    → find_overlap addr size mes ≡ some me
    → Passed addr me mes
unfolding find_overlap count_above
find_overlap-Passed addr size [] me r e = absurd (ground arith)
find_overlap-Passed addr size (m ∷ mes) me r e = elim (Bool-cases (overlaps addr size m)) [
  | inl o ↦ subst (λ x. Passed addr x (m ∷ mes)) (ground arith) (Passed-head addr size m mes r.0 o)
  | inr o ↦
      let rest = find_overlap-Passed addr size mes me r.1 (ground arith) in
      record {
        up = rest.up;
        below = rest.below;
        aligned = rest.aligned;
        fewer = ground (arith, rest.fewer, rest.up);
      }
]

-- What the search comes to: an address of the region on a page's start, and a range that is free
-- or does not end within the region.
pub record Found (size : ℕ) (mes : List Entry) (addr : ℕ) : Type 0 where
  pub low : map_start ≤ addr
  pub high : addr ≤ map_end
  pub aligned : addr % 4096 ≡ 0
  pub free : (map_end < addr + size) ⊎ Clear addr size mes

search-Found :
    (fuel addr size : ℕ) (mes : List Entry)
    → count_above addr mes < fuel
    → size < 2 ^ 31
    → InRegion mes
    → map_start ≤ addr
    → addr ≤ map_end
    → addr % 4096 ≡ 0
    → (a : ℕ) × (search fuel addr size mes ≡ some a) × Found size mes a
unfolding search
search-Found zero addr size mes h small r low high al = absurd (omega arith)
search-Found (suc fuel) addr size mes h small r low high al =
    elim (Option-cases (find_overlap addr size mes)) [
      | inl e ↦ (
        addr,
        rw (e, search),
        record {
          low = low;
          high = high;
          aligned = al;
          free = inr (find_overlap-none addr size mes (omega arith) r e);
        },
      )
      | inr (me, e) ↦
          let f = find_overlap-Passed addr size mes me r e in
          elim (Bool-cases (ltb map_end (u32 (after_entry me + size)))) [
            | inl out ↦ (
              after_entry me,
              rw (e, search, out),
              record {
                low = omega (arith, f.up);
                high = f.below;
                aligned = f.aligned;
                free = inl (ground (arith, f.below));
              },
            )
            | inr fits ↦
                let (a, s, found) =
                  search-Found fuel (after_entry me) size mes (omega (arith, f.fewer)) small r
                    (omega (arith, f.up)) f.below f.aligned in
                (a, rw (e, search, fits) s, found)
          ]
    ]

pub free_address-Found :
    (size : ℕ) (mes : List Entry)
    → size < 2 ^ 31
    → InRegion mes
    → (a : ℕ) × (free_address size mes ≡ some a) × Found size mes a
unfolding free_address
free_address-Found size mes small r =
    search-Found (length mes + 1) map_start size mes
      (omega (arith, count_above-le-length map_start mes)) small r (omega arith) (omega arith)
      (omega arith)
