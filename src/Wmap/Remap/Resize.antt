-- ===== src/Wmap/Remap/Resize.antt =====
-- A mapping that `sys_wremap` resizes in place.
use cs537_group_projects.Base.{
  ℕ, ◌+◌, ◌^◌, ◌<◌, ◌≤◌, ◌≡◌, refl, ap, subst, ◌⊎◌, inl, inr, List, [], ◌∷◌, ◌++◌, none, some,
  false, ◌&&◌, ◌==◌, ltb, arith, Bool-cases,
}
use cs537_group_projects.Wmap.State.{u32, Entry}
use cs537_group_projects.Wmap.Map.{map_end}
use cs537_group_projects.Wmap.Search.{InRegion, Clear}
use cs537_group_projects.Wmap.Disjoint.{Disjoint}
use cs537_group_projects.Wmap.Remap.{find_mapping, in_the_way, must_move}

abbrev pub resized : Entry → ℕ → Entry
resized me size = record me { length = size }

-- Every mapping of the list begins behind `end`.
abbrev pub Behind : ℕ → List Entry → Type 0
Behind end [] = Unit
Behind end (me ∷ mes) = (end < me.addr) × Behind end mes

in_the_way-Behind : (end : ℕ) (mes : List Entry) → in_the_way end mes ≡ false → Behind end mes
unfolding in_the_way
in_the_way-Behind end [] e = tt
in_the_way-Behind end (me ∷ mes) e = (ground arith, in_the_way-Behind end mes (ground arith))

-- The new end is below all the other mappings, or not above the old end.
abbrev pub Fits : Entry → ℕ → List Entry → Type 0
Fits me size others = Behind (me.addr + size) others ⊎ (size ≤ me.length)

Fits-tail :
    (me : Entry) (size : ℕ) (x : Entry) (others : List Entry)
    → Fits me size (x ∷ others)
    → Fits me size others
Fits-tail me size x others (inl h) = inl h.1
Fits-tail me size x others (inr h) = inr h

-- Another mapping stays clear of the list.
Clear-resized :
    (me : Entry) (size : ℕ) (x : Entry) (front back : List Entry)
    → (me.addr + size < x.addr) ⊎ (size ≤ me.length)
    → Clear x.addr x.length (front ++ (me ∷ back))
    → Clear x.addr x.length (front ++ (resized me size ∷ back))
Clear-resized me size x [] back fits (apart, rest) = (ground arith, rest)
Clear-resized me size x (y ∷ front) back fits (apart, rest) =
    (apart, Clear-resized me size x front back fits rest)

Fits-head :
    (me : Entry) (size : ℕ) (x : Entry) (others : List Entry)
    → Fits me size (x ∷ others)
    → (me.addr + size < x.addr) ⊎ (size ≤ me.length)
Fits-head me size x others (inl h) = inl h.0
Fits-head me size x others (inr h) = inr h

self-Clear :
    (me : Entry) (size : ℕ) (back : List Entry)
    → Fits me size back
    → Clear me.addr me.length back
    → Clear me.addr size back
self-Clear me size [] fits h = tt
self-Clear me size (x ∷ back) fits (apart, h) = (
  ground (arith, Fits-head me size x back fits),
  self-Clear me size back (Fits-tail me size x back fits) h,
)

pub Disjoint-resized :
    (me : Entry) (size : ℕ) (front back : List Entry)
    → Fits me size (front ++ back)
    → Disjoint (front ++ (me ∷ back))
    → Disjoint (front ++ (resized me size ∷ back))
Disjoint-resized me size [] back fits (clear, rest) = (self-Clear me size back fits clear, rest)
Disjoint-resized me size (x ∷ front) back fits (clear, rest) = (
  Clear-resized me size x front back (Fits-head me size x (front ++ back) fits) clear,
  Disjoint-resized me size front back (Fits-tail me size x (front ++ back) fits) rest,
)

-- What `find_mapping` has found.
abbrev pub FoundAt : ℕ → ℕ → List Entry → List Entry → Entry → List Entry → Type 0
FoundAt addr size mes front me back =
    (mes ≡ front ++ (me ∷ back)) × (me.addr ≡ addr) × (me.length ≡ size)

abbrev pub Search : ℕ → ℕ → List Entry → Type 0
Search addr size mes =
    (find_mapping addr size mes ≡ none)
    ⊎ ((front : List Entry) × (me : Entry) × (back : List Entry) × (find_mapping addr size mes
          ≡ some (front, me, back))
        × FoundAt addr size mes front me back)

pub find_mapping-Search : (addr size : ℕ) (mes : List Entry) → Search addr size mes
unfolding find_mapping
find_mapping-Search addr size [] = inl refl
find_mapping-Search addr size (m ∷ mes) =
    elim (Bool-cases ((m.addr == addr) && (m.length == size))) [
      | inl here ↦ inr ([], m, mes, rw here, (refl, ground arith, ground arith))
      | inr other ↦ elim (find_mapping-Search addr size mes) [
        | inl e ↦ inl (rw (other, e))
        | inr (front, me, back, e, (whole, at, sized)) ↦
            inr (m ∷ front, me, back, rw (other, e), (ap (λ l. m ∷ l) whole, at, sized))
      ]
    ]

pub middle-InRegion :
    (front : List Entry) (me : Entry) (back : List Entry)
    → InRegion (front ++ (me ∷ back))
    → me.addr + me.length ≤ map_end
middle-InRegion [] me back r = r.0
middle-InRegion (x ∷ front) me back r = middle-InRegion front me back r.1

pub stays-Fits :
    (oldsize newsize : ℕ) (front : List Entry) (me : Entry) (back : List Entry)
    → newsize < 2 ^ 31
    → me.length ≡ oldsize
    → me.addr + me.length ≤ map_end
    → must_move oldsize newsize front me back ≡ false
    → Fits me newsize (front ++ back)
stays-Fits oldsize newsize front me back small same r e =
    elim (Bool-cases (ltb me.length newsize)) [
      | inl more ↦
          let clear : in_the_way (u32 (me.addr + newsize)) (front ++ back) ≡ false = ground arith in
          let end : u32 (me.addr + newsize) ≡ me.addr + newsize = omega arith in
          inl (
            subst (λ t. Behind t (front ++ back)) end
              (in_the_way-Behind (u32 (me.addr + newsize)) (front ++ back) clear))
      | inr less ↦ inr (ground arith)
    ]
