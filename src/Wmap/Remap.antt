-- ===== src/Wmap/Remap.antt =====
-- `sys_wremap` of p4/xv6-public/sysproc.c up to the choice between a new size in place and a move,
-- and the choice of the new address.
pub mod Resize
pub mod Call
use cs537_group_projects.Base.{
  ℕ, zero, suc, ◌+◌, ◌^◌, List, [], ◌∷◌, ◌++◌, Option, none, some, Bool, true, false, not, ◌&&◌,
  ◌==◌, ltb, leb, if◌then◌else◌,
}
use cs537_group_projects.Wmap.State.{u32, has, Entry, Proc}
use cs537_group_projects.Wmap.Map.{map_end, free_address}

-- `MREMAP_MAYMOVE`
abbrev pub may_move : ℕ
may_move = 1

-- FAILED; the mapping keeps its address, with the process after it; there is no room to move to and
-- the old address is returned; or the mapping moves to an address.
pub data Resized : Type 0 where
  refused : Resized
  stays : Proc → Resized
  no_room : Resized
  moves : ℕ → Resized

-- The mapping of an address and a length, the mappings before it and those behind it.
unfoldable pub find_mapping : ℕ → ℕ → List Entry → Option (List Entry × Entry × List Entry)
find_mapping addr length [] = none
find_mapping addr length (me ∷ mes) =
    let rest = find_mapping addr length mes in
    if (me.addr == addr) && (me.length == length)
    then some ([], me, mes)
    else elim rest [ none ↦ none | some (front, found, back) ↦ some (me ∷ front, found, back) ]

-- Is one of the other mappings at or below the new end?
unfoldable pub in_the_way : ℕ → List Entry → Bool
in_the_way end [] = false
in_the_way end (me ∷ mes) = let rest = in_the_way end mes in if leb me.addr end then true else rest

-- `newsize > oldsize` of `int`s, for a positive `newsize`.
abbrev pub grows : ℕ → ℕ → Bool
grows oldsize newsize = if ltb oldsize (2 ^ 31) then ltb oldsize newsize else true

abbrev pub must_move : ℕ → ℕ → List Entry → Entry → List Entry → Bool
must_move oldsize newsize front me back =
    grows oldsize newsize && in_the_way (u32 (me.addr + newsize)) (front ++ back)

abbrev pub new_place : ℕ → List Entry → Resized
new_place newsize mes = elim (free_address newsize mes) [
  | none ↦ no_room
  | some a ↦ if ltb map_end (u32 (a + newsize)) then no_room else moves a
]

unfoldable pub wremap : Proc → ℕ → ℕ → ℕ → ℕ → Resized
unfolding find_mapping in_the_way has
wremap p oldaddr oldsize newsize flags =
    if ltb 0 newsize && ltb newsize (2 ^ 31)
    then elim (find_mapping oldaddr oldsize p.mmaps) [
      | none ↦ refused
      | some (front, me, back) ↦
          if must_move oldsize newsize front me back
          then (if has flags may_move then new_place newsize p.mmaps else refused)
          else stays (record p { mmaps = front ++ (record me { length = newsize } ∷ back) })
    ]
    else refused
