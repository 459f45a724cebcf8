-- ===== src/Wmap/Fault/Loaded.antt =====
-- The page fault of p4/xv6-public/trap.c where nothing fails: the page is there, with its bytes.
use cs537_group_projects.Base.{
  ℕ, ◌-◌, ◌*◌, ◌/◌, ◌%◌, ◌^◌, ◌<◌, ◌≡◌, List, [], ◌∷◌, ◌++◌, Option, none, some, Bool, true, false,
  if◌then◌else◌, ltb,
}
use cs537_group_projects.Wmap.State.{Entry, Proc, has, page_round_down, map_anonymous}
use cs537_group_projects.Wmap.Unload.{present}
use cs537_group_projects.Wmap.Fault.{covers}

-- No mapping of the list has the address.
abbrev pub NoneCovers : ℕ → List Entry → Type 0
NoneCovers va [] = Unit
NoneCovers va (me ∷ mes) = (covers va me ≡ false) × NoneCovers va mes

-- The byte that the page is to have: of the file, as far as it could be read, from the page's place in
-- the mapping on; else 0.
abbrev pub byte_of : (ℕ → ℕ → ℕ × (ℕ → ℕ)) → Option ℕ → Bool → ℕ → ℕ → ℕ
byte_of given none anonymous offset i = 0
byte_of given (some f) true offset i = 0
byte_of given (some f) false offset i = if ltb i (given f offset).0 then (given f offset).1 i else 0

abbrev pub expected : (ℕ → ℕ → ℕ × (ℕ → ℕ)) → ℕ → Entry → ℕ → ℕ
expected given va me =
    byte_of given me.file (has me.flags map_anonymous) (va / 4096 * 4096 - me.addr)

-- Where the fault can be served: `me` is the first mapping that has the address, it starts at a page,
-- and the page is not present.
pub record Served (va : ℕ) (p : Proc) (front : List Entry) (me : Entry) (back : List Entry)
    : Type 0 where
  pub word : va < 2 ^ 32
  pub whole : p.mmaps ≡ front ++ me ∷ back
  pub first : NoneCovers va front
  pub here : covers va me ≡ true
  pub aligned : me.addr % 4096 ≡ 0
  pub absent : present p.pgdir (page_round_down va) ≡ false
