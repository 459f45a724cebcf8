-- ===== src/Wmap/Info.antt =====
-- `sys_getwmapinfo` of p4/xv6-public/sysproc.c: what the user sees of the mappings.
use cs537_group_projects.Base.{
  ℕ, zero, suc, ◌≡◌, refl, List, [], ◌∷◌, arith, ap, map, length, take, ap₂, Option, none, some,
}
use Prim.Native.Nat.{min}
use cs537_group_projects.Wmap.State.{Entry, Proc}

abbrev pub max_wmmap_info : ℕ
max_wmmap_info = 16

-- One place of the three arrays of `struct wmapinfo`.
pub record Info : Type 0 where
  pub addr : ℕ
  pub length : ℕ
  pub n_loaded_pages : ℕ

abbrev pub info_of : Entry → Info
info_of me = record { addr = me.addr; length = me.length; n_loaded_pages = me.n_loaded_pages }

-- The loop, with `room` places left: what it fills in.
unfoldable pub fill : ℕ → List Entry → List Info
fill room [] = []
fill zero (me ∷ mes) = []
fill (suc room) (me ∷ mes) = info_of me ∷ fill room mes

-- The filled places and `total_mmaps`; `none` where `argptr` refuses the pointer.
unfoldable pub sys_getwmapinfo : Option ℕ → Proc → Option (List Info × ℕ)
unfolding fill
sys_getwmapinfo none p = none
sys_getwmapinfo (some ptr) p =
    let filled = fill max_wmmap_info p.mmaps in some (filled, length filled)

fill-take : (room : ℕ) (mes : List Entry) → fill room mes ≡ map info_of (take room mes)
unfolding fill
fill-take zero [] = refl
fill-take zero (me ∷ mes) = refl
fill-take (suc room) [] = refl
fill-take (suc room) (me ∷ mes) = ap (λ l. info_of me ∷ l) (fill-take room mes)

length-fill : (room : ℕ) (mes : List Entry) → length (fill room mes) ≡ min room (length mes)
unfolding fill
length-fill zero [] = omega arith
length-fill zero (me ∷ mes) = omega arith
length-fill (suc room) [] = omega arith
length-fill (suc room) (me ∷ mes) = omega (arith, length-fill room mes)

-- The user is shown the newest mappings, sixteen at most, newest first, and their number.
pub sys_getwmapinfo_lem :
    (ptr : ℕ) (p : Proc)
    → sys_getwmapinfo (some ptr) p
      ≡ some (map info_of (take max_wmmap_info p.mmaps), min max_wmmap_info (length p.mmaps))
unfolding sys_getwmapinfo
sys_getwmapinfo_lem ptr p =
    ap₂ (λ (l : List Info) (n : ℕ). some (l, n)) (fill-take max_wmmap_info p.mmaps)
      (length-fill max_wmmap_info p.mmaps)
