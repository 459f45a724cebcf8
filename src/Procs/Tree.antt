-- ===== src/Procs/Tree.antt =====
-- The parents of the processes of p5/xv6-public/proc.c.
use cs537_group_projects.Base.{
  ℕ, ◌<◌, ◌≡◌, ◌≢◌, inl, inr, refl, sym, ap, subst, ◌∙◌, some, Bool, true, false, arith, ◌==◌,
  Bool-cases, update, update-there, update-apart,
}
use cs537_group_projects.Sched.Table.{State, unused, embryo, sleeping, runnable, running, zombie}
use cs537_group_projects.Procs.Calls.{Slot, nproc, is_unused, is_zombie, initproc}

-- Neither UNUSED nor ZOMBIE.
abbrev pub is_alive : State → Bool
is_alive unused = false
is_alive zombie = false
is_alive embryo = true
is_alive sleeping = true
is_alive runnable = true
is_alive running = true

pub alive-used : (st : State) → is_alive st ≡ true → is_unused st ≡ false
alive-used unused h = let no_way : false ≡ true = h in cc
alive-used zombie h = refl
alive-used embryo h = refl
alive-used sleeping h = refl
alive-used runnable h = refl
alive-used running h = refl

pub alive-not_zombie : (st : State) → is_alive st ≡ true → is_zombie st ≡ false
alive-not_zombie unused h = refl
alive-not_zombie zombie h = let no_way : false ≡ true = h in cc
alive-not_zombie embryo h = refl
alive-not_zombie sleeping h = refl
alive-not_zombie runnable h = refl
alive-not_zombie running h = refl

pub used-alive : (st : State) → is_unused st ≡ false → is_zombie st ≡ false → is_alive st ≡ true
used-alive unused h z = let no_way : true ≡ false = h in cc
used-alive zombie h z = let no_way : true ≡ false = z in cc
used-alive embryo h z = refl
used-alive sleeping h z = refl
used-alive runnable h z = refl
used-alive running h z = refl

-- Process `i` has a parent that is alive.
abbrev pub HasParent : (ℕ → Slot) → ℕ → Type 0
HasParent procs i =
    (p : ℕ) × ((procs i).parent ≡ some p) × (p < nproc) × (is_alive (procs p).state ≡ true)

-- The first process is alive, and each other has a parent that is.
pub record Rooted (procs : ℕ → Slot) : Type 0 where
  pub root : is_alive (procs initproc).state ≡ true
  pub parents :
      (i : ℕ) → i < nproc → is_unused (procs i).state ≡ false → i ≢ initproc → HasParent procs i

-- The same processes and parents, none of which dies.
abbrev pub Kin : Slot → Slot → Type 0
Kin s t =
    (is_unused t.state ≡ is_unused s.state)
    × (is_alive s.state ≡ true → is_alive t.state ≡ true)
    × (t.parent ≡ s.parent)

pub Kin-Rooted :
    (procs after : ℕ → Slot) → ((i : ℕ) → Kin (procs i) (after i)) → Rooted procs → Rooted after
Kin-Rooted procs after kin rooted = record {
  root = (kin initproc).1 rooted.root;
  parents = λ i h u ne.
      let (state, alive, parent) = kin i in
      let (p, is_parent, inside, living) = rooted.parents i h (sym state ∙ u) ne in
      (p, parent ∙ is_parent, inside, (kin p).1 living);
}

pub same-Rooted :
    (procs after : ℕ → Slot) → ((i : ℕ) → after i ≡ procs i) → Rooted procs → Rooted after
same-Rooted procs after same =
    Kin-Rooted procs after (λ i. subst (λ s. Kin (procs i) s) (sym (same i)) (refl, (λ h. h), refl))

-- A process in the table after a write: the new one, or one from before.
update-cases :
    (procs : ℕ → Slot) (j : ℕ) (v : Slot) (i : ℕ) (P : Slot → Type 0)
    → (i ≡ j → P v)
    → (i ≢ j → P (procs i))
    → P (update procs j v i)
update-cases procs j v i P new old = elim (Bool-cases (i == j)) [
  | inl here ↦
      let same : i ≡ j = ground (arith, here) in
      subst P (sym (ap (update procs j v) same ∙ update-there procs j v)) (new same)
  | inr there ↦
      let ne : i ≢ j = λ e. ground (arith, e, there) in
      subst P (sym (update-apart procs j v i ne)) (old ne)
]

pub write-Rooted :
    (procs : ℕ → Slot) (j : ℕ) (v : Slot)
    → Kin (procs j) v
    → Rooted procs
    → Rooted (update procs j v)
write-Rooted procs j v kin = Kin-Rooted procs (update procs j v) (λ i.
    update-cases procs j v i (Kin (procs i)) (λ e. subst (λ k. Kin (procs k) v) (sym e) kin)
      (λ ne. (refl, (λ h. h), refl)))

-- One process in place of another; the others that are alive stay so.
changed-Rooted :
    (procs : ℕ → Slot) (j : ℕ) (v : Slot)
    → (is_alive (procs j).state ≡ true → is_alive v.state ≡ true)
    → (is_unused v.state ≡ false
        → (p : ℕ) × (v.parent ≡ some p) × (p < nproc) × (is_alive (procs p).state ≡ true))
    → Rooted procs
    → Rooted (update procs j v)
changed-Rooted procs j v living new rooted = record {
  root = stays initproc rooted.root;
  parents = λ i h.
      update-cases procs j v i (λ s. is_unused s.state ≡ false → i ≢ initproc → IsChild s)
        (λ e u ne. kept v (new u)) (λ other u ne. kept (procs i) (rooted.parents i h u ne));
}
  where
    IsChild : Slot → Type 0
    IsChild s =
        (p : ℕ) × (s.parent ≡ some p) × (p < nproc) × (is_alive (update procs j v p).state ≡ true)

    stays : (p : ℕ) → is_alive (procs p).state ≡ true → is_alive (update procs j v p).state ≡ true
    stays p alive =
        update-cases procs j v p (λ s. is_alive s.state ≡ true)
          (λ e. living (subst (λ k. is_alive (procs k).state ≡ true) e alive)) (λ ne. alive)

    kept :
        (s : Slot)
        → (p : ℕ) × (s.parent ≡ some p) × (p < nproc) × (is_alive (procs p).state ≡ true)
        → IsChild s
    kept s (p, parent, inside, alive) = (p, parent, inside, stays p alive)

-- A child of `cur`, in an entry that was free.
pub child-Rooted :
    (procs : ℕ → Slot) (j : ℕ) (v : Slot) (cur : ℕ)
    → is_unused (procs j).state ≡ true
    → v.parent ≡ some cur
    → cur < nproc
    → is_alive (procs cur).state ≡ true
    → Rooted procs
    → Rooted (update procs j v)
child-Rooted procs j v cur free parent inside living =
    changed-Rooted procs j v (λ alive. let used = alive-used (procs j).state alive in cc)
      (λ u. (cur, parent, inside, living))

-- A zombie is reaped.
pub reaped-Rooted :
    (procs : ℕ → Slot) (z : ℕ) (v : Slot)
    → is_zombie (procs z).state ≡ true
    → is_unused v.state ≡ true
    → Rooted procs
    → Rooted (update procs z v)
reaped-Rooted procs z v dead free =
    changed-Rooted procs z v (λ alive. let living = alive-not_zombie (procs z).state alive in cc)
      (λ u. let no_way : true ≡ false = sym free ∙ u in cc)
