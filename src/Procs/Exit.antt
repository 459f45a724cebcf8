-- ===== src/Procs/Exit.antt =====
-- `exit` of p5/xv6-public/proc.c: the wake-ups, and the children passed to the first process.
use cs537_group_projects.Base.{
  ℕ, ◌≡◌, ◌≢◌, inl, inr, refl, sym, ap, subst, ◌∙◌, Option, none, some, Bool, true, false, arith,
  ◌==◌, ◌&&◌, if◌then◌else◌, Bool-cases, update, update-there, update-apart,
}
use cs537_group_projects.Sched.Table.{
  State, unused, embryo, sleeping, runnable, running, zombie, is_sleeping,
}
use cs537_group_projects.Procs.Calls.{
  Slot, Kernel, Ran, ok, is_unused, is_zombie, is_process, wake, adopt, zombie_child, found, exit,
}
use cs537_group_projects.Procs.Keeps.{Sound, Alike}
use cs537_group_projects.Procs.Alloc.{Fine, Alike-Fine}

-- The state after, which is no panic, and is fine.
abbrev pub Goes : Kernel → Ran → Type 0
Goes s r = (t : Kernel) × (r ≡ ok t) × Fine s t

abbrev Same : Slot → Slot → Type 0
Same s t = (is_unused t.state ≡ is_unused s.state) × (t.pgdir ≡ s.pgdir)

sleeper-used : (st : State) → is_sleeping st ≡ true → is_unused st ≡ false
sleeper-used unused h = cc
sleeper-used embryo h = refl
sleeper-used sleeping h = refl
sleeper-used runnable h = refl
sleeper-used running h = refl
sleeper-used zombie h = refl

pub zombie-used : (st : State) → is_zombie st ≡ true → is_unused st ≡ false
zombie-used unused h = cc
zombie-used embryo h = refl
zombie-used sleeping h = refl
zombie-used runnable h = refl
zombie-used running h = refl
zombie-used zombie h = refl

pub both : (a b : Bool) → (a && b) ≡ true → (a ≡ true) × (b ≡ true)
both true b e = (refl, e)
both false b e = let no : false ≡ true = e in cc

wake-Same : (p : Option ℕ) (s : Slot) → Same s (wake p s)
unfolding wake
wake-Same none s = (refl, refl)
wake-Same (some p) s = elim (Bool-cases (is_sleeping s.state && is_process s.chan p)) [
  | inl woken ↦
      let used = sleeper-used s.state (both (is_sleeping s.state) (is_process s.chan p) woken).0 in
      rw (wake, woken) (sym used, refl)
  | inr asleep ↦ rw (wake, asleep) (refl, refl)
]

adopt-Same : (cur init : ℕ) (s : Slot) → Same s (adopt cur init s)
unfolding adopt
adopt-Same cur init s = elim (Bool-cases (is_process s.parent cur)) [
  | inl child ↦ rw (adopt, child) (refl, refl)
  | inr other ↦ rw (adopt, other) (refl, refl)
]

-- A write to an entry that is used, of one with the same directory.
pub write-Alike :
    (procs passed : ℕ → Slot) (j : ℕ) (v : Slot)
    → ((i : ℕ) → Same (procs i) (passed i))
    → Same (procs j) v
    → Alike procs (update passed j v)
write-Alike procs passed j v keeps written = λ i h. elim (Bool-cases (i == j)) [
  | inl here ↦
      let same : i ≡ j = ground (arith, here) in
      let slot : update passed j v i ≡ v = ap (update passed j v) same ∙ update-there passed j v in
      subst (λ s. Same (procs i) s) (sym slot) (subst (λ k. Same (procs k) v) (sym same) written)
  | inr there ↦
      let slot : update passed j v i ≡ passed i =
        update-apart passed j v i (λ e. ground (arith, e, there)) in
      subst (λ s. Same (procs i) s) (sym slot) (keeps i)
]

pub exit-Goes :
    (init cur : ℕ) (s : Kernel)
    → is_unused (s.procs cur).state ≡ false
    → cur ≢ init
    → Sound s.procs s.uvms
    → Goes s (exit init cur s)
unfolding exit
exit-Goes init cur s used apart sound =
    let other : (cur == init) ≡ false = ground (arith, apart) in
    let after : ℕ → Slot = update passed cur (record (passed cur) { state = zombie }) in
    let there : (passed cur).pgdir ≡ (s.procs cur).pgdir = (passed-Same cur).1 in
    (
      record s { procs = after },
      rw (exit, other) refl,
      Alike-Fine s (record s { procs = after }) sound refl refl
          (write-Alike s.procs passed cur (record (passed cur) { state = zombie }) passed-Same
            (sym used, there)),
    )
  where
    waking : Option ℕ
    waking = if found (zombie_child cur s.procs) then some init else none

    passed : ℕ → Slot
    passed i = wake waking (adopt cur init (wake (s.procs cur).parent (s.procs i)))

    passed-Same : (i : ℕ) → Same (s.procs i) (passed i)
    passed-Same i =
        let first = wake-Same (s.procs cur).parent (s.procs i) in
        let second = adopt-Same cur init (wake (s.procs cur).parent (s.procs i)) in
        let third = wake-Same waking (adopt cur init (wake (s.procs cur).parent (s.procs i))) in
        (third.0 ∙ second.0 ∙ first.0, third.1 ∙ second.1 ∙ first.1)
