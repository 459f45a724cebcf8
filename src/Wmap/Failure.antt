-- ===== src/Wmap/Failure.antt =====
-- `sys_wmap` where it does not map: what it leaves behind, and where it writes through `NULL`.
use cs537_group_projects.Base.{
  ℕ, zero, suc, ◌+◌, ◌<◌, ◌≡◌, ◌≢◌, refl, subst, List, [], ◌∷◌, Option, none, some, Bool, true,
  false, ◌==◌, arith, length, get_or, set, set-set, set-get_or, get_or-set_self, Option-cases,
  Bool-cases, inl, inr,
}
use cs537_group_projects.Wmap.State.{
  done, >>=-eq-done, has, map_anonymous, Proc, filedup, fileclose, close_if,
}
use cs537_group_projects.Wmap.Map.{
  place, open_file, map_at, close_and_fail, map_checked, one_kind, wmap, fetch, sys_wmap, Args,
}

get_or-ne-zero : (xs : List ℕ) (i : ℕ) → get_or xs i 0 ≢ 0 → i < length xs
get_or-ne-zero [] i h = absurd (h refl)
get_or-ne-zero (x ∷ xs) zero h = omega arith
get_or-ne-zero (x ∷ xs) (suc i) h = omega (arith, get_or-ne-zero xs i h)

raised-close :
    (p : Proc) (f : ℕ)
    → (get_or p.refs f 0 == 0) ≡ false
    → fileclose (record p { refs = set p.refs f (get_or p.refs f 0 + 1) }) f ≡ done p
unfolding fileclose
raised-close p f h =
    let n = get_or p.refs f 0 in
    let open_here : f < length p.refs = get_or-ne-zero p.refs f (ground arith) in
    rw (get_or-set_self p.refs f (n + 1) 0 open_here)
      (ground (arith, set-set p.refs f (n + 1) n, set-get_or p.refs f 0))

-- Closing what was just duplicated gives the process back as it was.
pub fileclose-filedup : (p q : Proc) (f : ℕ) → filedup p f ≡ done q → fileclose q f ≡ done p
unfolding filedup
fileclose-filedup p q f e = elim (Bool-cases (get_or p.refs f 0 == 0)) [
  | inl closed ↦ absurd (ground arith)
  | inr opened ↦ subst (λ r. fileclose r f ≡ done p) (ground arith) (raised-close p f opened)
]

open_file-close :
    (p q : Proc) (flags fd : ℕ) (f : Option ℕ)
    → open_file p flags fd ≡ done (some (q, f))
    → close_if q f ≡ done p
unfolding open_file close_if
open_file-close p q flags fd f e = elim (Bool-cases (has flags map_anonymous)) [
  | inl anonymous ↦ ground arith
  | inr backed ↦ elim (Option-cases (get_or p.ofile fd none)) [
    | inl closed ↦ absurd (ground arith)
    | inr (g, opened) ↦
        let (r, d, same) =
          >>=-eq-done {B = Option (Proc × Option ℕ)} (filedup p g) (λ r. done (some (r, some g)))
            {b = some (q, f)} (ground arith) in
        ground (arith, fileclose-filedup p r g d)
  ]
]

close_and_fail-eq :
    (p q r : Proc) (f : Option ℕ) (a : Option ℕ)
    → close_if q f ≡ done p
    → close_and_fail q f ≡ done (r, a)
    → r ≡ p
unfolding close_and_fail
close_and_fail-eq p q r f a c e = ground arith

map_at-failed :
    (kalloc : Bool) (p q r : Proc) (a : Option ℕ) (length flags : ℕ) (f : Option ℕ)
    → close_if q f ≡ done p
    → map_at kalloc q a length flags f ≡ done (r, none)
    → r ≡ p
unfolding map_at
map_at-failed kalloc p q r none length flags f c e = close_and_fail-eq p q r f none c e
map_at-failed false p q r (some a) length flags f c e = close_and_fail-eq p q r f none c e
map_at-failed true p q r (some a) length flags f c e = absurd (ground arith)

map_checked-failed :
    (kalloc : Bool) (p r : Proc) (addr length flags fd : ℕ)
    → map_checked kalloc p addr length flags fd ≡ done (r, none)
    → r ≡ p
unfolding map_checked
map_checked-failed kalloc p r addr length flags fd e =
    let (o, opened, rest) = >>=-eq-done {B = Proc × Option ℕ} (open_file p flags fd) _ e in
    elim (Option-cases o) [
      | inl failed ↦ ground arith
      | inr ((q, f), got) ↦
          map_at-failed kalloc p q r (place addr length flags q.mmaps) length flags f
            (open_file-close p q flags fd f (ground arith)) (ground arith)
    ]

-- A call that returns FAILED leaves the process and the file table exactly as they were, whichever
-- test failed: the file that it had opened is closed again.
pub wmap_failed :
    (kalloc : Bool) (p q : Proc) (args : Args) → sys_wmap kalloc p args ≡ done (q, none) → q ≡ p
unfolding sys_wmap wmap
wmap_failed kalloc p q args e = elim (Option-cases (fetch args)) [
  | inl no_args ↦ ground arith
  | inr ((addr, length, flags, fd), got) ↦ elim (Bool-cases (one_kind flags)) [
    | inl kind ↦ map_checked-failed kalloc p q addr length flags fd (ground arith)
    | inr none_or_both ↦ ground arith
  ]
]
