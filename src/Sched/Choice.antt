-- ===== src/Sched/Choice.antt =====
-- The choice of `scheduler` in p5/xv6-public/proc.c.
use mathlib.Core.Option.{some-injective}
use cs537_group_projects.Base.{
  ℕ, zero, suc, ◌+◌, ◌%◌, ◌^◌, ◌<◌, ◌≤◌, ◌≡◌, ◌≢◌, refl, sym, ◌∙◌, ap, subst, List, [], ◌∷◌, Option,
  none, some, Bool, true, false, if◌then◌else◌, arith, Bool-cases, Option-cases, inl, inr,
  get_elem?,
}
use cs537_group_projects.Sched.Table.{
  bias, is_runnable, Proc, findminnice, is_chosen, choose, schedule,
}
use cs537_group_projects.Sched.Priority.{every, runs_from, findminnice-at_least}

-- A process of the table that can run.
abbrev pub Runnable : List Proc → ℕ → Proc → Type 0
Runnable table i p = (get_elem? table i ≡ some p) × (is_runnable p.state ≡ true)

pub every-get {ℓ} :
    {A : Type ℓ} (test : A → Bool) (xs : List A) (i : ℕ) (x : A)
    → every test xs ≡ true
    → get_elem? xs i ≡ some x
    → test x ≡ true
unfolding every
every-get test [] i x h e = absurd (ground arith)
every-get test (y ∷ ys) zero x h e =
    let same : y ≡ x = some-injective y x e in subst (λ z. test z ≡ true) same (ground arith)
every-get test (y ∷ ys) (suc i) x h e = every-get test ys i x (ground arith) e

-- What the loop gives when the rest has given `rest`, by the test of the first process.
abbrev first_place : Bool → Option ℕ → Option ℕ
first_place chosen rest =
    if chosen then some 0 else elim rest [ none ↦ none | some i ↦ some (suc i) ]

abbrev First : Option ℕ → ℕ → Bool → Type 0
First rest i chosen = first_place chosen rest ≡ some i

abbrev Before : Option ℕ → Bool → Type 0
Before rest chosen = first_place chosen rest ≡ none

choose-behind :
    (m : ℕ) (p : Proc) (ps : List Proc) (i : ℕ)
    → ((k : ℕ)
        → choose m ps ≡ some k
        → (q : Proc) × (get_elem? ps k ≡ some q) × (is_chosen m q ≡ true))
    → first_place false (choose m ps) ≡ some i
    → (q : Proc) × (get_elem? (p ∷ ps) i ≡ some q) × (is_chosen m q ≡ true)
choose-behind m p ps i rest e = elim (Option-cases (choose m ps)) [
  | inl none_left ↦ absurd (ground (arith, none_left, e))
  | inr (k, at_k) ↦
      let (q, here, c) = rest k at_k in
      let place : suc k ≡ i = ground (arith, at_k, e) in
      (q, ap (get_elem? (p ∷ ps)) (sym place) ∙ here, c)
]

choose-some :
    (m : ℕ) (ps : List Proc) (i : ℕ)
    → choose m ps ≡ some i
    → (p : Proc) × (get_elem? ps i ≡ some p) × (is_chosen m p ≡ true)
unfolding choose
choose-some m [] i e = absurd (ground arith)
choose-some m (p ∷ ps) i e = elim (Bool-cases (is_chosen m p)) [
  | inl c ↦
      let place : 0 ≡ i = some-injective 0 i (subst (First (choose m ps) i) c e) in
      (p, ap (get_elem? (p ∷ ps)) (sym place), c)
  | inr c ↦ choose-behind m p ps i (choose-some m ps) (subst (First (choose m ps) i) c e)
]

choose-none :
    (m : ℕ) (ps : List Proc)
    → choose m ps ≡ none
    → every (λ p. if is_chosen m p then false else true) ps ≡ true
unfolding choose every
choose-none m [] e = refl
choose-none m (p ∷ ps) e = elim (Bool-cases (is_chosen m p)) [
  | inl c ↦ absurd (ground (arith, subst (Before (choose m ps)) c e))
  | inr c ↦ rw c (choose-none m ps (ground (arith, subst (Before (choose m ps)) c e)))
]

chosen-bound :
    (m : ℕ) (p : Proc)
    → is_chosen m p ≡ true
    → (is_runnable p.state ≡ true) × (bias p.elevated_nice ≤ bias m)
chosen-bound m p c = (ground arith, ground arith)

passed-bound :
    (m : ℕ) (p : Proc)
    → is_runnable p.state ≡ true
    → (if is_chosen m p then false else true) ≡ true
    → bias m < bias p.elevated_nice
passed-bound m p r c = ground arith

every-map {ℓ} :
    {A : Type ℓ} (a b : A → Bool) (xs : List A)
    → ((x : A) → a x ≡ true → b x ≡ true)
    → every a xs ≡ true
    → every b xs ≡ true
unfolding every
every-map a b [] imp h = refl
every-map a b (x ∷ xs) imp h =
    let here : a x ≡ true = ground arith in rw (imp x here) (every-map a b xs imp (ground arith))

abbrev above : ℕ → ℕ
above m = (m + 1) % 2 ^ 32

passed-above :
    (m : ℕ) (p : Proc)
    → bias m < bias 19
    → (if is_chosen m p then false else true) ≡ true
    → runs_from (above m) p ≡ true
passed-above m p h c = ground arith

-- The least value is at most the elevated nice of each process that can run, and reached unless
-- it is 19.
least-below :
    (table : List Proc) (j : ℕ) (q : Proc)
    → Runnable (findminnice table).0 j q
    → bias (findminnice table).1 ≤ bias q.elevated_nice
least-below table j q (at_j, runs) =
    let m = (findminnice table).1 in
    let whole : every (runs_from m) (findminnice table).0 ≡ true =
      ground (arith, findminnice-at_least m table) in
    let one : runs_from m q ≡ true = every-get (runs_from m) (findminnice table).0 j q whole at_j in
    ground (arith, one, runs)

least-reached :
    (table : List Proc)
    → bias (findminnice table).1 < bias 19
    → choose (findminnice table).1 (findminnice table).0 ≢ none
least-reached table h none_left =
    let m = (findminnice table).1 in
    let passed = choose-none m (findminnice table).0 none_left in
    let all_above =
      every-map (λ p. if is_chosen m p then false else true) (runs_from (above m))
        (findminnice table).0 (λ p. passed-above m p h) passed in
    ground (arith, findminnice-at_least (above m) table, all_above)

-- Where some process of the table can run, at an elevated nice of at most 19, a pass of `scheduler`
-- chooses a process, which can run too, and at an elevated nice that is no greater.
pub schedule-least :
    (table : List Proc) (j : ℕ) (q : Proc)
    → Runnable (schedule table).0 j q
    → bias q.elevated_nice ≤ bias 19
    → (i : ℕ) × (p : Proc) × ((schedule table).1 ≡ some i)
      × Runnable (schedule table).0 i p
      × (bias p.elevated_nice ≤ bias q.elevated_nice)
unfolding schedule
schedule-least table j q (at_j, runs) h =
    let m = (findminnice table).1 in
    let raised = (findminnice table).0 in
    let low = least-below table j q (at_j, runs) in
    elim (Option-cases (choose m raised)) [
      | inl none_left ↦
          let passed =
            every-get (λ p. if is_chosen m p then false else true) raised j q
              (choose-none m raised none_left) at_j in
          absurd (least-reached table (omega (arith, h, passed-bound m q runs passed)) none_left)
      | inr (i, e) ↦
          let (p, here, c) = choose-some m raised i e in
          let (can, bound) = chosen-bound m p c in (i, p, e, (here, can), omega (arith, bound, low))
    ]
