-- ===== src/Kv/Client/Progress.antt =====
-- A client thread of p6/client.c goes on where the server has answered its oldest request.
use cs537_group_projects.Base.{
  ℕ, zero, suc, ◌+◌, ◌<◌, ◌≤◌, ◌≡◌, ◌≢◌, refl, sym, ap, subst, ◌∙◌, ◌⊎◌, Option, some, ◌==◌, ltb,
  leb, arith, Bool-cases, inl, inr, true, false,
}
use cs537_group_projects.Kv.Ring.{Desc}
use cs537_group_projects.Kv.Client.{
  Context, Place, submitting, checking, finished, submit_one, complete_one, next_place, client_step,
  Client, Reachable,
}
use cs537_group_projects.Kv.Client.Window.{Shows, Inv}
use cs537_group_projects.Kv.Client.Moves.{unanswered, next-Shows, moved-Inv}
use cs537_group_projects.Kv.Client.Results.{Reachable-Holds}

abbrev pub client_runs : ℕ → Context × Place → Context × Place
client_runs zero s = s
client_runs (suc k) s = client_runs k (client_step s.0 s.1)

-- Within `k` steps of the thread it has finished, or has submitted or completed one more.
abbrev pub GoesOn : ℕ → Context → Place → Type 0
GoesOn most c p =
    (k : ℕ) × (k ≤ most)
    × (((client_runs k (c, p)).1 ≡ finished)
        ⊎ (c.last_completed + c.last_submitted
            < (client_runs k (c, p)).0.last_completed + (client_runs k (c, p)).0.last_submitted))

-- One step first.
later :
    (most : ℕ) (c : Context) (p q : Place)
    → client_step c p ≡ (c, q)
    → GoesOn most c q
    → GoesOn (suc most) c p
later most c p q e (k, le, goal) = (
  suc k,
  omega (arith, le),
  subst
      (λ (s : Context × Place).
        ((client_runs k s).1 ≡ finished)
        ⊎ (c.last_completed + c.last_submitted
            < (client_runs k s).0.last_completed + (client_runs k s).0.last_submitted))
      (sym e) goal,
)

submits :
    (c : Context) (i : ℕ)
    → c.last_submitted < c.last_completed + c.win_size
    → c.last_submitted < c.num_reqs
    → GoesOn 1 c (submitting i)
unfolding client_step submit_one
submits c i room more =
    let open_window : ltb c.last_submitted (c.last_completed + c.win_size) ≡ true =
      ground (arith, room) in
    let not_all : leb c.num_reqs c.last_submitted ≡ false = ground (arith, more) in
    (1, omega arith, inr (rw (open_window, not_all) (omega arith)))

wider : (a b : ℕ) (c : Context) (p : Place) → a ≤ b → GoesOn a c p → GoesOn b c p
wider a b c p le (k, most, goal) = (k, omega (arith, le, most), goal)

goes_to_next :
    (c : Context) (answers : ℕ → Option Desc)
    → Inv c checking answers
    → c.last_submitted ≤ c.last_completed
    → GoesOn 1 c (next_place c)
unfolding next_place
goes_to_next c answers inv idle = elim (Bool-cases (ltb c.last_submitted c.num_reqs)) [
  | inl more ↦
      rw more (submits c c.last_submitted (omega (arith, idle, inv.size)) (ground (arith, more)))
  | inr all ↦
      let complete : ltb c.last_completed c.num_reqs ≡ false =
        ground (arith, all, inv.order, inv.all, idle) in
      rw (all, complete) (0, omega arith, inl refl)
]

checks :
    (c : Context) (answers : ℕ → Option Desc)
    → Inv c checking answers
    → (c.last_completed < c.last_submitted → (d : Desc) × (answers c.last_completed ≡ some d))
    → GoesOn 2 c checking
unfolding client_step complete_one
checks c answers inv oldest = elim (Bool-cases (ltb c.last_completed c.last_submitted)) [
  | inl under_way ↦
      let (d, e) = oldest (ground (arith, under_way)) in
      let slot : c.comps c.nxt_comp ≡ d =
        subst (λ o. Shows o (c.comps c.nxt_comp)) e (next-Shows c checking answers inv) in
      let ready : (c.comps c.nxt_comp).ready ≡ 1 =
        ap Desc.ready slot ∙ (inv.answered c.last_completed d e).1 in
      let test : ((c.comps c.nxt_comp).ready == 1) ≡ true = ground (arith, ready) in
      (1, omega arith, inr (rw test (omega arith)))
  | inr idle ↦
      let none_left : c.last_submitted ≤ c.last_completed = ground (arith, idle) in
      let stale : (c.comps c.nxt_comp).ready ≢ 1 =
        subst (λ o. Shows o (c.comps c.nxt_comp))
          (unanswered c checking answers c.last_completed inv none_left)
          (next-Shows c checking answers inv) in
      let test : ((c.comps c.nxt_comp).ready == 1) ≡ false = ground (arith, stale) in
      later 1 c checking (next_place c) (rw test refl) (goes_to_next c answers inv none_left)
]

goes_on :
    (c : Context) (p : Place) (answers : ℕ → Option Desc)
    → Inv c p answers
    → (c.last_completed < c.last_submitted → (d : Desc) × (answers c.last_completed ≡ some d))
    → GoesOn 3 c p
unfolding client_step
goes_on c (submitting i) answers inv oldest =
    let check =
      checks c answers (moved-Inv c (submitting i) checking answers inv (λ k e. cc) (λ e. cc))
        oldest in
    elim (Bool-cases (ltb c.last_submitted (c.last_completed + c.win_size))) [
      | inr full ↦ later 2 c (submitting i) checking (rw full refl) check
      | inl room ↦ elim (Bool-cases (leb c.num_reqs c.last_submitted)) [
        | inl all ↦ later 2 c (submitting i) checking (rw (room, all) refl) check
        | inr more ↦
            wider 1 3 c (submitting i) (omega arith)
              (submits c i (ground (arith, room)) (ground (arith, more)))
      ]
    ]
goes_on c checking answers inv oldest =
    wider 2 3 c checking (omega arith) (checks c answers inv oldest)
goes_on c finished answers inv oldest = (0, omega arith, inl refl)

-- In every reachable state of a thread that has not finished, if the server has answered the oldest of
-- the requests under way, or none is under way, then the thread finishes, submits or completes a
-- request within three steps of its own.
pub client_goes_on :
    {s : Client}
    → Reachable s
    → (s.ctx.last_completed < s.ctx.last_submitted
        → (d : Desc) × (s.answers s.ctx.last_completed ≡ some d))
    → GoesOn 3 s.ctx s.place
client_goes_on {s = s} r oldest = goes_on s.ctx s.place s.answers (Reachable-Holds r) oldest
