-- ===== src/Kv/Client/Results.antt =====
-- A client thread of p6/client.c against any server and any order of their steps.
use native.Mathlib.Nat.{zero-mod}
use cs537_group_projects.Base.{
  update, update-there, update-apart, ℕ, ◌+◌, ◌*◌, ◌%◌, ◌<◌, ◌≤◌, ◌≡◌, ◌≢◌, refl, sym, ap, subst,
  ◌∙◌, Option, none, some, ◌==◌, ltb, leb, arith, Bool-cases, inl, inr,
}
use cs537_group_projects.Kv.Ring.{Desc}
use cs537_group_projects.Kv.Client.{
  Context, Request, Place, submitting, checking, finished, next_place, client_step, Client, Step,
  Reachable, start_client, start_context, desc_bytes,
}
use cs537_group_projects.Kv.Client.Slots.{same_slot}
use cs537_group_projects.Kv.Client.Window.{Shows, Asks, Inv}
use cs537_group_projects.Kv.Client.Moves.{moved-Inv, submit_one-Inv, complete_one-Inv, deliver-Inv}

next_place-Inv :
    (c : Context) (p : Place) (answers : ℕ → Option Desc)
    → Inv c p answers
    → Inv c (next_place c) answers
unfolding next_place
next_place-Inv c p answers inv = elim (Bool-cases (ltb c.last_submitted c.num_reqs)) [
  | inl more ↦
      rw more (moved-Inv c p (submitting c.last_submitted) answers inv (λ i e. cc) (λ e. cc))
  | inr all ↦ elim (Bool-cases (ltb c.last_completed c.num_reqs)) [
    | inl waiting ↦ rw (all, waiting) (moved-Inv c p checking answers inv (λ i e. cc) (λ e. cc))
    | inr complete ↦
        rw (all, complete)
          (moved-Inv c p finished answers inv (λ i e. cc)
            (λ e. ground (arith, complete, inv.order, inv.all)))
  ]
]

client_step-Inv :
    (c : Context) (p : Place) (answers : ℕ → Option Desc)
    → Inv c p answers
    → Inv (client_step c p).0 (client_step c p).1 answers
unfolding client_step
client_step-Inv c (submitting i) answers inv =
    let leaves = moved-Inv c (submitting i) checking answers inv (λ k e. cc) (λ e. cc) in
    elim (Bool-cases (ltb c.last_submitted (c.last_completed + c.win_size))) [
      | inr full ↦ rw full leaves
      | inl room ↦ elim (Bool-cases (leb c.num_reqs c.last_submitted)) [
        | inl all ↦ rw (room, all) leaves
        | inr more ↦
            rw (room, more)
              (submit_one-Inv c answers i inv (ground (arith, room)) (ground (arith, more)))
      ]
    ]
client_step-Inv c checking answers inv = elim (Bool-cases ((c.comps c.nxt_comp).ready == 1)) [
  | inl ready ↦ rw ready (complete_one-Inv c answers inv (ground (arith, ready)))
  | inr not_ready ↦ rw not_ready (next_place-Inv c checking answers inv)
]
client_step-Inv c finished answers inv = inv

abbrev pub Holds : Client → Type 0
Holds s = Inv s.ctx s.place s.answers

Step-Inv : {s t : Client} → Step s t → Holds s → Holds t
Step-Inv (Step.runs c p answers) inv = client_step-Inv c p answers inv
Step-Inv (Step.copies c p answers j d h e r) inv =
    deliver-Inv c p answers answers j d inv h e (λ i ne. refl)
      (subst (λ o. Shows o d) (sym e) (λ f. omega (arith, f, r))) (λ b f. cc)
Step-Inv (Step.replies c p answers j d h e r) inv =
    let there = update-there answers j (some d) in
    deliver-Inv c p answers (update answers j (some d)) j d inv h e
      (λ i ne. update-apart answers j (some d) i ne) (subst (λ o. Shows o d) (sym there) refl)
      (λ b f. let same : d ≡ b = cc in ap Desc.ready (sym same) ∙ r)

start-Inv :
    (n : ℕ) (reqs : ℕ → Request) (win off : ℕ) (res : ℕ → Desc)
    → 0 < win
    → Holds (start_client n reqs win off res)
unfolding start_client
start-Inv n reqs win off res pos =
    next_place-Inv (start_context n reqs win off res) checking (λ j. none)
      (record {
        size = pos;
        order = omega arith;
        all = omega arith;
        window = omega arith;
        next = sym (zero-mod win);
        index = λ i e. cc;
        ended = λ e. cc;
        asks = λ j h. absurd (omega (arith, h));
        answered = λ j d e. cc;
        board = λ j low high e. omega (arith, e);
        results = λ j h. absurd (omega (arith, h));
      })

pub Reachable-Holds : {s : Client} → Reachable s → Holds s
Reachable-Holds (Reachable.at_start n reqs win off res pos) = start-Inv n reqs win off res pos
Reachable-Holds (Reachable.after r step) = Step-Inv step (Reachable-Holds r)

-- In every order of the steps of a client thread and of the server's writes, from its start with a
-- window of at least one: at most a window of requests is under way, no two of them have the same
-- place for their answers, every submitted descriptor is that of its request, and the results up to
-- `last_completed` are the server's answers to the requests in order, with `ready` cleared. A
-- thread that has finished has them all.
pub client_results :
    {s : Client}
    → Reachable s
    → (s.ctx.last_submitted ≤ s.ctx.last_completed + s.ctx.win_size)
      × ((i j : ℕ)
          → s.ctx.last_completed ≤ i
          → i < j
          → j < s.ctx.last_submitted
          → (s.ctx.sent i).res_off ≢ (s.ctx.sent j).res_off)
      × ((j : ℕ)
          → j < s.ctx.last_submitted
          → Asks s.ctx.reqs s.ctx.comp_off s.ctx.win_size j (s.ctx.sent j))
      × ((j : ℕ)
          → j < s.ctx.last_completed
          → (d : Desc) × (s.answers j ≡ some d) × (s.ctx.res j ≡ record d { ready = 0 }))
      × (s.place ≡ finished → s.ctx.last_completed ≡ s.ctx.num_reqs)
client_results {s = s} r =
    let inv = Reachable-Holds r in
    (
      inv.window,
      λ i j low lt high e.
          let place : s.ctx.comp_off + i % s.ctx.win_size * desc_bytes
              ≡ s.ctx.comp_off + j % s.ctx.win_size * desc_bytes =
            sym (Asks.place (inv.asks i (omega (arith, lt, high))))
            ∙ e
            ∙ Asks.place (inv.asks j high) in
          let same : i ≡ j =
            same_slot s.ctx.win_size s.ctx.last_completed i j low
              (omega (arith, lt, high, inv.window)) (omega (arith, low, lt))
              (omega (arith, high, inv.window)) (omega (arith, place)) in
          omega (arith, same, lt),
      inv.asks,
      inv.results,
      inv.ended,
    )
