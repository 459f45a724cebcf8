-- ===== src/Kv/Client/Moves.antt =====
-- Every step of a client thread of p6/client.c and of its server keeps what holds of the thread.
use native.Mathlib.Nat.{mod-add-mod, add-mod_right}
use cs537_group_projects.Base.{
  update, update-there, update-apart, ℕ, ◌+◌, ◌-◌, ◌*◌, ◌/◌, ◌%◌, ◌<◌, ◌≤◌, ◌≡◌, ◌≢◌, refl, sym, ap,
  subst, ◌∙◌, Option, none, some, ◌==◌, leb, arith, Bool-cases, Option-cases, inl, inr,
}
use cs537_group_projects.Kv.Ring.{Desc}
use cs537_group_projects.Kv.Client.{
  Context, Place, submitting, checking, finished, res_offset, submit_one, complete_one, deliver,
  desc_bytes,
}
use cs537_group_projects.Kv.Client.Slots.{same_slot, slot_of_offset}
use cs537_group_projects.Kv.Client.Window.{Shows, Asks, Inv}

-- Another place of the thread, its memory unchanged.
pub moved-Inv :
    (c : Context) (p q : Place) (answers : ℕ → Option Desc)
    → Inv c p answers
    → ((i : ℕ) → q ≡ submitting i → i ≡ c.last_submitted)
    → (q ≡ finished → c.last_completed ≡ c.num_reqs)
    → Inv c q answers
moved-Inv c p q answers inv index ended = record {
  size = inv.size;
  order = inv.order;
  all = inv.all;
  window = inv.window;
  next = inv.next;
  index = index;
  ended = ended;
  asks = inv.asks;
  answered = inv.answered;
  board = inv.board;
  results = inv.results;
}

requested : Context → ℕ → Desc
requested c i = record {
  k = (c.reqs i).k;
  v = (c.reqs i).v;
  req_type = (c.reqs i).t;
  res_off = res_offset c c.last_submitted;
  ready = 0;
}

requested-Asks :
    (c : Context) (i j : ℕ)
    → i ≡ c.last_submitted
    → j ≡ c.last_submitted
    → Asks c.reqs c.comp_off c.win_size j (requested c i)
unfolding requested res_offset
requested-Asks c i j e f =
    let same : i ≡ j = e ∙ sym f in
    record {
      key = ap (λ x. (c.reqs x).k) same;
      value = ap (λ x. (c.reqs x).v) same;
      type = ap (λ x. (c.reqs x).t) same;
      place = ap (λ x. c.comp_off + x % c.win_size * desc_bytes) (sym f);
    }

pub submit_one-Inv :
    (c : Context) (answers : ℕ → Option Desc) (i : ℕ)
    → Inv c (submitting i) answers
    → c.last_submitted < c.last_completed + c.win_size
    → c.last_submitted < c.num_reqs
    → Inv (submit_one i c) (submitting (i + 1)) answers
unfolding submit_one res_offset requested
submit_one-Inv c answers i inv room more =
    let same : i ≡ c.last_submitted = inv.index i refl in
    record {
      size = inv.size;
      order = omega (arith, inv.order);
      all = omega arith;
      window = omega arith;
      next = inv.next;
      index = λ k e. let here : i + 1 ≡ k = cc in omega (arith, here, same);
      ended = λ e. cc;
      asks = λ j h. elim (Bool-cases (j == c.last_submitted)) [
        | inl new ↦
            let this : j ≡ c.last_submitted = ground (arith, new) in
            subst
              (λ n.
                Asks c.reqs c.comp_off c.win_size j
                  (update c.sent c.last_submitted (requested c i) n))
              (sym this)
              (subst (Asks c.reqs c.comp_off c.win_size j)
                (sym (update-there c.sent c.last_submitted (requested c i)))
                (requested-Asks c i j same this))
        | inr old ↦
            subst (Asks c.reqs c.comp_off c.win_size j)
              (sym (
                update-apart c.sent c.last_submitted (requested c i) j
                  (λ e. ground (arith, e, old))))
              (inv.asks j (ground (arith, h, old)))
      ];
      answered = λ j d e. let (lt, ready) = inv.answered j d e in (omega (arith, lt), ready);
      board = inv.board;
      results = inv.results;
    }

-- What is not submitted is not answered.
pub unanswered :
    (c : Context) (p : Place) (answers : ℕ → Option Desc) (j : ℕ)
    → Inv c p answers
    → c.last_submitted ≤ j
    → answers j ≡ none
unanswered c p answers j inv le = elim (Option-cases (answers j)) [
  | inl e ↦ e
  | inr (d, e) ↦ absurd (omega (arith, le, (inv.answered j d e).0))
]

-- The slot that is looked at next.
pub next-Shows :
    (c : Context) (p : Place) (answers : ℕ → Option Desc)
    → Inv c p answers
    → Shows (answers c.last_completed) (c.comps c.nxt_comp)
next-Shows c p answers inv =
    subst (λ k. Shows (answers c.last_completed) (c.comps k)) (sym inv.next)
      (inv.board c.last_completed (omega arith) (omega (arith, inv.size)))

-- The slot that is next to be completed is of a request that is under way and answered.
pub completes :
    (c : Context) (answers : ℕ → Option Desc)
    → Inv c checking answers
    → (c.comps c.nxt_comp).ready ≡ 1
    → (d : Desc) × (answers c.last_completed ≡ some d)
      × (c.comps c.nxt_comp ≡ d)
      × (c.last_completed < c.last_submitted)
completes c answers inv ready =
    let shown = next-Shows c checking answers inv in
    elim (Option-cases (answers c.last_completed)) [
      | inl none_yet ↦ absurd (subst (λ o. Shows o (c.comps c.nxt_comp)) none_yet shown ready)
      | inr (d, e) ↦ (
        d,
        e,
        subst (λ o. Shows o (c.comps c.nxt_comp)) e shown,
        (inv.answered c.last_completed d e).0,
      )
    ]

pub complete_one-Inv :
    (c : Context) (answers : ℕ → Option Desc)
    → Inv c checking answers
    → (c.comps c.nxt_comp).ready ≡ 1
    → Inv (complete_one c) checking answers
unfolding complete_one
complete_one-Inv c answers inv ready =
    let (d, e, slot, lt) = completes c answers inv ready in
    let cleared : Desc = record (c.comps c.nxt_comp) { ready = 0 } in
    record {
      size = inv.size;
      order = omega (arith, lt);
      all = inv.all;
      window = omega (arith, inv.window);
      next = ap (λ x. (x + 1) % c.win_size) inv.next ∙ mod-add-mod c.last_completed c.win_size 1;
      index = λ i e. cc;
      ended = λ e. cc;
      asks = inv.asks;
      answered = inv.answered;
      board = λ j low high. elim (Bool-cases (j == c.last_completed + c.win_size)) [
        | inl last ↦
            let same : j ≡ c.last_completed + c.win_size = ground (arith, last) in
            let here : j % c.win_size ≡ c.nxt_comp =
              ap (λ x. x % c.win_size) same
              ∙ add-mod_right c.last_completed c.win_size
              ∙ sym inv.next in
            let cleared_here : update c.comps c.nxt_comp cleared (j % c.win_size) ≡ cleared =
              ap (update c.comps c.nxt_comp cleared) here
              ∙ update-there c.comps c.nxt_comp cleared in
            subst (λ o. Shows o (update c.comps c.nxt_comp cleared (j % c.win_size)))
              (sym (unanswered c checking answers j inv (omega (arith, same, inv.window))))
              (λ r. omega (arith, ap Desc.ready cleared_here, r))
        | inr under_way ↦
            subst (Shows (answers j))
              (sym (
                update-apart c.comps c.nxt_comp cleared (j % c.win_size) (λ s. omega (
                  arith,
                  low,
                  same_slot c.win_size c.last_completed j c.last_completed (omega (arith, low))
                      (ground (arith, high, under_way)) (omega arith) (omega (arith, inv.size))
                      (s ∙ inv.next),
                ))))
              (inv.board j (omega (arith, low)) (ground (arith, high, under_way)))
      ];
      results = λ j h. elim (Bool-cases (j == c.last_completed)) [
        | inl this ↦
            let same : j ≡ c.last_completed = ground (arith, this) in
            (
              d,
              ap answers same ∙ e,
              ap (update c.res c.last_completed cleared) same
                  ∙ update-there c.res c.last_completed cleared
                  ∙ ap (λ (b : Desc). record b { ready = 0 }) slot,
            )
        | inr before ↦
            let (b, given, kept) = inv.results j (ground (arith, h, before)) in
            (
              b,
              given,
              update-apart c.res c.last_completed cleared j (λ e. ground (arith, e, before)) ∙ kept,
            )
      ];
    }

-- The slot that the server writes to.
deliver_slot :
    (c : Context) (p : Place) (answers : ℕ → Option Desc) (j : ℕ)
    → Inv c p answers
    → j < c.last_submitted
    → ((c.sent j).res_off - c.comp_off) / desc_bytes ≡ j % c.win_size
deliver_slot c p answers j inv h =
    ap (λ x. (x - c.comp_off) / desc_bytes) (Asks.place (inv.asks j h))
    ∙ slot_of_offset c.comp_off (j % c.win_size)

-- An unanswered request is not completed.
under_way :
    (c : Context) (p : Place) (answers : ℕ → Option Desc) (j : ℕ)
    → Inv c p answers
    → answers j ≡ none
    → c.last_completed ≤ j
under_way c p answers j inv e = elim (Bool-cases (leb c.last_completed j)) [
  | inl le ↦ ground (arith, le)
  | inr gt ↦
      let (d, given, kept) = inv.results j (ground (arith, gt)) in
      absurd (none_is_not d (sym e ∙ given))
]
  where
    none_is_not : (d : Desc) → none ≢ some d
    none_is_not d e = cc

-- The server's writes: `answers'` are the answers after it.
pub deliver-Inv :
    (c : Context) (p : Place) (answers later : ℕ → Option Desc) (j : ℕ) (d : Desc)
    → Inv c p answers
    → j < c.last_submitted
    → answers j ≡ none
    → ((i : ℕ) → i ≢ j → later i ≡ answers i)
    → Shows (later j) d
    → ((b : Desc) → later j ≡ some b → b.ready ≡ 1)
    → Inv (deliver c (c.sent j) d) p later
unfolding deliver
deliver-Inv c p answers later j d inv h e others shows ready =
    let slot = deliver_slot c p answers j inv h in
    let target = ((c.sent j).res_off - c.comp_off) / desc_bytes in
    record {
      size = inv.size;
      order = inv.order;
      all = inv.all;
      window = inv.window;
      next = inv.next;
      index = inv.index;
      ended = inv.ended;
      asks = inv.asks;
      answered = λ i b f. elim (Bool-cases (i == j)) [
        | inl this ↦
            let same : i ≡ j = ground (arith, this) in
            (omega (arith, same, h), ready b (ap later (sym same) ∙ f))
        | inr other ↦ inv.answered i b (sym (others i (λ g. ground (arith, g, other))) ∙ f)
      ];
      board = λ i low high. elim (Bool-cases (i == j)) [
        | inl this ↦
            let same : i ≡ j = ground (arith, this) in
            let here : i % c.win_size ≡ target = ap (λ x. x % c.win_size) same ∙ sym slot in
            subst (λ x. Shows (later x) (update c.comps target d (i % c.win_size))) (sym same)
              (subst (Shows (later j))
                (sym (ap (update c.comps target d) here ∙ update-there c.comps target d)) shows)
        | inr other ↦
            let ne : i ≢ j = λ g. ground (arith, g, other) in
            subst (λ o. Shows o (update c.comps target d (i % c.win_size))) (sym (others i ne))
              (subst (Shows (answers i))
                (sym (
                  update-apart c.comps target d (i % c.win_size) (λ s. ne (
                    same_slot c.win_size c.last_completed i j low high
                      (under_way c p answers j inv e) (omega (arith, h, inv.window)) (s ∙ slot)))))
                (inv.board i low high))
      ];
      results = λ i lt.
          let (b, given, kept) = inv.results i lt in
          (b, others i (λ g. omega (arith, g, lt, under_way c p answers j inv e)) ∙ given, kept);
    }
