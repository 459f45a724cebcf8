-- ===== src/Xv6/Log/Safe.antt =====
-- The calls of p5/xv6-public/log.c in every order: what holds throughout, and where one can panic.
use cs537_group_projects.Base.{
  ℕ, suc, ◌+◌, ◌-◌, ◌*◌, ◌%◌, ◌^◌, ◌<◌, ◌≤◌, ◌≡◌, ◌≢◌, ◌⊎◌, inl, inr, refl, sym, subst, ◌∙◌, ◌==◌,
  ltb, leb, arith, true, false, ◌||◌, some, none, List, ◌∷◌, ◌++◌, Bool-cases, is_positive,
}
use cs537_group_projects.Xv6.Log.{
  Log, Logged, log_size, max_op_blocks, begin_op, end_op, committed, record_block, log_write,
}
use cs537_group_projects.Xv6.Log.Reserve.{
  Calls, Step, Reachable, Reserved, total-++, length-++, Within-total, Within-less, Within-removed,
  record_block-once,
}

begin_op-eq :
    (g next : Log)
    → begin_op g ≡ some next
    → (g.committing ≡ false)
      × (g.n + (g.outstanding + 1) % 2 ^ 32 * max_op_blocks ≤ log_size)
      × (record g { outstanding = (g.outstanding + 1) % 2 ^ 32 } ≡ next)
unfolding begin_op
begin_op-eq g next e = elim (Bool-cases g.committing) [
  | inl busy ↦ let sleeps : begin_op g ≡ none = rw busy refl in cc
  | inr free ↦
      elim (Bool-cases (ltb log_size (g.n + (g.outstanding + 1) % 2 ^ 32 * max_op_blocks))) [
        | inl full ↦ let sleeps : begin_op g ≡ none = rw (free, full) refl in cc
        | inr room ↦
            let goes : begin_op g ≡ some (record g { outstanding = (g.outstanding + 1) % 2 ^ 32 }) =
              rw (free, room) refl in
            (free, ground (arith, room), cc)
      ]
]

log_write-eq :
    (g next : Log) (blockno : ℕ)
    → log_write g blockno ≡ Logged.goes next
    → record_block g blockno ≡ next
unfolding log_write
log_write-eq g next blockno e = elim (Bool-cases (leb log_size g.n || leb (g.size - 1) g.n)) [
  | inl big ↦ let panics : log_write g blockno ≡ Logged.too_big = rw big refl in cc
  | inr fits ↦ elim (Bool-cases (is_positive g.outstanding)) [
    | inl inside ↦
        let goes : log_write g blockno ≡ Logged.goes (record_block g blockno) =
          rw (fits, inside) refl in
        cc
    | inr outside ↦
        let panics : log_write g blockno ≡ Logged.outside_of_trans = rw (fits, outside) refl in cc
  ]
]

end_op-eq :
    (g next : Log)
    → end_op g ≡ Logged.goes next
    → (g.committing ≡ false)
      × (record g {
        outstanding = (g.outstanding + 2 ^ 32 - 1) % 2 ^ 32;
        committing = (g.outstanding + 2 ^ 32 - 1) % 2 ^ 32 == 0;
      }
          ≡ next)
unfolding end_op
end_op-eq g next e = elim (Bool-cases g.committing) [
  | inl busy ↦ let panics : end_op g ≡ Logged.is_committing = rw busy refl in cc
  | inr free ↦
      let goes : end_op g
          ≡ Logged.goes (record g {
            outstanding = (g.outstanding + 2 ^ 32 - 1) % 2 ^ 32;
            committing = (g.outstanding + 2 ^ 32 - 1) % 2 ^ 32 == 0;
          }) =
        rw free refl in
      (free, cc)
]

abbrev pub at : Log → List ℕ → Calls
at g qs = record { log = g; quotas = qs }

begins-Reserved :
    (g : Log) (qs : List ℕ)
    → Reserved (at g qs)
    → g.committing ≡ false
    → g.n + (g.outstanding + 1) % 2 ^ 32 * max_op_blocks ≤ log_size
    → Reserved (at (record g { outstanding = (g.outstanding + 1) % 2 ^ 32 }) (max_op_blocks ∷ qs))
begins-Reserved g qs inv free room =
    let bound = Within-total qs inv.within in
    record {
      counted = omega (arith, inv.counted, inv.few);
      few = omega (arith, room, inv.few);
      within = (omega arith, inv.within);
      room = omega (arith, bound, room, inv.counted, inv.few);
      alone = λ c. ground (arith, c, free);
      once = inv.once;
    }

record_block-n :
    (g : Log) (blockno : ℕ)
    → ((record_block g blockno).n ≤ g.n + 1)
      × ((record_block g blockno).outstanding ≡ g.outstanding)
      × ((record_block g blockno).size ≡ g.size)
      × ((record_block g blockno).committing ≡ g.committing)
unfolding record_block
record_block-n g blockno = (ground arith, refl, refl, refl)

logs-Reserved :
    (g : Log) (us vs : List ℕ) (q blockno : ℕ)
    → Reserved (at g (us ++ suc q ∷ vs))
    → Reserved (at (record_block g blockno) (us ++ q ∷ vs))
logs-Reserved g us vs q blockno inv =
    let (more, same, sized, busy) = record_block-n g blockno in
    let before = total-++ us (suc q ∷ vs) in
    let now = total-++ us (q ∷ vs) in
    record {
      counted = omega (arith, same, inv.counted, length-++ us (suc q ∷ vs), length-++ us (q ∷ vs));
      few = omega (arith, same, inv.few);
      within = Within-less us vs q inv.within;
      room = omega (arith, more, before, now, inv.room);
      alone = λ c. same ∙ inv.alone (sym busy ∙ c);
      once = record_block-once g blockno inv.once;
    }

ends-Reserved :
    (g : Log) (us vs : List ℕ) (q : ℕ)
    → Reserved (at g (us ++ q ∷ vs))
    → Reserved (
        at
          (record g {
            outstanding = (g.outstanding + 2 ^ 32 - 1) % 2 ^ 32;
            committing = (g.outstanding + 2 ^ 32 - 1) % 2 ^ 32 == 0;
          })
          (us ++ vs))
ends-Reserved g us vs q inv =
    let before = length-++ us (q ∷ vs) in
    let now = length-++ us vs in
    record {
      counted = omega (arith, before, now, inv.counted, inv.few);
      few = omega (arith, before, inv.counted, inv.few);
      within = Within-removed us vs q inv.within;
      room = omega (arith, total-++ us (q ∷ vs), total-++ us vs, inv.room);
      alone = λ c. ground (arith, c);
      once = inv.once;
    }

commits-Reserved : (g : Log) (qs : List ℕ) → Reserved (at g qs) → Reserved (at (committed g) qs)
unfolding committed
commits-Reserved g qs inv = record {
  counted = inv.counted;
  few = inv.few;
  within = inv.within;
  room = omega (arith, inv.room);
  alone = λ c. cc;
  once = λ i j a b. absurd (omega (arith, b));
}

Step-Reserved : {s t : Calls} → Step s t → Reserved s → Reserved t
Step-Reserved (Step.begins {g = g} {next = next} {qs = qs} e) inv =
    let (free, room, same) = begin_op-eq g next e in
    subst (λ h. Reserved (at h (max_op_blocks ∷ qs))) same (begins-Reserved g qs inv free room)
Step-Reserved (Step.logs {g = g} {next = next} q us vs blockno e) inv =
    subst (λ h. Reserved (at h (us ++ q ∷ vs))) (log_write-eq g next blockno e)
      (logs-Reserved g us vs q blockno inv)
Step-Reserved (Step.ends {g = g} {next = next} q us vs e) inv =
    let (free, same) = end_op-eq g next e in
    subst (λ h. Reserved (at h (us ++ vs))) same (ends-Reserved g us vs q inv)
Step-Reserved (Step.commits {g = g} {qs = qs} e) inv = commits-Reserved g qs inv

-- In every state that the calls can reach from an empty log of any size: `outstanding` counts the
-- calls under way and is at most 3, what they may still log fits in `LOGSIZE` blocks beside what is
-- there, none is under way during a commit, and no block is in the log twice.
pub Reachable-Reserved : {s : Calls} → Reachable s → Reserved s
Reachable-Reserved (Reachable.at_start start size block) = record {
  counted = refl;
  few = omega arith;
  within = omega arith;
  room = omega arith;
  alone = λ c. refl;
  once = λ i j a b. absurd (omega (arith, b));
}
Reachable-Reserved (Reachable.after r step) = Step-Reserved step (Reachable-Reserved r)

-- A call under way that has not logged `MAXOPBLOCKS` blocks: `log_write` records its block where the
-- log's blocks but the header have room for one more, and panics as too big a transaction exactly
-- where they have not, which takes a log of 30 blocks or fewer; and `end_op` does not panic. The
-- number of blocks is what `initlog` read, 30 on an image of mkfs.
pub log_write-within_quota :
    (g : Log) (us vs : List ℕ) (q blockno : ℕ)
    → Reachable (at g (us ++ suc q ∷ vs))
    → (((g.n + 1 < g.size) × (log_write g blockno ≡ Logged.goes (record_block g blockno)))
        ⊎ ((g.size ≤ g.n + 1) × (g.size ≤ log_size) × (log_write g blockno ≡ Logged.too_big)))
      × (end_op g ≢ Logged.is_committing)
unfolding log_write end_op
log_write-within_quota g us vs q blockno r =
    let inv = Reachable-Reserved r in
    let several = length-++ us (suc q ∷ vs) in
    let all = total-++ us (suc q ∷ vs) in
    let small : leb log_size g.n ≡ false = ground (arith, all, inv.room) in
    let many : 0 < g.outstanding = omega (arith, several, inv.counted) in
    let inside : is_positive g.outstanding ≡ true = ground (arith, many, inv.few) in
    let idle : g.committing ≡ false = elim (Bool-cases g.committing) [
      | inl busy ↦ absurd (omega (arith, inv.alone busy, many))
      | inr free ↦ free
    ] in
    (
      elim (Bool-cases (leb (g.size - 1) g.n)) [
        | inl full ↦
            let below : g.n < log_size = omega (arith, all, inv.room) in
            inr (ground (arith, full), ground (arith, full, below), rw (small, full) refl)
        | inr free ↦ inl (ground (arith, free), rw (small, free, inside) refl)
      ],
      rw idle (λ e. cc),
    )
