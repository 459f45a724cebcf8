-- ===== src/Xv6/LogTests.antt =====
-- The log of p5/xv6-public/log.c on an image of mkfs, whose log has 30 blocks: three calls under way
-- that log ten blocks each.
use cs537_group_projects.Base.{
  ℕ, zero, suc, ◌+◌, ◌<◌, ◌≤◌, ◌≡◌, ◌≢◌, ◌⊎◌, inl, inr, refl, arith, List, [], ◌∷◌, ◌++◌, update,
  ◌==◌, subst, Bool-cases,
}
use cs537_group_projects.Xv6.Log.{
  Log, Logged, log_size, begin_op, end_op, record_block, log_write, find_entry,
}
use cs537_group_projects.Xv6.Log.Reserve.{Reachable, Step, fresh, find_entry-first}
use cs537_group_projects.Xv6.Log.Safe.{at, log_write-within_quota}

-- Three calls have begun, and `k` blocks are logged.
unfoldable filled : ℕ → Log
filled zero = record (fresh 2 30 (λ _. 0)).log { outstanding = 3 }
filled (suc k) = record_block (filled k) (k + 100)

record IsFilled (k : ℕ) (g : Log) : Type 0 where
  count : g.n ≡ k
  blocks : g.size ≡ 30
  logged : (i : ℕ) → i < k → g.block i ≡ i + 100

record_block-IsFilled :
    (k : ℕ) (g : Log) → IsFilled k g → IsFilled (suc k) (record_block g (k + 100))
unfolding record_block update
record_block-IsFilled k g is =
    let (low, high, before, hit) = find_entry-first g.n 0 g (k + 100) in
    let stop = find_entry g.n 0 g (k + 100) in
    let end : stop ≡ g.n = elim (Bool-cases (stop == g.n)) [
      | inl last ↦ ground (arith, last)
      | inr early ↦
          let inside : stop < g.n = ground (arith, early, high) in
          absurd (
            omega (
              arith,
              hit (omega (arith, inside)),
              is.logged stop (omega (arith, inside, is.count)),
              inside,
              is.count,
            ))
    ] in
    record {
      count = ground (arith, end, is.count);
      blocks = is.blocks;
      logged = λ i lt. ground (arith, end, is.count, lt, is.logged i);
    }

filled-IsFilled : (k : ℕ) → IsFilled k (filled k)
unfolding filled
filled-IsFilled zero = record {
  count = refl;
  blocks = refl;
  logged = λ i lt. absurd (omega (arith, lt));
}
filled-IsFilled (suc k) = record_block-IsFilled k (filled k) (filled-IsFilled k)

filled-step :
    (k q : ℕ) (us vs : List ℕ)
    → k < 29
    → Reachable (at (filled k) (us ++ suc q ∷ vs))
    → Reachable (at (filled (suc k)) (us ++ q ∷ vs))
unfolding filled
filled-step k q us vs low r =
    let is = filled-IsFilled k in
    elim (log_write-within_quota (filled k) us vs q (k + 100) r).0 [
      | inl (room, goes) ↦ Reachable.after r (Step.logs q us vs (k + 100) goes)
      | inr (full, _, _) ↦ absurd (omega (arith, is.count, is.blocks, low, full))
    ]

-- A call with `a` blocks left logs `j` of them.
filled-Reachable :
    (j k q a : ℕ) (us vs : List ℕ)
    → j + k ≤ 29
    → a ≡ j + q
    → Reachable (at (filled k) (us ++ a ∷ vs))
    → Reachable (at (filled (j + k)) (us ++ q ∷ vs))
filled-Reachable zero k q a us vs low e r =
    subst (λ m. Reachable (at (filled m) (us ++ q ∷ vs))) {x = k} {y = 0 + k} (omega arith)
      (subst (λ b. Reachable (at (filled k) (us ++ b ∷ vs))) {x = a} {y = q} (omega (arith, e)) r)
filled-Reachable (suc j) k q zero us vs low e r = absurd (omega (arith, e))
filled-Reachable (suc j) k q (suc a) us vs low e r =
    subst (λ m. Reachable (at (filled m) (us ++ q ∷ vs))) {x = j + suc k} {y = suc j + k}
      (omega arith)
      (filled-Reachable j (suc k) q a us vs (omega (arith, low)) (omega (arith, e))
        (filled-step k a us vs (omega (arith, low)) r))

begun_three : Reachable (at (filled 0) (10 ∷ 10 ∷ 10 ∷ []))
unfolding filled begin_op
begun_three =
    Reachable.after
      (Reachable.after (Reachable.after (Reachable.at_start 2 30 (λ _. 0)) (Step.begins refl))
        (Step.begins refl))
      (Step.begins refl)

full-Reachable : Reachable (at (filled 29) (0 ∷ 0 ∷ 1 ∷ []))
full-Reachable = filled-Reachable 9 20 1 10 (0 ∷ 0 ∷ []) [] (omega arith) refl (
    filled-Reachable 10 10 0 10 (0 ∷ []) (10 ∷ []) (omega arith) refl
      (filled-Reachable 10 0 0 10 [] (10 ∷ 10 ∷ []) (omega arith) refl begun_three))

log_write-within_quota_example :
    ((((filled 29).n + 1 < (filled 29).size)
        × (log_write (filled 29) 500 ≡ Logged.goes (record_block (filled 29) 500)))
      ⊎ (((filled 29).size ≤ (filled 29).n + 1)
          × ((filled 29).size ≤ log_size)
          × (log_write (filled 29) 500 ≡ Logged.too_big)))
    × (end_op (filled 29) ≢ Logged.is_committing)
log_write-within_quota_example =
    log_write-within_quota (filled 29) (0 ∷ 0 ∷ []) [] 0 500 full-Reachable

-- The thirtieth block, which is within the quota of its call, panics.
thirtieth_panics : log_write (filled 29) 500 ≡ Logged.too_big
thirtieth_panics =
    let is = filled-IsFilled 29 in
    elim log_write-within_quota_example.0 [
      | inl (room, _) ↦ absurd (omega (arith, is.count, is.blocks, room))
      | inr (_, _, stops) ↦ stops
    ]
