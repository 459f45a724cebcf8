-- ===== src/Xv6/Log/Atomic.antt =====
-- All or nothing: `commit` of p5/xv6-public/log.c, a loss of power, and recovery.
use cs537_group_projects.Base.{
  ℕ, ◌<◌, ◌≤◌, ◌≡◌, ◌⊎◌, inl, inr, refl, sym, ap, subst, ◌∙◌, ltb, leb, arith, Bool-cases, false,
  List,
}
use cs537_group_projects.Xv6.Blocks.{Block, Machine, bread, restart}
use cs537_group_projects.Xv6.Log.{Log, commit, recover_from_log}
use cs537_group_projects.Xv6.Log.Installed.{Home, AllHome}
use cs537_group_projects.Xv6.Log.Crash.{contents, Header, contents-cleared}
use cs537_group_projects.Xv6.Log.Recovery.{DiskHome, attempts, attempts-installs}
use cs537_group_projects.Xv6.Log.Commit.{
  Ready, commit-short, headed-Header, commit-contents, commit-head,
}

-- The header is empty, or that of the log.
abbrev HeadOf : Log → Block → Type 0
HeadOf g hb = (hb 0 ≡ 0) ⊎ Header g hb

HeadOf-DiskHome :
    (g : Log) (disk : ℕ → Block)
    → AllHome g.start g.n g.block
    → HeadOf g (disk g.start)
    → DiskHome g.start disk × (disk g.start 0 ≤ g.n)
HeadOf-DiskHome g disk homes (inl cleared) =
    (λ i h. absurd (omega (arith, h, cleared)), omega (arith, cleared))
HeadOf-DiskHome g disk homes (inr header) = (
  λ i h.
      let below : i < g.n = omega (arith, h, header.count) in
      subst (Home g.start (disk g.start 0)) (sym (header.numbers i below))
        (subst (λ n. Home g.start n (g.block i)) (sym header.count) (homes i below)),
  omega (arith, header.count),
)

-- What `commit` leaves: the header, and what each block outside the log stands for.
abbrev Committed : Log → Machine → Machine → ℕ → Type 0
Committed g m after x =
    HeadOf g (after.disk g.start)
    × (m.power ≤ g.n → contents g.start after.disk x ≡ m.disk x)
    × (g.n < m.power → contents g.start after.disk x ≡ bread m x)

nothing_logged : (g : Log) (m : Machine) → ltb 0 g.n ≡ false → commit g m ≡ m
unfolding commit
nothing_logged g m nothing = rw nothing refl

commit-Committed :
    (g : Log) (m : Machine) (x : ℕ) → Ready g m → Home g.start g.n x → Committed g m (commit g m) x
commit-Committed g m x ready home = elim (Bool-cases (leb m.power g.n)) [
  | inl short ↦
      let le : m.power ≤ g.n = ground (arith, short) in
      let kept : (commit g m).disk g.start 0 ≡ 0 =
        ap (λ hb. hb 0) (commit-short g m g.start le (inl (omega arith))) ∙ ready.empty in
      (
        inl kept,
        λ h.
            contents-cleared g.start (commit g m).disk x kept
            ∙ commit-short g m x le (ground (arith, home)),
        λ h. absurd (omega (arith, h, le)),
      )
  | inr powered ↦
      let lt : g.n < m.power = ground (arith, powered) in
      elim (Bool-cases (ltb 0 g.n)) [
        | inl some_blocks ↦
            let many : 0 < g.n = ground (arith, some_blocks) in
            (
              elim (commit-head g m x ready lt home many) [
                | inl cleared ↦ inl cleared
                | inr same ↦ inr (subst (Header g) (sym same) (headed-Header g m x ready lt home))
              ],
              λ h. absurd (omega (arith, h, lt)),
              λ h. commit-contents g m x ready lt home many,
            )
        | inr nothing ↦ (
          inl (ap (λ t. t.disk g.start 0) (nothing_logged g m nothing) ∙ ready.empty),
          λ h. absurd (omega (arith, h, lt)),
          λ h.
              ap (λ t. contents g.start t.disk x) (nothing_logged g m nothing)
              ∙ contents-cleared g.start m.disk x ready.empty
              ∙ sym (ready.clean x (λ i k e. ground (arith, nothing, k))),
        )
      ]
]

-- Power fails after any number of writes of `commit`, and again in as many recoveries as the list
-- `ps` has numbers; the next recovery runs to its end. Then every block outside the log is as it was
-- on the disk before, if the power did not reach the write of the header, and as it was in the cache,
-- if it did; and the log on the disk is empty. `Ready`: the logged blocks are outside the log, the
-- log on the disk is empty, blocks not logged are the same in the cache and on the disk.
pub commit-all_or_nothing :
    (g : Log) (m : Machine) (x : ℕ) (ps : List ℕ) (p : ℕ)
    → Ready g m
    → Home g.start g.n x
    → g.n < p
    → let end = recover_from_log g (restart p (attempts g ps (commit g m))) in
      (m.power ≤ g.n → end.disk x ≡ m.disk x)
      × (g.n < m.power → end.disk x ≡ bread m x)
      × (end.disk g.start 0 ≡ 0)
commit-all_or_nothing g m x ps p ready home enough =
    let (head, old, new) = commit-Committed g m x ready home in
    let (homes, few) = HeadOf-DiskHome g (commit g m).disk ready.homes head in
    let (here, cleared) =
      attempts-installs g ps (commit g m) p x homes (ground (arith, home, few))
        (omega (arith, few, enough)) in
    (λ h. here ∙ old h, λ h. here ∙ new h, cleared)
