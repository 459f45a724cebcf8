-- ===== src/Xv6/Log/Recovery.antt =====
-- `recover_from_log` of p5/xv6-public/log.c after power losses, also during recovery itself.
use cs537_group_projects.Base.{
  ℕ, ◌+◌, ◌<◌, ◌≤◌, ◌≡◌, ◌⊎◌, inl, inr, refl, sym, ap, subst, ◌∙◌, arith, List, [], ◌∷◌,
}
use cs537_group_projects.Xv6.Blocks.{Block, Machine, bread, restart, buffer_data}
use cs537_group_projects.Xv6.Log.{Log, read_head, recover_from_log}
use cs537_group_projects.Xv6.Log.Installed.{Home, AllHome}
use cs537_group_projects.Xv6.Log.Crash.{
  contents, Header, contents-Header, mid-power, finish-on, finish-head, finish-contents,
}

-- The blocks of the log that is on the disk are outside the log.
abbrev pub DiskHome : ℕ → (ℕ → Block) → Type 0
DiskHome start disk = AllHome start (disk start 0) (λ i. disk start (i + 1))

read_head-Header :
    (g : Log) (m : Machine) (p : ℕ) → Header (read_head g (restart p m)) (m.disk g.start)
unfolding read_head restart bread buffer_data
read_head-Header g m p = record { count = refl; numbers = λ i h. ground (arith, h) }

read_head-AllHome :
    (g : Log) (m : Machine) (p : ℕ)
    → DiskHome g.start m.disk
    → AllHome g.start (read_head g (restart p m)).n (read_head g (restart p m)).block
unfolding read_head restart bread buffer_data
read_head-AllHome g m p homes =
    λ i h. subst (Home g.start (m.disk g.start 0)) (ground (arith, h)) (homes i h)

restart-reads : (p : ℕ) (m : Machine) (x : ℕ) → bread (restart p m) x ≡ (restart p m).disk x
unfolding bread buffer_data restart
restart-reads p m x = refl

-- One recovery, cut off after `p` writes.
pub recover-contents :
    (g : Log) (m : Machine) (p x : ℕ)
    → DiskHome g.start m.disk
    → Home g.start (m.disk g.start 0) x
    → contents g.start (recover_from_log g (restart p m)).disk x ≡ contents g.start m.disk x
unfolding recover_from_log read_head restart bread buffer_data
recover-contents g m p x homes home =
    let r = restart p m in
    let header = read_head-Header g m p in
    finish-contents (read_head g r) r x (read_head-AllHome g m p homes)
      (λ i h. restart-reads p m (g.start + i + 1)) header home
    ∙ sym (contents-Header (read_head g r) m.disk x header)

pub recover-head :
    (g : Log) (m : Machine) (p x : ℕ)
    → DiskHome g.start m.disk
    → Home g.start (m.disk g.start 0) x
    → ((recover_from_log g (restart p m)).disk g.start 0 ≡ 0)
      ⊎ ((recover_from_log g (restart p m)).disk g.start ≡ m.disk g.start)
unfolding recover_from_log read_head restart bread buffer_data
recover-head g m p x homes home =
    let r = restart p m in
    finish-head (read_head g r) r x (read_head-AllHome g m p homes)
      (λ i h. restart-reads p m (g.start + i + 1)) (read_head-Header g m p) home

recover-DiskHome :
    (g : Log) (m : Machine) (p x : ℕ)
    → DiskHome g.start m.disk
    → Home g.start (m.disk g.start 0) x
    → DiskHome g.start (recover_from_log g (restart p m)).disk
      × ((recover_from_log g (restart p m)).disk g.start 0 ≤ m.disk g.start 0)
recover-DiskHome g m p x homes home = elim (recover-head g m p x homes home) [
  | inl cleared ↦ (λ i h. absurd (omega (arith, h, cleared)), omega (arith, cleared))
  | inr same ↦ (
    subst (λ hb. AllHome g.start (hb 0) (λ i. hb (i + 1))) (sym same) homes,
    omega (arith, ap (λ hb. hb 0) same),
  )
]

-- With power for the whole recovery.
pub recover-installs :
    (g : Log) (m : Machine) (p x : ℕ)
    → DiskHome g.start m.disk
    → Home g.start (m.disk g.start 0) x
    → m.disk g.start 0 < p
    → ((recover_from_log g (restart p m)).disk x ≡ contents g.start m.disk x)
      × ((recover_from_log g (restart p m)).disk g.start 0 ≡ 0)
unfolding recover_from_log read_head restart bread buffer_data
recover-installs g m p x homes home enough =
    let r = restart p m in
    let header = read_head-Header g m p in
    let all = read_head-AllHome g m p homes in
    let reads = λ (i : ℕ) (h : i < m.disk g.start 0). restart-reads p m (g.start + i + 1) in
    let power = mid-power (read_head g r) r x all reads header home in
    let (here, cleared) =
      finish-on (read_head g r) r x all reads header home (λ e. omega (arith, power, e, enough)) in
    (here ∙ sym (contents-Header (read_head g r) m.disk x header), cleared)

-- Recovery started and cut off as often as the list has numbers: of writes, each time.
unfoldable pub attempts : Log → List ℕ → Machine → Machine
attempts g [] m = m
attempts g (p ∷ ps) m = attempts g ps (recover_from_log g (restart p m))

attempts-head :
    (g : Log) (ps : List ℕ) (m : Machine)
    → DiskHome g.start m.disk
    → (x : ℕ) → Home g.start (m.disk g.start 0) x
    → (contents g.start (attempts g ps m).disk x ≡ contents g.start m.disk x)
      × DiskHome g.start (attempts g ps m).disk
      × ((attempts g ps m).disk g.start 0 ≤ m.disk g.start 0)
unfolding attempts
attempts-head g [] m homes x home = (refl, homes, omega arith)
attempts-head g (p ∷ ps) m homes x home =
    let next = recover_from_log g (restart p m) in
    let (after, fewer) = recover-DiskHome g m p x homes home in
    let smaller : Home g.start (next.disk g.start 0) x = ground (arith, home, fewer) in
    let (same, later, less) = attempts-head g ps next after x smaller in
    (same ∙ recover-contents g m p x homes home, later, omega (arith, less, fewer))

-- However often recovery is cut off, one that runs to its end leaves in each block outside the log
-- what the log and the disk said at the first loss of power, and an empty log.
pub attempts-installs :
    (g : Log) (ps : List ℕ) (m : Machine) (p x : ℕ)
    → DiskHome g.start m.disk
    → Home g.start (m.disk g.start 0) x
    → m.disk g.start 0 < p
    → ((recover_from_log g (restart p (attempts g ps m))).disk x ≡ contents g.start m.disk x)
      × ((recover_from_log g (restart p (attempts g ps m))).disk g.start 0 ≡ 0)
attempts-installs g ps m p x homes home enough =
    let (same, later, less) = attempts-head g ps m homes x home in
    let (here, cleared) =
      recover-installs g (attempts g ps m) p x later (ground (arith, home, less))
        (omega (arith, less, enough)) in
    (here ∙ same, cleared)
