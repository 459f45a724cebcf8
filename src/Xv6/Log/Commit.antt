-- ===== src/Xv6/Log/Commit.antt =====
-- `commit` of p5/xv6-public/log.c under a power loss at any write.
use cs537_group_projects.Base.{
  update, update-there, update-apart, ℕ, ◌+◌, ◌-◌, ◌*◌, ◌<◌, ◌≤◌, ◌≡◌, ◌≢◌, ◌⊎◌, inl, inr, refl,
  sym, ap, subst, ◌∙◌, ltb, arith, Bool-cases, true,
}
use cs537_group_projects.Xv6.Blocks.{Machine, bread, bwrite}
use cs537_group_projects.Xv6.Log.{
  Log, log_size, install_from, install_trans, head_block, write_head, write_log_from, write_log,
  commit,
}
use cs537_group_projects.Xv6.Log.Installed.{
  logged_from, Home, AllHome, bwrite-on, bwrite-off, bwrite-power, install_from-power,
  install_from-off,
}
use cs537_group_projects.Xv6.Log.Crash.{
  contents, Header, head_block-Header, Other, mid-power, finish-on, finish-head, finish-contents,
}
use cs537_group_projects.Xv6.Log.Copied.{
  bread-bwrite_on, write_log_from-power, write_log_from-kept, write_log_from-clean,
  write_log_from-copied, logged_from-copied,
}

-- Before a commit: the logged blocks are outside the log, the log on the disk is empty, and a block
-- that is not logged reads as it is on the disk.
pub record Ready (g : Log) (m : Machine) : Type 0 where
  pub fits : g.n ≤ log_size
  pub homes : AllHome g.start g.n g.block
  pub empty : m.disk g.start 0 ≡ 0
  pub clean : (x : ℕ) → Other g x → bread m x ≡ m.disk x

-- With power for at most the copies, the header on the disk stays.
pub commit-short :
    (g : Log) (m : Machine) (x : ℕ)
    → m.power ≤ g.n
    → ((x ≤ g.start) ⊎ (g.start + g.n < x))
    → (commit g m).disk x ≡ m.disk x
unfolding commit write_log write_head install_trans
commit-short g m x short outside = elim (Bool-cases (ltb 0 g.n)) [
  | inr nothing ↦ rw nothing refl
  | inl some_blocks ↦
      let logged = write_log_from g.n 0 g m in
      let out : logged.power ≡ 0 = omega (arith, write_log_from-power g.n 0 g m) in
      let h = head_block g (bread logged g.start) in
      let second = bwrite logged g.start h in
      let none_left : second.power ≡ 0 = omega (arith, bwrite-power logged g.start h) in
      let third = install_from g.n 0 g second in
      let none_now : third.power ≡ 0 = omega (arith, install_from-power g.n 0 g second) in
      let fourth = head_block (record g { n = 0 }) (bread third g.start) in
      rw some_blocks (
        ap (λ t. t x)
          (bwrite-off third g.start fourth none_now
            ∙ install_from-off g.n 0 g second none_left
            ∙ bwrite-off logged g.start h out)
        ∙ (write_log_from-kept g.n 0 g m x (ground (arith, outside))).0)
]

-- With power for the header too.
module _ (g : Log) (m : Machine) (x : ℕ) (ready : Ready g m) (enough : g.n < m.power)
    (home : Home g.start g.n x) where
  abbrev pub copied : Machine
  copied = write_log g m

  abbrev pub headed : Machine
  headed = write_head g copied

  copied-power : copied.power ≡ m.power - g.n
  unfolding write_log
  copied-power = write_log_from-power g.n 0 g m

  headed-disk : headed.disk ≡ update copied.disk g.start (head_block g (bread copied g.start))
  unfolding write_head
  headed-disk =
      bwrite-on copied g.start (head_block g (bread copied g.start))
        (λ e. omega (arith, e, copied-power, enough))

  headed-power : headed.power ≡ m.power - g.n - 1
  unfolding write_head
  headed-power =
      omega (arith, copied-power, bwrite-power copied g.start (head_block g (bread copied g.start)))

  headed-reads : (i : ℕ) → i < g.n → bread headed (g.start + i + 1) ≡ headed.disk (g.start + i + 1)
  unfolding write_head write_log
  headed-reads i h =
      bread-bwrite_on copied g.start (head_block g (bread copied g.start)) (g.start + i + 1)
        (λ e. omega (arith, e, copied-power, enough))
        (write_log_from-clean g.n 0 g m (g.start + i + 1) (omega arith)
          (ready.clean (g.start + i + 1) (λ j k e. ground (arith, ready.homes j k, e, h))))

  pub headed-Header : Header g (headed.disk g.start)
  headed-Header =
      subst (λ t. Header g (t g.start)) (sym headed-disk)
        (subst (Header g)
          (sym (update-there copied.disk g.start (head_block g (bread copied g.start))))
          (head_block-Header g (bread copied g.start)))

  headed-contents : logged_from g.n g.start g.block headed.disk x ≡ bread m x
  unfolding write_log
  headed-contents =
      let at = λ (y : ℕ) (ne : y ≢ g.start).
        ap (λ t. t y) headed-disk
        ∙ update-apart copied.disk g.start (head_block g (bread copied g.start)) y ne in
      logged_from-copied g.n g.start g.block headed.disk (bread m) x
        (λ i h.
          at (g.start + i + 1) (λ e. omega (arith, e))
          ∙ write_log_from-copied g.n 0 i g m (omega arith) (omega arith) ready.homes (omega arith)
              (omega (arith, h)))
        (λ other.
          at x (λ e. ground (arith, e, home))
          ∙ (write_log_from-kept g.n 0 g m x (ground (arith, home))).0
          ∙ sym (ready.clean x other))

  pub commit-contents : 0 < g.n → contents g.start (commit g m).disk x ≡ bread m x
  unfolding commit
  commit-contents many =
      let test : ltb 0 g.n ≡ true = ground arith in
      rw test
        (finish-contents g headed x ready.homes headed-reads headed-Header home ∙ headed-contents)

  pub commit-head :
      0 < g.n
      → ((commit g m).disk g.start 0 ≡ 0) ⊎ ((commit g m).disk g.start ≡ headed.disk g.start)
  unfolding commit
  commit-head many =
      let test : ltb 0 g.n ≡ true = ground arith in
      rw test (finish-head g headed x ready.homes headed-reads headed-Header home)

  pub commit-on :
      0 < g.n
      → 2 * g.n + 1 < m.power
      → ((commit g m).disk x ≡ bread m x) × ((commit g m).disk g.start 0 ≡ 0)
  unfolding commit
  commit-on many all =
      let test : ltb 0 g.n ≡ true = ground arith in
      let (here, cleared) = finish-on g headed x ready.homes headed-reads headed-Header home (λ e.
        omega (
          arith,
          e,
          headed-power,
          mid-power g headed x ready.homes headed-reads headed-Header home,
          all,
        )) in
      rw test (here ∙ headed-contents, cleared)
