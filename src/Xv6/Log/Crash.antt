-- ===== src/Xv6/Log/Crash.antt =====
-- Power losses in `recover_from_log` and `commit` of p5/xv6-public/log.c.
use cs537_group_projects.Base.{
  update-there, update-apart, ℕ, ◌+◌, ◌-◌, ◌<◌, ◌≡◌, ◌≢◌, ◌⊎◌, inl, inr, refl, sym, ap, subst, ◌∙◌,
  ◌==◌, leb, arith, Bool-cases, true, false,
}
use cs537_group_projects.Xv6.Blocks.{Block, Machine, bread}
use cs537_group_projects.Xv6.Log.{Log, install_trans, head_block, write_head}
use cs537_group_projects.Xv6.Log.Installed.{
  logged_from, Home, AllHome, bwrite-on, bwrite-off, install_from-power, logged_from-other,
  logged_from-same, logged_from-again, Installs, install_from-Installs,
}

-- What the disk holds for block `x` once the log that is on it is installed.
unfoldable pub contents : ℕ → (ℕ → Block) → ℕ → Block
contents start disk x = logged_from (disk start 0) start (λ i. disk start (i + 1)) disk x

-- The header block `hb` says what the log in memory does.
pub record Header (g : Log) (hb : Block) : Type 0 where
  pub count : hb 0 ≡ g.n
  pub numbers : (i : ℕ) → i < g.n → hb (i + 1) ≡ g.block i

pub contents-cleared :
    (start : ℕ) (disk : ℕ → Block) (x : ℕ) → disk start 0 ≡ 0 → contents start disk x ≡ disk x
unfolding contents logged_from
contents-cleared start disk x e = ap (λ n. logged_from n start (λ i. disk start (i + 1)) disk x) e

pub contents-Header :
    (g : Log) (disk : ℕ → Block) (x : ℕ)
    → Header g (disk g.start)
    → contents g.start disk x ≡ logged_from g.n g.start g.block disk x
unfolding contents
contents-Header g disk x h =
    ap (λ n. logged_from n g.start (λ i. disk g.start (i + 1)) disk x) h.count
    ∙ logged_from-same g.n g.start g.block (λ i. disk g.start (i + 1)) disk x h.numbers

pub head_block-Header : (g : Log) (hb : Block) → Header g (head_block g hb)
unfolding head_block
head_block-Header g hb = record {
  count = refl;
  numbers = λ i h.
      let there : leb (i + 1) g.n ≡ true = ground (arith, h) in
      let later : (i + 1 == 0) ≡ false = ground arith in
      let back : i + 1 - 1 ≡ i = omega arith in rw (later, there, back) refl;
}

-- The header is no block that is installed.
header_apart : (g : Log) (i : ℕ) → AllHome g.start g.n g.block → i < g.n → g.block i ≢ g.start
header_apart g i homes h e = ground (arith, homes i h, e)

-- A block that is not logged.
abbrev pub Other : Log → ℕ → Type 0
Other g x = (i : ℕ) → i < g.n → g.block i ≢ x

transport_head : (g : Log) {a b : Block} → a ≡ b → Header g a → Header g b
transport_head g e h = subst (Header g) e h

start_at : (g : Log) (m : Machine) (x : ℕ) → m.disk x ≡ logged_from 0 g.start g.block m.disk x
unfolding logged_from
start_at g m x = refl

-- `install_trans` and the clearing of the header, cut off anywhere.
module _ (g : Log) (m : Machine) (x : ℕ) (homes : AllHome g.start g.n g.block)
    (reads : (i : ℕ) → i < g.n → bread m (g.start + i + 1) ≡ m.disk (g.start + i + 1))
    (header : Header g (m.disk g.start)) (home : Home g.start g.n x) where
  abbrev pub mid : Machine
  mid = install_trans g m

  abbrev pub after : Machine
  after = write_head (record g { n = 0 }) mid

  abbrev pub installed : Block
  installed = logged_from g.n g.start g.block m.disk x

  mid-Installs : Installs mid m.power g.n 0 g m.disk
  unfolding install_trans
  mid-Installs =
      install_from-Installs g.n 0 g m m.disk (omega arith) homes reads (λ y. start_at g m y)

  pub mid-power : mid.power ≡ m.power - g.n
  unfolding install_trans
  mid-power = install_from-power g.n 0 g m

  -- With no power for the header, the log on the disk stands.
  finish-off : mid.power ≡ 0 → contents g.start after.disk x ≡ installed
  unfolding write_head
  finish-off off =
      let (count, below, here, all) = mid-Installs in
      let kept : (y : ℕ) → Other g y → mid.disk y ≡ m.disk y = λ y o.
        here y
        ∙ logged_from-other count g.start g.block m.disk y (λ i h. o i (omega (arith, h, below))) in
      let same_head = kept g.start (λ i h. header_apart g i homes h) in
      ap (λ d. contents g.start d x)
        (bwrite-off mid g.start (head_block (record g { n = 0 }) (bread mid g.start)) off)
      ∙ contents-Header g mid.disk x (transport_head g (sym same_head) header)
      ∙ logged_from-again g.n count g.start g.block m.disk mid.disk x (omega (arith, below))
          (λ i h. kept (g.start + i + 1) (λ j k e. ground (arith, homes j k, e, h))) (here x)

  pub finish-on : mid.power ≢ 0 → (after.disk x ≡ installed) × (after.disk g.start 0 ≡ 0)
  unfolding write_head
  finish-on on =
      let (count, below, here, all) = mid-Installs in
      let cleared = head_block (record g { n = 0 }) (bread mid g.start) in
      let wrote = bwrite-on mid g.start cleared on in
      let done : count ≡ g.n = omega (arith, all (omega (arith, mid-power, on))) in
      (
        ap (λ d. d x) wrote
            ∙ update-apart mid.disk g.start cleared x (λ e. ground (arith, home, e))
            ∙ here x
            ∙ ap (λ n. logged_from n g.start g.block m.disk x) done,
        ap (λ d. d g.start 0) wrote
            ∙ ap (λ d. d 0) (update-there mid.disk g.start cleared)
            ∙ Header.count (head_block-Header (record g { n = 0 }) (bread mid g.start)),
      )

  pub finish-head : (after.disk g.start 0 ≡ 0) ⊎ (after.disk g.start ≡ m.disk g.start)
  unfolding write_head
  finish-head = elim (Bool-cases (mid.power == 0)) [
    | inl off ↦
        let (count, below, here, all) = mid-Installs in
        let cleared = head_block (record g { n = 0 }) (bread mid g.start) in
        inr (
          ap (λ d. d g.start) (bwrite-off mid g.start cleared (ground (arith, off)))
          ∙ here g.start
          ∙ logged_from-other count g.start g.block m.disk g.start
              (λ i h. header_apart g i homes (omega (arith, h, below))))
    | inr on ↦ inl ((finish-on (λ e. ground (arith, on, e))).1)
  ]

  pub finish-contents : contents g.start after.disk x ≡ installed
  finish-contents = elim (Bool-cases (mid.power == 0)) [
    | inl off ↦ finish-off (ground (arith, off))
    | inr on ↦
        let (here, cleared) = finish-on (λ e. ground (arith, on, e)) in
        contents-cleared g.start after.disk x cleared ∙ here
  ]
