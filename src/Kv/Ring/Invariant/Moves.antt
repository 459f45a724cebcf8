-- ===== src/Kv/Ring/Invariant/Moves.antt =====
-- Every step keeps the invariant.
use cs537_group_projects.Base.{
  ℕ, suc, ◌+◌, ◌-◌, ◌%◌, ◌<◌, ◌≤◌, ◌≡◌, refl, [], ◌∷◌, ◌++◌, some, true, length, get_or, arith,
  length-set, set, ◌==◌, ap, sym, ◌∙◌, length-replicate, get_or-set_self, get_or-set_ne, Bool-cases,
  inl, inr,
}
use mathlib.Core.List.{append_assoc}
use cs537_group_projects.Kv.Ring.{Desc, ring_size, zero_desc}
use cs537_group_projects.Kv.Ring.Threads.{
  Pc, Shared, submit_bump, get_bump, Move, call_submit, submit_take, submit_enter, submit_store,
  submit_advance, submit_leave, submit_signal, call_get, get_take, get_enter, get_load, get_advance,
  get_leave, get_signal, System, Step, pick, Reach, here, next, start, update, next_index,
  with_ring,
}
use cs537_group_projects.Kv.Ring.Window.{window, window-set, window-snoc}
use cs537_group_projects.Kv.Ring.Invariant.Sum.{sum, sum-update, sum-ge, sum-zero}
use cs537_group_projects.Kv.Ring.Invariant.Defs.{
  Inv, slot_taken, item_unposted, item_taken, slot_unposted, submitting, getting, IsCopied,
}

module _ {n : ℕ} {m : Shared} {pc : ℕ → Pc} (inv : Inv n m pc) (i : ℕ) (lt : i < n) where
  open inv use {
    len, storage, tail, head, slots, items, content, copied, s_held, g_held, s_owner, g_owner,
  }

  -- Thread `i` goes from `p` to `q`: what it held, and how the sums change.
  record Mover (p q : Pc) : Type 0 where
    copy : IsCopied m p
    s_mine : submitting p ≡ true → m.s_mutex ≡ some i
    g_mine : getting p ≡ true → m.g_mutex ≡ some i
    s_own : m.s_mutex ≡ some i → submitting p ≡ true
    g_own : m.g_mutex ≡ some i → getting p ≡ true
    at_slot : sum slot_taken n (update pc i q) + slot_taken p ≡ sum slot_taken n pc + slot_taken q
    at_item : sum item_taken n (update pc i q) + item_taken p ≡ sum item_taken n pc + item_taken q
    out_slot :
        sum slot_unposted n (update pc i q) + slot_unposted p
        ≡ sum slot_unposted n pc + slot_unposted q
    out_item :
        sum item_unposted n (update pc i q) + item_unposted p
        ≡ sum item_unposted n pc + item_unposted q
    my_slot : slot_taken p ≤ sum slot_taken n pc
    my_item : item_taken p ≤ sum item_taken n pc

  mover : (q : Pc) → Mover (pc i) q
  mover q = record {
    copy = copied i;
    s_mine = s_held i;
    g_mine = g_held i;
    s_own = λ e. (s_owner i e).1;
    g_own = λ e. (g_owner i e).1;
    at_slot = sum-update slot_taken n pc i q lt;
    at_item = sum-update item_taken n pc i q lt;
    out_slot = sum-update slot_unposted n pc i q lt;
    out_item = sum-update item_unposted n pc i q lt;
    my_slot = sum-ge slot_taken n pc i lt;
    my_item = sum-ge item_taken n pc i lt;
  }

  abbrev new_len : {p q : Pc} {m' : Shared} → Move i m p m' q → ℕ
  new_len submit_advance = len + 1
  new_len get_advance = len - 1
  new_len _ = len

  Move-counts : {p q : Pc} {m' : Shared} (mv : Move i m p m' q) → Mover p q → record {
    storage : length m'.buffer ≡ ring_size;
    tail : m'.c_tail < ring_size;
    head : m'.p_head ≡ (m'.c_tail + new_len mv) % ring_size;
    slots :
        m'.sem_not_full
          + sum slot_taken n (update pc i q)
          + new_len mv
          + sum slot_unposted n (update pc i q)
        ≡ ring_size;
    items :
        m'.sem_not_empty + sum item_unposted n (update pc i q) + sum item_taken n (update pc i q)
        ≡ new_len mv;
  }
  Move-counts (call_submit bd) f = ground arith
  Move-counts (submit_take e) f = ground arith
  Move-counts (submit_enter e) f = ground arith
  Move-counts (submit_store {bd}) f = ground (arith, length-set m.buffer m.p_head bd)
  Move-counts submit_advance f = ground arith
  Move-counts submit_leave f = ground arith
  Move-counts submit_signal f = ground arith
  Move-counts call_get f = ground arith
  Move-counts (get_take e) f = ground arith
  Move-counts (get_enter e) f = ground arith
  Move-counts get_load f = ground arith
  Move-counts get_advance f = ground arith
  Move-counts get_leave f = ground arith
  Move-counts get_signal f = ground arith

  -- While a thread holds a slot, the ring is not full; while it holds an item, not empty.
  room : {p q : Pc} → Mover p q → slot_taken p ≡ 1 → len < ring_size
  room f h = omega arith

  some_item : {p q : Pc} → Mover p q → item_taken p ≡ 1 → 0 < len
  some_item f h = omega arith

  -- The window of a ring with one more item, and of one with an item less.
  window_longer :
      {bd : Desc}
      → get_or m.buffer m.p_head zero_desc ≡ bd
      → window m.buffer m.c_tail (len + 1) ≡ window m.buffer m.c_tail len ++ (bd ∷ [])
  window_longer e =
      ap (window m.buffer m.c_tail) {y = suc len} (omega arith)
      ∙ window-snoc m.buffer m.c_tail len tail
      ∙ rw (← head, e)

  window_shorter :
      {bd : Desc}
      → 0 < len
      → get_or m.buffer m.c_tail zero_desc ≡ bd
      → window m.buffer m.c_tail len ≡ bd ∷ window m.buffer (next_index m.c_tail) (len - 1)
  window_shorter h e =
      ap (window m.buffer m.c_tail) (let l : len ≡ suc (len - 1) = omega arith in l) ∙ rw e

  Move-content :
      {p q : Pc} {m' : Shared} (mv : Move i m p m' q)
      → Mover p q
      → m'.sent ≡ m'.got ++ window m'.buffer m'.c_tail (new_len mv)
  Move-content (submit_store {bd}) f =
      rw (window-set m.buffer bd m.c_tail len m.p_head (room f refl) tail head) content
  Move-content (submit_advance {bd}) f =
      rw (content, append_assoc) (ap (◌++◌ m.got) (sym (window_longer f.copy)))
  Move-content (get_advance {bd}) f =
      content ∙ rw append_assoc (ap (◌++◌ m.got) (window_shorter (some_item f refl) f.copy))
  Move-content (call_submit bd) f = content
  Move-content mv f = content

  -- A thread with a copy still has it right when another thread fills the slot at `p_head`.
  store-IsCopied :
      (bd : Desc) (q : Pc)
      → len < ring_size
      → ¬ (submitting q ≡ true)
      → (item_taken q ≡ 1 → getting q ≡ true → 0 < len)
      → IsCopied m q
      → IsCopied (with_ring m (record m.ring { buffer = set m.buffer m.p_head bd })) q
  store-IsCopied bd (submit_bump b) space out item c = absurd (out refl)
  store-IsCopied bd (get_bump b) space out item c =
      let filled = item refl refl in
      rw (get_or-set_ne m.buffer m.p_head m.c_tail bd zero_desc (omega arith)) c
  store-IsCopied bd q space out item c = tt

  holds_item : (j : ℕ) → item_taken (pc j) ≡ 1 → getting (pc j) ≡ true → 0 < len
  holds_item j h g = omega (arith, sum-ge item_taken n pc j (g_owner j (g_held j g)).0)

  Move-IsCopied :
      {p q : Pc} {m' : Shared}
      → Move i m p m' q
      → Mover p q
      → (j : ℕ) → IsCopied m' (update pc i q j)
  Move-IsCopied (call_submit bd) f j = ground (arith, copied j)
  Move-IsCopied (submit_store {bd}) f j = elim (Bool-cases (i == j)) [
    | inl same ↦
        rw same (get_or-set_self m.buffer m.p_head bd zero_desc (omega (arith, room f refl)))
    | inr other ↦ rw other (
        store-IsCopied bd (pc j) (room f refl) (λ h. ground (arith, s_held j h)) (holds_item j)
          (copied j))
  ]
  Move-IsCopied submit_advance f j = ground (arith, copied j, s_held j)
  Move-IsCopied get_load f j = ground (arith, copied j)
  Move-IsCopied get_advance f j = ground (arith, copied j, g_held j)
  Move-IsCopied mv f j = ground (arith, copied j)

  Move-s_held :
      {p q : Pc} {m' : Shared}
      → Move i m p m' q
      → Mover p q
      → (j : ℕ) → submitting (update pc i q j) ≡ true
      → m'.s_mutex ≡ some j
  Move-s_held (call_submit bd) f j h = ground (arith, s_held j)
  Move-s_held (submit_enter e) f j h = ground (arith, s_held j)
  Move-s_held submit_leave f j h = ground (arith, s_held j)
  Move-s_held mv f j h = ground (arith, s_held j)

  Move-g_held :
      {p q : Pc} {m' : Shared}
      → Move i m p m' q
      → Mover p q
      → (j : ℕ) → getting (update pc i q j) ≡ true
      → m'.g_mutex ≡ some j
  Move-g_held (call_submit bd) f j h = ground (arith, g_held j)
  Move-g_held (get_enter e) f j h = ground (arith, g_held j)
  Move-g_held mv f j h = ground (arith, g_held j)

  Move-s_owner :
      {p q : Pc} {m' : Shared}
      → Move i m p m' q
      → Mover p q
      → (j : ℕ) → m'.s_mutex ≡ some j
      → (j < n) × (submitting (update pc i q j) ≡ true)
  Move-s_owner (call_submit bd) f j h = ground (arith, s_owner j)
  Move-s_owner mv f j h = ground (arith, s_owner j)

  Move-g_owner :
      {p q : Pc} {m' : Shared}
      → Move i m p m' q
      → Mover p q
      → (j : ℕ) → m'.g_mutex ≡ some j
      → (j < n) × (getting (update pc i q j) ≡ true)
  Move-g_owner (call_submit bd) f j h = ground (arith, g_owner j)
  Move-g_owner mv f j h = ground (arith, g_owner j)

  Move-Inv : {q : Pc} {m' : Shared} → Move i m (pc i) m' q → Inv n m' (update pc i q)
  Move-Inv {q} mv = record {
    len = new_len mv;
    storage = storage';
    tail = tail';
    head = head';
    slots = slots';
    items = items';
    content = Move-content mv (mover q);
    copied = Move-IsCopied mv (mover q);
    s_held = Move-s_held mv (mover q);
    g_held = Move-g_held mv (mover q);
    s_owner = Move-s_owner mv (mover q);
    g_owner = Move-g_owner mv (mover q);
  }
    where
      open (Move-counts mv (mover q)) use {
        storage as storage', tail as tail', head as head', slots as slots', items as items',
      }

pub start-Inv : (n : ℕ) → Inv n start.mem start.pc
start-Inv n = record {
  len = 0;
  storage = length-replicate ring_size zero_desc;
  tail = omega arith;
  head = omega arith;
  slots = omega (
    arith,
    sum-zero slot_taken n start.pc (λ i h. refl),
    sum-zero slot_unposted n start.pc (λ i h. refl),
  );
  items = omega (
    arith,
    sum-zero item_unposted n start.pc (λ i h. refl),
    sum-zero item_taken n start.pc (λ i h. refl),
  );
  content = refl;
  copied = λ j. tt;
  s_held = λ j h. cc;
  g_held = λ j h. cc;
  s_owner = λ j h. cc;
  g_owner = λ j h. cc;
}

pub Step-Inv : {n : ℕ} {s t : System} → Step n s t → Inv n s.mem s.pc → Inv n t.mem t.pc
Step-Inv (pick i lt mv) inv = Move-Inv inv i lt mv

pub Reach-Inv : {n : ℕ} {s : System} → Reach n s → Inv n s.mem s.pc
Reach-Inv {n} here = start-Inv n
Reach-Inv (next r st) = Step-Inv st (Reach-Inv r)
