-- ===== src/Kv/Client.antt =====
-- p6/client.c: a thread of the client (`submit_reqs`, `process_completions`, `thread_function`), a
-- round of a loop at a time, and the server's writes to the thread's status board in between.
-- `ring_submit` is the ring's (Kv/Ring): here a descriptor that was submitted is the next of `sent`.
-- Counts are not negative, and a board's slot is named by its place in the board.
pub mod Slots
pub mod Window
pub mod Moves
pub mod Results
pub mod Progress
pub mod Parts
pub mod Input
pub mod PastEnd
use cs537_group_projects.Base.{
  update, ℕ, zero, suc, ◌+◌, ◌-◌, ◌*◌, ◌/◌, ◌%◌, ◌<◌, ◌≤◌, ◌≡◌, Option, none, some, Bool, ◌==◌, ltb,
  leb, if◌then◌else◌,
}
use cs537_group_projects.Kv.Ring.{Desc, zero_desc}

-- `struct request`
pub record Request : Type 0 where
  pub k : ℕ
  pub v : ℕ
  pub t : ℕ

-- `sizeof(struct buffer_descriptor)`
abbrev pub desc_bytes : ℕ
desc_bytes = 20

-- `struct thread_context`, with the two counts of `thread_function`. `win_size` is also the global.
pub record Context : Type 0 where
  pub num_reqs : ℕ
  pub reqs : ℕ → Request
  pub res : ℕ → Desc
  pub comps : ℕ → Desc
  pub win_size : ℕ
  pub nxt_comp : ℕ
  pub comp_off : ℕ
  pub last_completed : ℕ
  pub last_submitted : ℕ
  pub sent : ℕ → Desc

-- The byte offset of the slot for the request with number `j`.
unfoldable pub res_offset : Context → ℕ → ℕ
res_offset c j = c.comp_off + j % c.win_size * desc_bytes

-- The body of the loop of `submit_reqs`.
unfoldable pub submit_one : ℕ → Context → Context
submit_one i c =
    let bd : Desc = record zero_desc {
      k = (c.reqs i).k;
      v = (c.reqs i).v;
      req_type = (c.reqs i).t;
      res_off = res_offset c c.last_submitted;
    } in
    record c { sent = update c.sent c.last_submitted bd; last_submitted = c.last_submitted + 1 }

-- The branch of `process_completions` for a completion.
unfoldable pub complete_one : Context → Context
complete_one c =
    let cleared = record (c.comps c.nxt_comp) { ready = 0 } in
    record c {
      comps = update c.comps c.nxt_comp cleared;
      res = update c.res c.last_completed cleared;
      last_completed = c.last_completed + 1;
      nxt_comp = (c.nxt_comp + 1) % c.win_size;
    }

-- Where the thread stands: at the head of the loop of `submit_reqs` with its `i`, at the head of the
-- loop of `process_completions`, or at the end of `thread_function`.
pub data Place : Type 0 where
  submitting : ℕ → Place
  checking : Place
  finished : Place

-- The tests of the loops of `thread_function`, which also begin it.
unfoldable pub next_place : Context → Place
next_place c =
    if ltb c.last_submitted c.num_reqs
    then submitting c.last_submitted
    else (if ltb c.last_completed c.num_reqs then checking else finished)

unfoldable pub client_step : Context → Place → Context × Place
client_step c (submitting i) =
    if ltb c.last_submitted (c.last_completed + c.win_size)
    then (if leb c.num_reqs c.last_submitted
        then (c, checking)
        else (submit_one i c, submitting (i + 1)))
    else (c, checking)
client_step c checking =
    if (c.comps c.nxt_comp).ready == 1 then (complete_one c, checking) else (c, next_place c)
client_step c finished = (c, finished)

-- A descriptor written where the submitted one says, by the server.
unfoldable pub deliver : Context → Desc → Desc → Context
deliver c bd d = record c { comps = update c.comps ((bd.res_off - c.comp_off) / desc_bytes) d }

-- The thread, and the answers that the server has given to its requests so far.
pub record Client : Type 0 where
  pub ctx : Context
  pub place : Place
  pub answers : ℕ → Option Desc

-- A step of the thread, or of the server at a submitted request that it has not answered: it copies the
-- descriptor, which is not ready, or finishes the answer, which is.
pub data Step : Client → Client → Type 0 where
  runs :
      (c : Context) (p : Place) (answers : ℕ → Option Desc)
      → Step
          (record { ctx = c; place = p; answers = answers })
          (record { ctx = (client_step c p).0; place = (client_step c p).1; answers = answers })
  copies :
      (c : Context) (p : Place) (answers : ℕ → Option Desc) (j : ℕ) (d : Desc)
      → j < c.last_submitted
      → answers j ≡ none
      → d.ready ≡ 0
      → Step
          (record { ctx = c; place = p; answers = answers })
          (record { ctx = deliver c (c.sent j) d; place = p; answers = answers })
  replies :
      (c : Context) (p : Place) (answers : ℕ → Option Desc) (j : ℕ) (d : Desc)
      → j < c.last_submitted
      → answers j ≡ none
      → d.ready ≡ 1
      → Step
          (record { ctx = c; place = p; answers = answers })
          (record { ctx = deliver c (c.sent j) d; place = p; answers = update answers j (some d) })

-- The thread's context as `start_threads` makes it: `init_client` has cleared the board.
abbrev pub start_context : ℕ → (ℕ → Request) → ℕ → ℕ → (ℕ → Desc) → Context
start_context num_reqs reqs win_size comp_off res = record {
  num_reqs = num_reqs;
  reqs = reqs;
  res = res;
  comps = λ k. zero_desc;
  win_size = win_size;
  nxt_comp = 0;
  comp_off = comp_off;
  last_completed = 0;
  last_submitted = 0;
  sent = λ j. zero_desc;
}

unfoldable pub start_client : ℕ → (ℕ → Request) → ℕ → ℕ → (ℕ → Desc) → Client
start_client num_reqs reqs win_size comp_off res =
    let c = start_context num_reqs reqs win_size comp_off res in
    record { ctx = c; place = next_place c; answers = λ j. none }

pub data Reachable : Client → Type 0 where
  at_start :
      (n : ℕ) (reqs : ℕ → Request) (win off : ℕ) (res : ℕ → Desc)
      → 0 < win
      → Reachable (start_client n reqs win off res)
  after : {s t : Client} → Reachable s → Step s t → Reachable t
