-- ===== src/Kv/Client/Window.antt =====
-- What holds of a client thread of p6/client.c between two steps.
use cs537_group_projects.Base.{ℕ, ◌+◌, ◌*◌, ◌%◌, ◌<◌, ◌≤◌, ◌≡◌, ◌≢◌, Option, none, some}
use cs537_group_projects.Kv.Ring.{Desc}
use cs537_group_projects.Kv.Client.{Context, Request, Place, submitting, finished, desc_bytes}

-- A slot of the board against the answer to the request that it is for.
abbrev pub Shows : Option Desc → Desc → Type 0
Shows none slot = slot.ready ≢ 1
Shows (some d) slot = slot ≡ d

-- A submitted descriptor against its request: `reqs`, `off` and `win` are the thread's.
pub record Asks (reqs : ℕ → Request) (off win j : ℕ) (bd : Desc) : Type 0 where
  pub key : bd.k ≡ (reqs j).k
  pub value : bd.v ≡ (reqs j).v
  pub type : bd.req_type ≡ (reqs j).t
  pub place : bd.res_off ≡ off + j % win * desc_bytes

-- The requests before `last_completed` have their answers in `res`, in order and not ready; those from
-- there up to `last_submitted` are under way, at most a window of them, each with a slot of its own.
pub record Inv (c : Context) (p : Place) (answers : ℕ → Option Desc) : Type 0 where
  pub size : 0 < c.win_size
  pub order : c.last_completed ≤ c.last_submitted
  pub all : c.last_submitted ≤ c.num_reqs
  pub window : c.last_submitted ≤ c.last_completed + c.win_size
  pub next : c.nxt_comp ≡ c.last_completed % c.win_size
  pub index : (i : ℕ) → p ≡ submitting i → i ≡ c.last_submitted
  pub ended : p ≡ finished → c.last_completed ≡ c.num_reqs
  pub asks : (j : ℕ) → j < c.last_submitted → Asks c.reqs c.comp_off c.win_size j (c.sent j)
  pub answered : (j : ℕ) (d : Desc) → answers j ≡ some d → (j < c.last_submitted) × (d.ready ≡ 1)
  pub board :
      (j : ℕ)
      → c.last_completed ≤ j
      → j < c.last_completed + c.win_size
      → Shows (answers j) (c.comps (j % c.win_size))
  pub results :
      (j : ℕ)
      → j < c.last_completed
      → (d : Desc) × (answers j ≡ some d) × (c.res j ≡ record d { ready = 0 })
