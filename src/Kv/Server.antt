-- ===== src/Kv/Server.antt =====
-- p6/kv_store.c, `thread_function`: what the server does with each descriptor that it takes from
-- the ring. A descriptor's `res_off` names the place where the client looks for its completion;
-- the places of the shared memory are a function of that offset.
pub mod Refine
use cs537_group_projects.Base.{ℕ, suc, List, [], ◌∷◌, Bool, true, false, ◌==◌, if◌then◌else◌}
use cs537_group_projects.Kv.Store.{KvStore, Run, ok, ◌>>=◌, put, get}
use cs537_group_projects.Kv.Ring.{Desc, put_type, get_type}

pub record Server : Type 0 where
  pub store : KvStore
  pub results : ℕ → Desc

abbrev pub write_result : Server → ℕ → Desc → Server
write_result s off bd = record s { results = λ i. if off == i then bd else s.results i }

-- `result->ready = 1`
abbrev pub set_ready : Server → ℕ → Server
set_ready s off = write_result s off (record (s.results off) { ready = 1 })

unfoldable pub serve_put : Bool → Server → Desc → Run (Server × Bool)
serve_put malloc s bd = do
  store ← put malloc s.store bd.k bd.v
  ok (set_ready (record s { store = store }) bd.res_off, true)

unfoldable pub serve_get : Server → Desc → Run (Server × Bool)
serve_get s bd = do
  v ← get s.store bd.k
  ok (
    set_ready (write_result s bd.res_off (record (s.results bd.res_off) { v = v })) bd.res_off,
    true,
  )

-- One round of the loop, from the descriptor that `ring_get` gave. `true`: the thread goes on;
-- `false`: it returns -1, and `ready` stays as it came with the descriptor.
unfoldable pub serve : Bool → Server → Desc → Run (Server × Bool)
unfolding serve_put serve_get
serve malloc s bd =
    let copied = write_result s bd.res_off bd in
    if bd.req_type == put_type
    then serve_put malloc copied bd
    else (if bd.req_type == get_type then serve_get copied bd else ok (copied, false))

abbrev pub keep_answer : Desc → Server × List Desc → Server × List Desc
keep_answer bd (t, answers) = (t, bd ∷ answers)

-- Descriptors in the order in which one thread gets them from the ring, with what stands in the place
-- of each when it has been served. The loop stops at a request of no known type. `malloc i` is
-- whether `malloc` gives memory in round `i`, for which the code does not test.
unfoldable pub serve_all : (ℕ → Bool) → Server → List Desc → Run (Server × List Desc)
serve_all malloc s [] = ok (s, [])
serve_all malloc s (bd ∷ bds) = do
  (t, more) ← serve (malloc 0) s bd
  elim more [
    | true ↦
        serve_all (λ i. malloc (suc i)) t bds >>= λ r. ok (keep_answer (t.results bd.res_off) r)
    | false ↦ ok (t, t.results bd.res_off ∷ [])
  ]
