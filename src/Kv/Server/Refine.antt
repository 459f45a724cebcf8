-- ===== src/Kv/Server/Refine.antt =====
-- The server against a dictionary in which every key starts at 0.
use cs537_group_projects.Base.{
  ℕ, suc, ◌<◌, ◌%◌, ◌≡◌, ◌≢◌, ◌||◌, refl, List, [], ◌∷◌, Bool, true, ◌==◌, if◌then◌else◌, arith,
  Bool-cases, inl, inr, get_or-replicate,
}
use cs537_group_projects.Kv.Store.{Node, KvStore, ok, init_kv_store, find}
use cs537_group_projects.Kv.Store.Laws.{
  IsValid, init_kv_store-IsValid, put_result, put-eq, get-eq, put_result-IsValid, get-put_result,
  chain_of,
}
use cs537_group_projects.Kv.Ring.{Desc, put_type, get_type}
use cs537_group_projects.Kv.Server.{Server, write_result, set_ready, serve, serve_all}

abbrev pub Dict : Type 0
Dict = ℕ → ℕ

-- The answer to a request, and the dictionary after it.
unfoldable pub answer : Dict → Desc → Desc
answer d bd =
    if bd.req_type == put_type
    then record bd { ready = 1 }
    else (if bd.req_type == get_type then record bd { v = d bd.k; ready = 1 } else bd)

unfoldable pub dict_after : Dict → Desc → Dict
dict_after d bd j = if bd.req_type == put_type then (if bd.k == j then bd.v else d j) else d j

abbrev pub is_known : Desc → Bool
is_known bd = bd.req_type == put_type || bd.req_type == get_type

unfoldable pub answer_all : Dict → List Desc → List Desc
unfolding answer dict_after
answer_all d [] = []
answer_all d (bd ∷ bds) =
    answer d bd ∷ (if is_known bd then answer_all (dict_after d bd) bds else [])

-- The table holds the dictionary.
abbrev pub Holds : KvStore → Dict → Type 0
Holds s d = (k : ℕ) → find k (chain_of s k) ≡ d k

-- What a round of the server's loop comes to, on a table that holds `d`.
pub record Served (s : Server) (d : Dict) (bd : Desc) : Type 0 where
  pub after : Server
  pub returns : serve true s bd ≡ ok (after, is_known bd)
  pub valid : IsValid after.store
  pub size : after.store.size ≡ s.store.size
  pub holds : Holds after.store (dict_after d bd)
  pub place : after.results bd.res_off ≡ answer d bd
  pub others : (i : ℕ) → i ≢ bd.res_off → after.results i ≡ s.results i

module _ (s : Server) (d : Dict) (bd : Desc) (valid : IsValid s.store) (pos : 0 < s.store.size)
    (holds : Holds s.store d) where
  put-Served : bd.req_type ≡ put_type → Served s d bd
  unfolding serve answer dict_after
  put-Served e = record {
    after =
        set_ready (record (write_result s bd.res_off bd) { store = put_result s.store bd.k bd.v })
          bd.res_off;
    returns = rw (e, put-eq s.store bd.k bd.v valid pos);
    valid = put_result-IsValid s.store bd.k bd.v valid pos;
    size = refl;
    holds = λ j. ground (arith, get-put_result s.store bd.k bd.v j valid pos, holds j);
    place = ground arith;
    others = λ i ne. ground arith;
  }

  get-Served : bd.req_type ≡ get_type → Served s d bd
  unfolding serve answer dict_after
  get-Served e = record {
    after =
        let copied = write_result s bd.res_off bd in
        set_ready
          (write_result copied bd.res_off (record (copied.results bd.res_off) { v = d bd.k }))
          bd.res_off;
    returns = rw (e, get-eq s.store bd.k pos, holds bd.k);
    valid = valid;
    size = refl;
    holds = λ j. ground (arith, holds j);
    place = ground arith;
    others = λ i ne. ground arith;
  }

  unknown-Served : bd.req_type ≢ put_type → bd.req_type ≢ get_type → Served s d bd
  unfolding serve answer dict_after
  unknown-Served e f = record {
    after = write_result s bd.res_off bd;
    returns = ground arith;
    valid = valid;
    size = refl;
    holds = λ j. ground (arith, holds j);
    place = ground arith;
    others = λ i ne. ground arith;
  }

  serve-Served : Served s d bd
  serve-Served = elim (Bool-cases (bd.req_type == put_type)) [
    | inl p ↦ put-Served (ground arith)
    | inr q ↦ elim (Bool-cases (bd.req_type == get_type)) [
      | inl g ↦ get-Served (ground arith)
      | inr u ↦ unknown-Served (ground arith) (ground arith)
    ]
  ]

-- On a table that holds the dictionary, with memory from `malloc` throughout, a server of one thread
-- answers every request as the dictionary does, in order, up to the first request of no known type.
serve_all-answer_all :
    (bds : List Desc) (malloc : ℕ → Bool) (s : Server) (d : Dict)
    → ((i : ℕ) → malloc i ≡ true)
    → IsValid s.store
    → 0 < s.store.size
    → Holds s.store d
    → (t : Server) × (serve_all malloc s bds ≡ ok (t, answer_all d bds)) × IsValid t.store
unfolding serve_all answer_all
serve_all-answer_all [] malloc s d memory valid pos holds = (s, refl, valid)
serve_all-answer_all (bd ∷ bds) malloc s d memory valid pos holds =
    let r = serve-Served s d bd valid pos holds in
    elim (Bool-cases (is_known bd)) [
      | inl known ↦
          let (t, e, v) =
            serve_all-answer_all bds (λ i. malloc (suc i)) r.after (dict_after d bd)
              (λ i. memory (suc i)) r.valid (rw r.size pos) r.holds in
          (t, rw (memory 0, r.returns, known, e, r.place), v)
      | inr unknown ↦ (r.after, rw (memory 0, r.returns, unknown, r.place), r.valid)
    ]

-- A fresh server of one thread, with a table of one chain at least and with memory from `malloc`
-- throughout, answers any requests as a dictionary of zeros does, in order, up to the first request
-- of no known type, without a fault and without a wait for a mutex that is held.
pub serve_all_fresh :
    (n : ℕ) (malloc : ℕ → Bool) (results : ℕ → Desc) (bds : List Desc)
    → 0 < n
    → ((i : ℕ) → malloc i ≡ true)
    → (t : Server) × (serve_all malloc (record { store = init_kv_store n; results = results }) bds
        ≡ ok (t, answer_all (λ _. 0) bds))
      × IsValid t.store
unfolding init_kv_store find
serve_all_fresh n malloc results bds pos memory =
    serve_all-answer_all bds malloc (record { store = init_kv_store n; results = results }) (λ _. 0)
      memory (init_kv_store-IsValid n) pos (λ k. rw (get_or-replicate {A = List Node} n (k % n) []))
