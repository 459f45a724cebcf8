-- ===== src/Kv/Tests.antt =====
-- Runs of the key-value server, and the theorems about it at concrete inputs.
use cs537_group_projects.Base.{
  ◌⊎◌, ◌+◌, ℕ, zero, suc, ◌<◌, ◌≤◌, ◌≡◌, refl, List, [], ◌∷◌, ◌++◌, true, false, some, arith,
  length, ◌==◌, if◌then◌else◌, get_or, replicate, set,
}
use cs537_group_projects.Kv.Store.{KvStore, ok, init_kv_store, put, get}
use cs537_group_projects.Kv.Store.Chain.{IsChain}
use cs537_group_projects.Kv.Store.Laws.{IsValid, get-put}
use cs537_group_projects.Kv.Ring.{Desc, ring_size, zero_desc}
use cs537_group_projects.Kv.Ring.Threads.{
  System, pick, Reach, here, next, start, update, call_submit, submit_take, submit_enter,
  submit_store, submit_advance, submit_leave, submit_signal, call_get, idle, submit_wait,
  submit_lock, submit_write, submit_bump, submit_unlock, submit_post, get_wait,
}
use cs537_group_projects.Kv.Ring.Fifo.{
  got_prefix_sent, no_deadlock, IsResting, CanStep, WaitsToGet, WaitsToSubmit,
}
use cs537_group_projects.Kv.Server.{Server, serve_all}
use cs537_group_projects.Kv.Server.Refine.{serve_all_fresh, answer_all}

-- Two indices; 5 and 7 share one.
abbrev small : KvStore
small = record {
  size = 2;
  v_head = [] ∷ (record { k = 7; v = 70 } ∷ record { k = 5; v = 50 } ∷ []) ∷ [];
  v_locks = false ∷ false ∷ [];
  blocks = 6;
}

put_replaces :
    put true small 5 51
    ≡ ok (record small {
      v_head = [] ∷ (record { k = 7; v = 70 } ∷ record { k = 5; v = 51 } ∷ []) ∷ [];
    })
unfolding put
put_replaces = refl

small-IsValid : IsValid small
small-IsValid = record { heads = refl; locks = refl; free = λ i h. free i h; chains = chains }
  where
    free : (i : ℕ) → i < 2 → get_or (false ∷ false ∷ []) i true ≡ false
    free zero h = refl
    free (suc zero) h = refl
    free (suc (suc i)) h = absurd (omega arith)

    chains : (i : ℕ) → IsChain 2 i (get_or small.v_head i [])
    chains zero = tt
    chains (suc zero) = omega arith
    chains (suc (suc i)) = tt

get-put_example :
    (t : KvStore) × (put true small 5 51 ≡ ok t)
    × IsValid t
    × (t.size ≡ 2)
    × (get t 7 ≡ (if 5 == 7 then ok 51 else get small 7))
get-put_example = get-put small 5 51 7 small-IsValid (omega arith)

-- `put 4 5`, `get 3`, `put 3 6`, `get 4`: the workload of p6/README.md.
abbrev workload : List Desc
workload =
    record { req_type = 0; k = 4; v = 5; res_off = 10; ready = 0 }
    ∷ record { req_type = 1; k = 3; v = 0; res_off = 20; ready = 0 }
    ∷ record { req_type = 0; k = 3; v = 6; res_off = 10; ready = 0 }
    ∷ record { req_type = 1; k = 4; v = 0; res_off = 20; ready = 0 }
    ∷ []

workload_answers :
    answer_all (λ _. 0) workload
    ≡ record { req_type = 0; k = 4; v = 5; res_off = 10; ready = 1 }
      ∷ record { req_type = 1; k = 3; v = 0; res_off = 20; ready = 1 }
      ∷ record { req_type = 0; k = 3; v = 6; res_off = 10; ready = 1 }
      ∷ record { req_type = 1; k = 4; v = 5; res_off = 20; ready = 1 }
      ∷ []
unfolding answer_all
workload_answers = refl

serve_all_fresh_example :
    (t : Server) × (serve_all
        (λ i. true)
        (record { store = init_kv_store 10; results = λ _. zero_desc })
        workload
      ≡ ok (t, answer_all (λ _. 0) workload))
    × IsValid t.store
serve_all_fresh_example =
    serve_all_fresh 10 (λ i. true) (λ _. zero_desc) workload (omega arith) (λ i. refl)

-- Thread 0 submits a descriptor and stands behind the lock; thread 1 waits to take one.
abbrev request : Desc
request = record { req_type = 0; k = 4; v = 5; res_off = 10; ready = 0 }

abbrev inside : System
inside = record {
  mem = record {
    ring = record start.mem.ring { sem_not_full = 1023; s_mutex = some 0 };
    sent = [];
    got = [];
  };
  pc =
      update
        (update (update (update start.pc 1 get_wait) 0 (submit_wait request)) 0
          (submit_lock request))
        0 (submit_write request);
}

inside-Reach : Reach 2 inside
inside-Reach =
    next
      (next
        (next (next here (pick 1 (omega arith) call_get))
          (pick 0 (omega arith) (call_submit request)))
        (pick 0 (omega arith) (submit_take refl)))
      (pick 0 (omega arith) (submit_enter refl))

got_prefix_sent_example :
    (rest : List Desc) × (inside.mem.sent ≡ inside.mem.got ++ rest) × (length rest ≤ ring_size)
got_prefix_sent_example = got_prefix_sent inside-Reach

-- The same, when thread 0 is back: the descriptor lies in slot 0.
abbrev posted : System
posted = record {
  mem = record {
    ring = record start.mem.ring {
      buffer = set (replicate ring_size zero_desc) 0 request;
      p_head = 1;
      sem_not_full = 1023;
      sem_not_empty = 1;
    };
    sent = request ∷ [];
    got = [];
  };
  pc =
      update
        (update (update (update inside.pc 0 (submit_bump request)) 0 submit_unlock) 0 submit_post) 0
        idle;
}

posted-Reach : Reach 2 posted
posted-Reach =
    next
      (next
        (next (next inside-Reach (pick 0 (omega arith) submit_store))
          (pick 0 (omega arith) submit_advance))
        (pick 0 (omega arith) submit_leave))
      (pick 0 (omega arith) submit_signal)

-- Thread 1 waits on `sem_not_empty`, which is 1.
no_deadlock_example :
    ((j : ℕ) × (j < 2) × CanStep j posted.mem (posted.pc j))
    ⊎ (((j : ℕ) → j < 2 → IsResting (posted.pc j))
        × ((WaitsToGet (posted.pc 1) × (length posted.mem.sent ≡ length posted.mem.got))
            ⊎ (WaitsToSubmit (posted.pc 1)
                × (length posted.mem.sent ≡ length posted.mem.got + ring_size))))
no_deadlock_example = no_deadlock 1 posted-Reach (omega arith) tt
