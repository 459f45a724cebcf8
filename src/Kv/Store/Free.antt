-- ===== src/Kv/Store/Free.antt =====
-- `free_kv_store` gives back what `init_kv_store` and `put` took.
use cs537_group_projects.Base.{
  ℕ, zero, suc, ◌+◌, ◌%◌, ◌<◌, ◌≤◌, ◌≡◌, refl, List, [], ◌∷◌, true, arith, length, get_or, set,
  replicate, Option-cases, inl, inr,
}
use cs537_group_projects.Kv.Store.{
  Node, KvStore, Run, ok, ◌>>=◌, init_kv_store, put, free_linked_list, free_chains, free_kv_store,
  replace,
}
use cs537_group_projects.Kv.Store.Chain.{length-replace}
use cs537_group_projects.Kv.Store.Laws.{
  IsValid, init_kv_store-IsValid, put_chain, put_result, put-eq, put_result-IsValid, chain_of,
}

-- Puts, one after another.
unfoldable pub put_all : KvStore → List (ℕ × ℕ) → Run KvStore
put_all s [] = ok s
put_all s ((k, v) ∷ kvs) = do t ← put true s k v; put_all t kvs

-- Every block that is out is reached from the table.
abbrev IsAccounted : KvStore → Type 0
IsAccounted s = free_chains s.v_head + 1 + 1 ≡ s.blocks

free_linked_list-length : (ns : List Node) → free_linked_list ns ≡ length ns
unfolding free_linked_list
free_linked_list-length [] = refl
free_linked_list-length (n ∷ ns) = omega (arith, free_linked_list-length ns)

free_chains-replicate : (n : ℕ) → free_chains (replicate n []) ≡ n
unfolding free_chains
free_chains-replicate zero = refl
free_chains-replicate (suc n) = omega (arith, free_chains-replicate n)

free_chains-set :
    (cs : List (List Node)) (i : ℕ) (c : List Node)
    → i < length cs
    → free_chains (set cs i c) + length (get_or cs i []) ≡ free_chains cs + length c
unfolding free_chains
free_chains-set [] i c h = absurd (omega arith)
free_chains-set (d ∷ cs) zero c h =
    omega (arith, free_linked_list-length c, free_linked_list-length d)
free_chains-set (d ∷ cs) (suc i) c h = omega (arith, free_chains-set cs i c (omega arith))

length-put_chain : (k v : ℕ) (ns : List Node) → length ns ≤ length (put_chain k v ns)
length-put_chain k v ns = elim (Option-cases (replace k v ns)) [
  | inl r ↦ ground arith
  | inr (ms, r) ↦ ground (arith, length-replace k v ns ms r)
]

put_result-IsAccounted :
    (s : KvStore) (k v : ℕ)
    → IsValid s
    → 0 < s.size
    → IsAccounted s
    → IsAccounted (put_result s k v)
put_result-IsAccounted s k v valid pos a =
    let c = put_chain k v (chain_of s k) in
    omega (
      arith,
      free_chains-set s.v_head (k % s.size) c (omega (arith, valid.heads)),
      length-put_chain k v (chain_of s k),
    )

put_all-IsAccounted :
    (s : KvStore) (kvs : List (ℕ × ℕ))
    → IsValid s
    → 0 < s.size
    → IsAccounted s
    → (t : KvStore) × (put_all s kvs ≡ ok t) × IsAccounted t
unfolding put_all
put_all-IsAccounted s [] valid pos a = (s, refl, a)
put_all-IsAccounted s ((k, v) ∷ kvs) valid pos a = rw (put-eq s k v valid pos) (
    put_all-IsAccounted (put_result s k v) kvs (put_result-IsValid s k v valid pos) pos
      (put_result-IsAccounted s k v valid pos a))

-- Whatever is put into a fresh table, the puts return, and freeing the table gives `free` exactly
-- as many blocks as `malloc` gave: nothing leaks and nothing is freed twice.
pub free-put_all :
    (n : ℕ) (kvs : List (ℕ × ℕ))
    → 0 < n
    → (t : KvStore) × (put_all (init_kv_store n) kvs ≡ ok t)
      × ((free_kv_store t).1 ≡ t.blocks)
      × ((free_kv_store t).0.blocks ≡ 0)
unfolding free_kv_store init_kv_store
free-put_all n kvs pos =
    let (t, run, a) =
      put_all-IsAccounted (init_kv_store n) kvs (init_kv_store-IsValid n) pos
        (omega (arith, free_chains-replicate n)) in
    (t, run, a, omega arith)
