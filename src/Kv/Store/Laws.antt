-- ===== src/Kv/Store/Laws.antt =====
-- `put` and `get` on a whole table: what they return on every branch, and what `put` preserves.
use cs537_group_projects.Base.{
  ℕ, zero, suc, ◌+◌, ◌-◌, ◌%◌, ◌<◌, ◌≡◌, refl, sym, List, [], ◌∷◌, none, some, Bool, true, false,
  ◌==◌, if◌then◌else◌, arith, length, length-set, get_or, set, length-replicate, get_or-replicate,
  get_or-replicate_lt, set-set, set-get_or, Option-cases, ap, ◌∙◌, inl, inr, Bool-cases, get_or-set,
  subst,
}
use cs537_group_projects.Kv.Store.{
  Node, KvStore, ok, null_write, blocked, hash_function, init_kv_store, replace, find, update_chain,
  put, get,
}
use cs537_group_projects.Kv.Store.Chain.{
  IsChain, replace-none, replace-IsChain, find-replace, length-replace,
}

-- A table between two calls: a chain and a free lock for each index, each key in its own chain.
pub record IsValid (s : KvStore) : Type 0 where
  pub heads : length s.v_head ≡ s.size
  pub locks : length s.v_locks ≡ s.size
  pub free : (i : ℕ) → i < s.size → get_or s.v_locks i true ≡ false
  pub chains : (i : ℕ) → IsChain s.size i (get_or s.v_head i [])

-- A table that `init_kv_store` has set up is well formed.
pub init_kv_store-IsValid : (n : ℕ) → IsValid (init_kv_store n)
unfolding init_kv_store
init_kv_store-IsValid n = record {
  heads = length-replicate n [];
  locks = length-replicate n false;
  free = λ i h. get_or-replicate_lt n i false true h;
  chains = λ i. rw (get_or-replicate {A = List Node} n i []) tt;
}

-- The bucket that `put` leaves behind for `k`.
abbrev pub put_chain : ℕ → ℕ → List Node → List Node
put_chain k v ns = elim (replace k v ns) [ some ms ↦ ms | none ↦ record { k = k; v = v } ∷ ns ]

put_chain-IsChain :
    (size i k v : ℕ) (ns : List Node)
    → k % size ≡ i
    → IsChain size i ns
    → IsChain size i (put_chain k v ns)
put_chain-IsChain size i k v ns h c = elim (Option-cases (replace k v ns)) [
  | inl r ↦ ground (arith, replace-none k v ns r)
  | inr (ms, r) ↦ ground (arith, replace-IsChain size i k v ns ms r)
]

find-put_chain :
    (k v j : ℕ) (ns : List Node) → find j (put_chain k v ns) ≡ (if k == j then v else find j ns)
unfolding find
find-put_chain k v j ns = elim (Option-cases (replace k v ns)) [
  | inl r ↦ ground arith
  | inr (ms, r) ↦ ground (arith, find-replace k v j ns ms r)
]

pub hash_function-pos : (k n : ℕ) → 0 < n → hash_function k n ≡ ok (k % n)
unfolding hash_function
hash_function-pos k zero h = absurd (omega arith)
hash_function-pos k (suc n) h = refl

-- The chain of `k`.
abbrev pub chain_of : KvStore → ℕ → List Node
chain_of s k = get_or s.v_head (k % s.size) []

-- The table that `put` is to leave: one chain, and one block if the chain grew.
abbrev pub put_result : KvStore → ℕ → ℕ → KvStore
put_result s k v = record s {
  v_head = set s.v_head (k % s.size) (put_chain k v (chain_of s k));
  blocks = s.blocks + (length (put_chain k v (chain_of s k)) - length (chain_of s k));
}

relock :
    (locks : List Bool) (i : ℕ)
    → i < length locks
    → get_or locks i true ≡ false
    → set (set locks i true) i false ≡ locks
relock locks i h e = set-set locks i true false ∙ ap (set locks i) (sym e) ∙ set-get_or locks i true

update_chain-eq :
    (s : KvStore) (k v : ℕ) → update_chain true s (k % s.size) k v ≡ ok (put_result s k v)
unfolding update_chain
update_chain-eq s k v = elim (Option-cases (replace k v (chain_of s k))) [
  | inl r ↦ ground arith
  | inr (ms, r) ↦ ground (arith, length-replace k v (chain_of s k) ms r)
]

pub put-eq :
    (s : KvStore) (k v : ℕ) → IsValid s → 0 < s.size → put true s k v ≡ ok (put_result s k v)
unfolding put
put-eq s k v valid pos =
    let i = k % s.size in
    let locked : KvStore = record s { v_locks = set s.v_locks i true } in
    rw (hash_function-pos k s.size pos, valid.free i (omega arith), update_chain-eq locked k v)
      (ap (λ locks. ok (record (put_result s k v) { v_locks = locks }))
        (relock s.v_locks i (omega (arith, valid.locks)) (valid.free i (omega arith))))

pub get-eq : (s : KvStore) (k : ℕ) → 0 < s.size → get s k ≡ ok (find k (chain_of s k))
unfolding get
get-eq s k pos = rw (hash_function-pos k s.size pos)

put_result-chains :
    (s : KvStore) (k v i : ℕ)
    → IsValid s
    → 0 < s.size
    → get_or (put_result s k v).v_head i []
      ≡ (if k % s.size == i then put_chain k v (chain_of s k) else get_or s.v_head i [])
put_result-chains s k v i valid pos =
    get_or-set s.v_head (k % s.size) i (put_chain k v (chain_of s k)) []
      (omega (arith, valid.heads))

-- `put` keeps the table well formed.
pub put_result-IsValid :
    (s : KvStore) (k v : ℕ) → IsValid s → 0 < s.size → IsValid (put_result s k v)
put_result-IsValid s k v valid pos = record {
  heads = length-set s.v_head (k % s.size) _ ∙ valid.heads;
  locks = valid.locks;
  free = valid.free;
  chains = λ i. rw (put_result-chains s k v i valid pos) (elim (Bool-cases (k % s.size == i)) [
    | inl same ↦ rw same (
        put_chain-IsChain s.size i k v (chain_of s k) (ground arith)
          (subst (λ x. IsChain s.size x (chain_of s k)) (ground arith) (valid.chains (k % s.size))))
    | inr other ↦ rw other (valid.chains i)
  ]);
}

-- What any key reads after a `put`.
pub get-put_result :
    (s : KvStore) (k v j : ℕ)
    → IsValid s
    → 0 < s.size
    → find j (chain_of (put_result s k v) j) ≡ (if k == j then v else find j (chain_of s j))
get-put_result s k v j valid pos =
    rw (put_result-chains s k v (j % s.size) valid pos)
      (ground (arith, find-put_chain k v j (chain_of s k)))

-- On a well formed table with an index and memory to spare, `put` returns, keeps the table well
-- formed, and sets the value of its own key and of no other.
pub get-put :
    (s : KvStore) (k v j : ℕ)
    → IsValid s
    → 0 < s.size
    → (t : KvStore) × (put true s k v ≡ ok t)
      × IsValid t
      × (t.size ≡ s.size)
      × (get t j ≡ (if k == j then ok v else get s j))
get-put s k v j valid pos = (
  put_result s k v,
  put-eq s k v valid pos,
  put_result-IsValid s k v valid pos,
  refl,
  ground (arith, get-eq (put_result s k v) j pos, get-eq s j pos, get-put_result s k v j valid pos),
)

-- With no memory for a node, `put` still replaces the value of a key that the table has, and
-- writes through `NULL` for any other key.
pub put_no_memory :
    (s : KvStore) (k v : ℕ)
    → IsValid s
    → 0 < s.size
    → put false s k v
      ≡ elim (replace k v (chain_of s k)) [ none ↦ null_write | some ms ↦ ok (put_result s k v) ]
unfolding put
put_no_memory s k v valid pos =
    let i = k % s.size in
    rw (hash_function-pos k s.size pos, valid.free i (omega arith))
      (elim (Option-cases (replace k v (chain_of s k))) [
        | inl r ↦ ground arith
        | inr (ms, r) ↦ ground (
          arith,
          length-replace k v (chain_of s k) ms r,
          relock s.v_locks i (omega (arith, valid.locks)) (valid.free i (omega arith)),
        )
      ])

-- While another thread holds the lock of the key's index, `put` waits.
pub put_blocked :
    (malloc : Bool) (s : KvStore) (k v : ℕ)
    → 0 < s.size
    → get_or s.v_locks (k % s.size) true ≡ true
    → put malloc s k v ≡ blocked
unfolding put
put_blocked malloc s k v pos held = rw (hash_function-pos k s.size pos, held)
