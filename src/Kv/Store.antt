-- ===== src/Kv/Store.antt =====
-- p6/kv_store.c: the hash table with chaining (`init_kv_store` to `get`), and the hash function of
-- p6/common.h. `malloc` and the mutexes are not code of the repository: whether `malloc` gives a
-- node is an argument of `put`, a mutex is a flag, and locking a held one is the outcome `blocked`.
-- Keys and values are uint32_t and are only compared and moved. A table size is a C `int` that is
-- not negative.
pub mod Chain
pub mod Laws
pub mod Free
use cs537_group_projects.Base.{
  ℕ, zero, suc, ◌+◌, ◌-◌, ◌%◌, List, [], ◌∷◌, Option, none, some, Bool, true, false, ◌==◌,
  if◌then◌else◌, replicate, get_or, set,
}

-- `struct keyvalue_node`: the list that holds it stands for its `next`.
pub record Node : Type 0 where
  pub k : ℕ
  pub v : ℕ

-- `struct kv_store`, with the number of blocks that `malloc` gave and `free` has not taken back.
pub record KvStore : Type 0 where
  pub size : ℕ
  pub v_head : List (List Node)
  pub v_locks : List Bool
  pub blocks : ℕ

-- What a call comes to. It faults by `%` with zero, or by a write through a `NULL` from `malloc`.
pub data Run {ℓ} (A : Type ℓ) : Type ℓ where
  ok : A → Run A
  divide_error null_write blocked : Run A

infixl 5 ◌>>=◌
abbrev pub ◌>>=◌ {ℓ κ} : {A : Type ℓ} {B : Type κ} → Run A → (A → Run B) → Run B
ok a >>= f = f a
divide_error >>= f = divide_error
null_write >>= f = null_write
blocked >>= f = blocked

unfoldable pub hash_function : ℕ → ℕ → Run ℕ
hash_function k zero = divide_error
hash_function k (suc n) = ok (k % suc n)

-- Two arrays, and a lock for each index.
unfoldable pub init_kv_store : ℕ → KvStore
init_kv_store n = record {
  size = n;
  v_head = replicate n [];
  v_locks = replicate n false;
  blocks = 2 + n;
}

-- The loop of `put`: the chain with the value replaced, or `none` where no node has the key.
unfoldable pub replace : ℕ → ℕ → List Node → Option (List Node)
replace k v [] = none
replace k v (n ∷ ns) =
    if n.k == k
    then some (record n { v = v } ∷ ns)
    else elim (replace k v ns) [ none ↦ none | some ms ↦ some (n ∷ ms) ]

-- The loop of `get`, with `output` 0 before it.
unfoldable pub find : ℕ → List Node → ℕ
find k [] = 0
find k (n ∷ ns) = if n.k == k then n.v else find k ns

unfoldable pub lock : KvStore → ℕ → Run KvStore
lock s i =
    if get_or s.v_locks i true then blocked else ok (record s { v_locks = set s.v_locks i true })

unfoldable pub unlock : KvStore → ℕ → KvStore
unlock s i = record s { v_locks = set s.v_locks i false }

-- A new node at the head of the chain.
unfoldable pub push_node : Bool → KvStore → ℕ → Node → Run KvStore
push_node false s i n = null_write
push_node true s i n =
    ok (record s { v_head = set s.v_head i (n ∷ get_or s.v_head i []); blocks = s.blocks + 1 })

-- The critical section of `put`.
unfoldable pub update_chain : Bool → KvStore → ℕ → ℕ → ℕ → Run KvStore
unfolding replace push_node
update_chain malloc s i k v = elim (replace k v (get_or s.v_head i [])) [
  | some ns ↦ ok (record s { v_head = set s.v_head i ns })
  | none ↦ push_node malloc s i (record { k = k; v = v })
]

unfoldable pub put : Bool → KvStore → ℕ → ℕ → Run KvStore
unfolding hash_function lock update_chain unlock
put malloc s k v = do
  index ← hash_function k s.size
  locked ← lock s index
  updated ← update_chain malloc locked index k v
  ok (unlock updated index)

-- `get` takes no lock.
unfoldable pub get : KvStore → ℕ → Run ℕ
unfolding hash_function find
get s k = do index ← hash_function k s.size; ok (find k (get_or s.v_head index []))

-- `free_linked_list`: a call of `free` for each node. It returns their number.
unfoldable pub free_linked_list : List Node → ℕ
free_linked_list [] = 0
free_linked_list (n ∷ ns) = 1 + free_linked_list ns

-- The loop of `free_kv_store`: a chain and its lock a round.
unfoldable pub free_chains : List (List Node) → ℕ
unfolding free_linked_list
free_chains [] = 0
free_chains (c ∷ cs) = free_linked_list c + 1 + free_chains cs

-- The table without its blocks, and how many blocks were given to `free`. The two arrays go last.
unfoldable pub free_kv_store : KvStore → KvStore × ℕ
unfolding free_chains
free_kv_store s =
    let freed = free_chains s.v_head + 1 + 1 in
    (record s { v_head = []; v_locks = []; blocks = s.blocks - freed }, freed)
