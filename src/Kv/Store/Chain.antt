-- ===== src/Kv/Store/Chain.antt =====
-- One chain of the hash table: what `put`'s loop and `get`'s loop make of it.
use cs537_group_projects.Base.{
  ℕ, ◌%◌, ◌≡◌, refl, ◌≢◌, List, [], ◌∷◌, none, some, ◌==◌, if◌then◌else◌, arith, length,
  Option-cases, inl, inr,
}
use cs537_group_projects.Kv.Store.{Node, replace, find}

-- No node of the chain has the key.
abbrev pub Absent : ℕ → List Node → Type 0
Absent k [] = Unit
Absent k (n ∷ ns) = (n.k ≢ k) × Absent k ns

-- Every key of the chain hashes to `i`, and no key stands twice.
abbrev pub IsChain : ℕ → ℕ → List Node → Type 0
IsChain size i [] = Unit
IsChain size i (n ∷ ns) = (n.k % size ≡ i) × Absent n.k ns × IsChain size i ns

pub replace-none : (k v : ℕ) (ns : List Node) → replace k v ns ≡ none → Absent k ns
unfolding replace
replace-none k v [] e = tt
replace-none k v (n ∷ ns) e = elim (Option-cases (replace k v ns)) [
  | inl r ↦ ground (arith, replace-none k v ns)
  | inr (ms, r) ↦ ground arith
]

replace-Absent :
    (j k v : ℕ) (ns ms : List Node) → replace k v ns ≡ some ms → Absent j ns → Absent j ms
unfolding replace
replace-Absent j k v [] ms e a = absurd (ground arith)
replace-Absent j k v (n ∷ ns) ms e a = elim (Option-cases (replace k v ns)) [
  | inl r ↦ ground arith
  | inr (os, r) ↦ ground (arith, replace-Absent j k v ns os r)
]

pub replace-IsChain :
    (size i k v : ℕ) (ns ms : List Node)
    → replace k v ns ≡ some ms
    → IsChain size i ns
    → IsChain size i ms
unfolding replace
replace-IsChain size i k v [] ms e c = absurd (ground arith)
replace-IsChain size i k v (n ∷ ns) ms e c = elim (Option-cases (replace k v ns)) [
  | inl r ↦ ground arith
  | inr (os, r) ↦ ground (arith, replace-Absent n.k k v ns os r, replace-IsChain size i k v ns os r)
]

pub find-replace :
    (k v j : ℕ) (ns ms : List Node)
    → replace k v ns ≡ some ms
    → find j ms ≡ (if k == j then v else find j ns)
unfolding replace find
find-replace k v j [] ms e = absurd (ground arith)
find-replace k v j (n ∷ ns) ms e = elim (Option-cases (replace k v ns)) [
  | inl r ↦ ground arith
  | inr (os, r) ↦ ground (arith, find-replace k v j ns os r)
]

pub length-replace :
    (k v : ℕ) (ns ms : List Node) → replace k v ns ≡ some ms → length ms ≡ length ns
unfolding replace
length-replace k v [] ms e = absurd (ground arith)
length-replace k v (n ∷ ns) ms e = elim (Option-cases (replace k v ns)) [
  | inl r ↦ ground arith
  | inr (os, r) ↦ ground (arith, length-replace k v ns os r)
]

-- `get` of an absent key gives its initial `output`.
pub find-Absent : (k : ℕ) (ns : List Node) → Absent k ns → find k ns ≡ 0
unfolding find
find-Absent k [] a = refl
find-Absent k (n ∷ ns) a = ground (arith, find-Absent k ns)
