-- ===== src/HashTable/Chain.antt =====
-- src/HashTable.cpp: one bucket. A chain of `Node`s owned through `next` is the list of the nodes;
-- `addr` is the address of a node, by which the recency list refers to it.
use redis_like_in_memory_dat.Base.{
  ℕ, Bytes, str_eq, List, [], ◌∷◌, Option, none, some, Bool, true, false, if◌then◌else◌, ◌==◌,
}
use redis_like_in_memory_dat.Entry.{Entry}

pub record Node : Type 0 where
  pub addr : ℕ
  pub entry : Entry
  pub footprint : ℕ

abbrev pub Chain : Type 0
Chain = List Node

-- The walk of `find`, `findNode` and `put` along one chain.
unfoldable pub find_node : Bytes → Chain → Option Node
find_node key [] = none
find_node key (n ∷ c) = if str_eq n.entry.key key then some n else find_node key c

-- A write through the pointer that the walk returned: the first node with the key is replaced.
unfoldable pub assign : Bytes → Node → Chain → Chain
assign key v [] = []
assign key v (n ∷ c) = if str_eq n.entry.key key then v ∷ c else n ∷ assign key v c

-- The walk of `remove` along the owning links: the victim, and the chain spliced shut.
unfoldable pub splice : Bytes → Chain → Option (Node × Chain)
splice key [] = none
splice key (n ∷ c) = elim (str_eq n.entry.key key) [
  | true ↦ some (n, c)
  | false ↦ elim (splice key c) [ none ↦ none | some (v, c') ↦ some (v, n ∷ c') ]
]

-- The node that a raw pointer refers to, over all buckets; `none` if it dangles.
unfoldable pub node_in : ℕ → Chain → Option Node
node_in a [] = none
node_in a (n ∷ c) = if n.addr == a then some n else node_in a c

unfoldable pub node_at : ℕ → List Chain → Option Node
unfolding node_in
node_at a [] = none
node_at a (c ∷ cs) = elim (node_in a c) [ some n ↦ some n | none ↦ node_at a cs ]

-- The entries of a chain, and those that satisfy a predicate, front first.
unfoldable pub entries_in : (Entry → Bool) → Chain → List Entry
entries_in p [] = []
entries_in p (n ∷ c) = if p n.entry then n.entry ∷ entries_in p c else entries_in p c
