-- ===== src/HashTable/Recency.antt =====
-- include/HashTable.h, src/HashTable.cpp: the intrusive recency list. A node is known by its
-- address; `links` holds the fields `lruPrev` and `lruNext` of the node at each address.
pub mod Shape
pub mod Push
pub mod Bypass
pub mod Unlink
use redis_like_in_memory_dat.Base.{
  ℕ, Option, none, some, Bool, true, false, ◌==◌, ptr_eq, if◌then◌else◌,
}

pub record Links : Type 0 where
  pub prev : Option ℕ
  pub next : Option ℕ

pub record Recency : Type 0 where
  pub links : ℕ → Links
  pub head : Option ℕ
  pub tail : Option ℕ

abbrev pub unlinked : Links
unlinked = record { prev = none; next = none }

abbrev pub empty : Recency
empty = record { links = λ a. unlinked; head = none; tail = none }

abbrev update : (ℕ → Links) → ℕ → Links → ℕ → Links
update links a l x = if a == x then l else links x

-- `p->lruPrev = v` and `p->lruNext = v`
abbrev set_prev : (ℕ → Links) → ℕ → Option ℕ → ℕ → Links
set_prev links p v = update links p (record { prev = v; next = (links p).next })

abbrev set_next : (ℕ → Links) → ℕ → Option ℕ → ℕ → Links
set_next links p v = update links p (record { prev = (links p).prev; next = v })

-- `lruPushFront`
unfoldable pub push_front : ℕ → Recency → Recency
push_front node r =
    let links = update r.links node (record { prev = none; next = r.head }) in
    record {
      links = elim r.head [ none ↦ links | some h ↦ set_prev links h (some node) ];
      head = some node;
      tail = elim r.tail [ none ↦ some node | some t ↦ some t ];
    }

-- The first `if` of `lruUnlink`: close the gap from the left.
unfoldable pub unlink_prev : ℕ → Recency → Recency
unlink_prev node r = elim (r.links node).prev [
  | some p ↦ record r { links = set_next r.links p (r.links node).next }
  | none ↦ if ptr_eq r.head (some node) then record r { head = (r.links node).next } else r
]

-- The second `if`: close the gap from the right.
unfoldable pub unlink_next : ℕ → Recency → Recency
unlink_next node r = elim (r.links node).next [
  | some n ↦ record r { links = set_prev r.links n (r.links node).prev }
  | none ↦ if ptr_eq r.tail (some node) then record r { tail = (r.links node).prev } else r
]

-- `lruUnlink`
unfoldable pub unlink : ℕ → Recency → Recency
unfolding unlink_prev unlink_next
unlink node r =
    let r' = unlink_next node (unlink_prev node r) in
    record r' { links = update r'.links node unlinked }

-- `lruClear`: the links of the nodes are left as they are.
unfoldable pub clear : Recency → Recency
clear r = record r { head = none; tail = none }

-- The pointer work of `touch`: nothing if the node is already at the front.
unfoldable pub promote : ℕ → Recency → Recency
promote node r = if ptr_eq r.head (some node) then r else push_front node (unlink node r)
