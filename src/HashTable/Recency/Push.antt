-- ===== src/HashTable/Recency/Push.antt =====
-- `lruPushFront` puts its node in front of the list.
use redis_like_in_memory_dat.Base.{ℕ, ◌≤◌, ◌≡◌, ◌≢◌, refl, ap, some, List, [], ◌∷◌, arith}
use redis_like_in_memory_dat.HashTable.Recency.{Links, Recency, push_front}
use redis_like_in_memory_dat.HashTable.Recency.Shape.{
  count, Linked, Holds, Linked-frame, distinct-cons,
}

push_tail :
    (node : ℕ) (r : Recency) (l : ℕ → Links) (x : ℕ) (xs : List ℕ)
    → Linked l (some x) xs r.tail
    → (push_front node r).tail ≡ r.tail
unfolding push_front
push_tail node r l x [] h = ground arith
push_tail node r l x (y ∷ xs) (h₁, h₂, h₃) = push_tail node r l y xs h₃

-- Where the links change at the old front and at the pushed node alone.
push_links :
    (node x a : ℕ) (r : Recency)
    → r.head ≡ some x
    → a ≢ node
    → a ≢ x
    → (push_front node r).links a ≡ r.links a
unfolding push_front
push_links node x a r h n₁ n₂ = ground arith

-- If the pointers hold a list that the node is not in, `lruPushFront` leaves pointers that hold the list
-- with the node in front.
pub push_front-Holds :
    (node : ℕ) (r : Recency) (xs : List ℕ)
    → Holds r xs
    → count node xs ≡ 0
    → Holds (push_front node r) (node ∷ xs)
unfolding push_front count
push_front-Holds node r [] h z = record {
  front = refl;
  chain = ground (arith, h.front, h.chain);
  distinct = λ a. ground arith;
}
push_front-Holds node r (x ∷ xs) h z =
    let ne : node ≢ x = ground arith in
    let lone : count x xs ≡ 0 = ground (arith, h.distinct x) in
    record {
      front = refl;
      chain = (
        ground (arith, h.front),
        ground (arith, h.front),
        (
          ground (arith, h.front),
          ground (arith, h.front, h.chain),
          rw (push_tail node r r.links x xs h.chain.2)
              (Linked-frame r.links (push_front node r).links (some x) xs r.tail kept h.chain.2),
        ),
      );
      distinct = λ a. distinct-cons node a (x ∷ xs) z (h.distinct a);
    }
  where
    kept : (a : ℕ) → 1 ≤ count a xs → (push_front node r).links a ≡ r.links a
    kept a m =
        push_links node x a r h.front
          (λ e. absurd (ground (arith, z, m, ap (λ (b : ℕ). count b xs) e)))
          (λ e. absurd (ground (arith, h.distinct x, m, ap (λ (b : ℕ). count b xs) e)))
