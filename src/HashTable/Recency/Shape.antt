-- ===== src/HashTable/Recency/Shape.antt =====
-- The pointers of the recency list hold a list of addresses, front first, and each operation on the
-- pointers is the operation on that list.
use redis_like_in_memory_dat.Base.{
  ℕ, suc, ◌+◌, ◌≤◌, ◌≡◌, ◌≢◌, refl, ap, Option, none, some, List, [], ◌∷◌, head?, length, ◌==◌,
  if◌then◌else◌, arith, inl, inr, Bool-cases, ==_iff,
}
use redis_like_in_memory_dat.HashTable.Recency.{Links, Recency}

unfoldable pub count : ℕ → List ℕ → ℕ
count a [] = 0
count a (x ∷ xs) = if a == x then suc (count a xs) else count a xs

unfoldable pub erase : ℕ → List ℕ → List ℕ
erase a [] = []
erase a (x ∷ xs) = if a == x then xs else x ∷ erase a xs

-- Following `lruNext` from a node whose predecessor is `p` visits `xs` and ends at `tail`.
abbrev pub Linked : (ℕ → Links) → Option ℕ → List ℕ → Option ℕ → Type 0
Linked links p [] tail = tail ≡ p
Linked links p (a ∷ xs) tail =
    ((links a).prev ≡ p) × ((links a).next ≡ head? xs) × Linked links (some a) xs tail

pub record Holds (r : Recency) (xs : List ℕ) : Type 0 where
  pub front : r.head ≡ head? xs
  pub chain : Linked r.links none xs r.tail
  pub distinct : (a : ℕ) → count a xs ≤ 1

pub count-erase :
    (a b : ℕ) (xs : List ℕ)
    → count b (erase a xs) + (if a == b then (if 0 == count a xs then 0 else 1) else 0) ≡ count b xs
unfolding count erase
count-erase a b [] = ground arith
count-erase a b (x ∷ xs) = ground (arith, count-erase a b xs)

pub count-erase-le : (a b : ℕ) (xs : List ℕ) → count b (erase a xs) ≤ count b xs
unfolding count erase
count-erase-le a b [] = omega arith
count-erase-le a b (x ∷ xs) = ground (arith, count-erase-le a b xs)

pub length-erase : (a : ℕ) (xs : List ℕ) → 1 ≤ count a xs → length (erase a xs) + 1 ≡ length xs
unfolding count erase
length-erase a [] h = absurd (omega arith)
length-erase a (x ∷ xs) h = ground (arith, length-erase a xs)

-- Links that agree on the visited nodes hold the same list.
pub Linked-frame :
    (l l' : ℕ → Links) (p : Option ℕ) (xs : List ℕ) (t : Option ℕ)
    → ((a : ℕ) → 1 ≤ count a xs → l' a ≡ l a)
    → Linked l p xs t
    → Linked l' p xs t
unfolding count
Linked-frame l l' p [] t same h = h
Linked-frame l l' p (a ∷ xs) t same (h₁, h₂, h₃) =
    let e : l' a ≡ l a = same a (ground arith) in
    (
      ap (λ (k : Links). k.prev) e ∙' h₁,
      ap (λ (k : Links). k.next) e ∙' h₂,
      Linked-frame l l' (some a) xs t (λ b hb. same b (ground arith)) h₃,
    )
  where
    infixl 30 ◌∙'◌
    ◌∙'◌ : {x y z : Option ℕ} → x ≡ y → y ≡ z → x ≡ z
    e ∙' f = cc

-- The last node visited is one of the list.
pub tail-mem :
    (l : ℕ → Links) (a : ℕ) (xs : List ℕ) (t : Option ℕ) (b : ℕ)
    → Linked l (some a) xs t
    → count b (a ∷ xs) ≡ 0
    → t ≢ some b
unfolding count
tail-mem l a [] t b h z e = ground arith
tail-mem l a (x ∷ xs) t b (h₁, h₂, h₃) z e = tail-mem l x xs t b h₃ (ground arith) e

-- The successor of a visited node is visited.
pub next-mem :
    (l : ℕ → Links) (p : Option ℕ) (xs : List ℕ) (t : Option ℕ) (a b : ℕ)
    → Linked l p xs t
    → 1 ≤ count a xs
    → count b xs ≡ 0
    → (l a).next ≢ some b
unfolding count
next-mem l p [] t a b h m z e = absurd (omega arith)
next-mem l p (x ∷ []) t a b (h₁, h₂, h₃) m z e = ground arith
next-mem l p (x ∷ y ∷ xs) t a b (h₁, h₂, h₃) m z e =
    ground (arith, next-mem l (some x) (y ∷ xs) t a b h₃)

-- The predecessor of a visited node is visited, unless the node is the first.
pub prev-mem :
    (l : ℕ → Links) (p : Option ℕ) (x : ℕ) (xs : List ℕ) (t : Option ℕ) (a b : ℕ)
    → Linked l p (x ∷ xs) t
    → a ≢ x
    → 1 ≤ count a xs
    → count b (x ∷ xs) ≡ 0
    → (l a).prev ≢ some b
unfolding count
prev-mem l p x [] t a b h ne m z e = absurd (omega arith)
prev-mem l p x (y ∷ xs) t a b (h₁, h₂, h₃) ne m z e = elim (Bool-cases (a == y)) [
  | inl same ↦ ground arith
  | inr other ↦ prev-mem l (some x) y xs t a b h₃ (ground arith) (ground arith) (ground arith) e
]

pub count-le-cons : (b x : ℕ) (xs : List ℕ) → count b xs ≤ count b (x ∷ xs)
unfolding count
count-le-cons b x xs = ground arith

-- What stands behind a node of a list without repetition is another node.
pub ne_of_behind : (a b : ℕ) (xs : List ℕ) → count a (a ∷ xs) ≤ 1 → 1 ≤ count b xs → b ≢ a
unfolding count
ne_of_behind a b xs d m e = absurd (ground (arith, d, m, ap (λ (c : ℕ). count c xs) e))

pub count-cons_self : (a : ℕ) (xs : List ℕ) → count a (a ∷ xs) ≡ suc (count a xs)
unfolding count
count-cons_self a xs = rw ((==_iff a a).1 refl)

pub distinct-cons :
    (node a : ℕ) (xs : List ℕ) → count node xs ≡ 0 → count a xs ≤ 1 → count a (node ∷ xs) ≤ 1
unfolding count
distinct-cons node a xs z h = elim (Bool-cases (a == node)) [
  | inl same ↦
      let e : a ≡ node = ground arith in rw same (omega (arith, z, ap (λ (b : ℕ). count b xs) e))
  | inr other ↦ rw other h
]
