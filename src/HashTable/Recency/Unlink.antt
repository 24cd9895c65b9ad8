-- ===== src/HashTable/Recency/Unlink.antt =====
-- `lruUnlink`, `lruPromote` and `lruClear` on the list.
use redis_like_in_memory_dat.Base.{
  ℕ, ◌≤◌, ◌≡◌, ◌≢◌, refl, sym, ◌∙◌, ap, Option, none, some, List, [], ◌∷◌, head?, false, ◌==◌,
  ptr_eq, if◌then◌else◌, arith, inl, inr, Bool-cases, ==_iff,
}
use mathlib.Core.Path.{subst}
use redis_like_in_memory_dat.HashTable.Recency.{Links, Recency, unlink, clear, promote}
use redis_like_in_memory_dat.HashTable.Recency.Shape.{
  count, erase, Linked, Holds, count-erase-le, tail-mem,
}
use redis_like_in_memory_dat.HashTable.Recency.Push.{push_front-Holds}
use redis_like_in_memory_dat.HashTable.Recency.Bypass.{unlink-Bypass, Linked-erase}

-- In a list without repetition a node is neither its own successor nor its own predecessor.
next_self :
    (l : ℕ → Links) (p : Option ℕ) (xs : List ℕ) (t : Option ℕ) (a : ℕ)
    → Linked l p xs t
    → 1 ≤ count a xs
    → count a xs ≤ 1
    → (l a).next ≢ some a
unfolding count
next_self l p [] t a h m d e = absurd (omega arith)
next_self l p (x ∷ []) t a (h₁, h₂, h₃) m d e = ground arith
next_self l p (x ∷ y ∷ ys) t a (h₁, h₂, h₃) m d e =
    ground (arith, next_self l (some x) (y ∷ ys) t a h₃)

prev_self :
    (l : ℕ → Links) (p : Option ℕ) (xs : List ℕ) (t : Option ℕ) (a : ℕ)
    → Linked l p xs t
    → p ≢ some a
    → 1 ≤ count a xs
    → (l a).prev ≢ some a
unfolding count
prev_self l p [] t a h out m e = absurd (omega arith)
prev_self l p (x ∷ xs) t a (h₁, h₂, h₃) out m e = elim (Bool-cases (a == x)) [
  | inl same ↦ ground arith
  | inr other ↦ prev_self l (some x) xs t a h₃ (λ q. ground arith) (ground arith) e
]

positive : (n : ℕ) → (0 == n) ≡ false → 1 ≤ n
positive n h = ground arith

-- The last node has no successor.
tail-next :
    (l : ℕ → Links) (p : Option ℕ) (xs : List ℕ) (t : Option ℕ) (a : ℕ)
    → Linked l p xs t
    → 1 ≤ count a xs
    → t ≡ some a
    → (l a).next ≡ none
unfolding count
tail-next l p [] t a h m e = absurd (omega arith)
tail-next l p (x ∷ []) t a (h₁, h₂, h₃) m e = ground arith
tail-next l p (x ∷ y ∷ ys) t a (h₁, h₂, h₃) m e = elim (Bool-cases (0 == count a (y ∷ ys))) [
  | inl absent ↦ absurd (tail-mem l y ys t a h₃.2 (sym ((==_iff 0 _).0 absent)) e)
  | inr there ↦ tail-next l (some x) (y ∷ ys) t a h₃ (positive _ there) e
]

head_of_first :
    (a : ℕ) (r : Recency) (n : Option ℕ)
    → (r.links a).prev ≡ none
    → (r.links a).next ≡ n
    → r.head ≡ some a
    → (unlink a r).head ≡ n
unfolding unlink
head_of_first a r n h₁ h₂ h₃ = ground arith

head_of_later :
    (a : ℕ) (r : Recency) (x : ℕ) → r.head ≡ some x → (a == x) ≡ false → (unlink a r).head ≡ some x
unfolding unlink
head_of_later a r x h₁ h₂ = ground arith

unlink_head :
    (a : ℕ) (r : Recency) (x : ℕ) (xs : List ℕ)
    → Holds r (x ∷ xs)
    → (unlink a r).head ≡ head? (erase a (x ∷ xs))
unfolding unlink erase
unlink_head a r x xs h = elim (Bool-cases (a == x)) [
  | inl same ↦
      let e : a ≡ x = (==_iff a x).0 same in
      let before : (r.links a).prev ≡ none = ap (λ (b : ℕ). (r.links b).prev) e ∙ h.chain.0 in
      let after : (r.links a).next ≡ head? xs = ap (λ (b : ℕ). (r.links b).next) e ∙ h.chain.1 in
      rw same (head_of_first a r (head? xs) before after (h.front ∙ ap some (sym e)))
  | inr other ↦ rw other (head_of_later a r x h.front other)
]

unlink_tail :
    (a : ℕ) (r : Recency)
    → (r.links a).prev ≢ some a
    → (r.tail ≡ some a → (r.links a).next ≡ none)
    → (unlink a r).tail ≡ (if ptr_eq r.tail (some a) then (r.links a).prev else r.tail)
unfolding unlink
unlink_tail a r np last = ground (arith, last)

-- If the pointers hold a list, `lruUnlink` of a node of the list leaves pointers that hold the list without
-- that node, wherever it stood.
pub unlink-Holds :
    (a : ℕ) (r : Recency) (xs : List ℕ)
    → Holds r xs
    → 1 ≤ count a xs
    → Holds (unlink a r) (erase a xs)
unlink-Holds a r [] h m = absurd (unfold count in omega arith)
unlink-Holds a r (x ∷ xs) h m =
    let np = prev_self r.links none (x ∷ xs) r.tail a h.chain (λ e. cc) m in
    let nn = next_self r.links none (x ∷ xs) r.tail a h.chain m (h.distinct a) in
    let last = tail-next r.links none (x ∷ xs) r.tail a h.chain m in
    record {
      front = unlink_head a r x xs h;
      chain = rw (unlink_tail a r np last) (
          Linked-erase r.links (unlink a r).links a none (x ∷ xs) r.tail (unlink-Bypass a r np nn)
            h.chain m h.distinct (λ b k e. cc));
      distinct = λ b. omega (arith, count-erase-le a b (x ∷ xs), h.distinct b);
    }

pub count-erase_self : (a : ℕ) (xs : List ℕ) → count a xs ≤ 1 → count a (erase a xs) ≡ 0
unfolding count erase
count-erase_self a [] h = refl
count-erase_self a (x ∷ xs) h = ground (arith, count-erase_self a xs)

erase_self : (a : ℕ) (xs : List ℕ) → erase a (a ∷ xs) ≡ xs
unfolding erase
erase_self a xs = rw ((==_iff a a).1 refl)

-- If the pointers hold a list, the end of `touch` on a node of the list leaves pointers that hold the list with
-- that node moved to the front and the others in their order.
pub promote-Holds :
    (a : ℕ) (r : Recency) (xs : List ℕ)
    → Holds r xs
    → 1 ≤ count a xs
    → Holds (promote a r) (a ∷ erase a xs)
unfolding promote
promote-Holds a r [] h m = absurd (unfold count in omega arith)
promote-Holds a r (x ∷ xs) h m = elim (Bool-cases (ptr_eq r.head (some a))) [
  | inl same ↦
      let e : a ≡ x = ground (arith, h.front) in
      rw same (
        subst (λ b. Holds r (b ∷ erase b (x ∷ xs))) (sym e)
          (subst (λ ys. Holds r (x ∷ ys)) (sym (erase_self x xs)) h))
  | inr other ↦ rw other (
      push_front-Holds a (unlink a r) (erase a (x ∷ xs)) (unlink-Holds a r (x ∷ xs) h m)
        (count-erase_self a (x ∷ xs) (h.distinct a)))
]

-- `lruClear` leaves the empty list.
pub clear-Holds : (r : Recency) → Holds (clear r) []
unfolding clear count
clear-Holds r = record { front = refl; chain = refl; distinct = λ a. omega arith }
