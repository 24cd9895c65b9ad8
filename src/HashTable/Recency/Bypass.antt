-- ===== src/HashTable/Recency/Bypass.antt =====
-- The two assignments of `lruUnlink` route the list around a node.
use redis_like_in_memory_dat.Base.{
  ℕ, ◌≤◌, ◌≡◌, ◌≢◌, sym, ◌∙◌, ap, Option, some, List, [], ◌∷◌, head?, false, ◌==◌, ptr_eq,
  if◌then◌else◌, arith, inl, inr, Bool-cases, ==_iff,
}
use mathlib.Core.Path.{subst}
use redis_like_in_memory_dat.HashTable.Recency.{Links, Recency, unlink}
use redis_like_in_memory_dat.HashTable.Recency.Shape.{
  count, erase, Linked, Linked-frame, tail-mem, next-mem, prev-mem, count-le-cons, ne_of_behind,
  count-cons_self,
}

-- What `unlink` does to the links of a node other than the one that it takes out.
pub record Bypass (l l' : ℕ → Links) (a : ℕ) : Type 0 where
  pub at :
      (x : ℕ)
      → x ≢ a
      → (l' x) ≡ record {
        prev = if ptr_eq (l a).next (some x) then (l a).prev else (l x).prev;
        next = if ptr_eq (l a).prev (some x) then (l a).next else (l x).next;
      }

pub unlink-Bypass :
    (a : ℕ) (r : Recency)
    → (r.links a).prev ≢ some a
    → (r.links a).next ≢ some a
    → Bypass r.links (unlink a r).links a
unfolding unlink
unlink-Bypass a r np nn = record { at = λ x ne. ground arith }

ptr_eq-ne : (t : Option ℕ) (a : ℕ) → t ≢ some a → ptr_eq t (some a) ≡ false
ptr_eq-ne t a h = ground arith

Bypass-prev :
    (l l' : ℕ → Links) (a x : ℕ)
    → Bypass l l' a
    → x ≢ a
    → (l a).next ≢ some x
    → (l' x).prev ≡ (l x).prev
Bypass-prev l l' a x by ne h = ground (arith, by.at x ne)

Bypass-next :
    (l l' : ℕ → Links) (a x : ℕ)
    → Bypass l l' a
    → x ≢ a
    → (l a).prev ≢ some x
    → (l' x).next ≡ (l x).next
Bypass-next l l' a x by ne h = ground (arith, by.at x ne)

Bypass-both :
    (l l' : ℕ → Links) (a x : ℕ)
    → Bypass l l' a
    → x ≢ a
    → (l a).next ≢ some x
    → (l a).prev ≢ some x
    → l' x ≡ l x
Bypass-both l l' a x by ne h k = ground (arith, by.at x ne)

Bypass-joined :
    (l l' : ℕ → Links) (a x : ℕ)
    → Bypass l l' a
    → x ≢ a
    → (l a).next ≡ some x
    → (l' x).prev ≡ (l a).prev
Bypass-joined l l' a x by ne h = ground (arith, by.at x ne)

same_some : {o : Option ℕ} {x y : ℕ} → o ≡ some x → o ≡ some y → y ≡ x
same_some p q = cc

-- The node taken out is the first of the list.
erase_first :
    (l l' : ℕ → Links) (a : ℕ) (p : Option ℕ) (xs : List ℕ) (t : Option ℕ)
    → Bypass l l' a
    → (l a).prev ≡ p
    → (l a).next ≡ head? xs
    → Linked l (some a) xs t
    → ((b : ℕ) → count b (a ∷ xs) ≤ 1)
    → ((b : ℕ) → 1 ≤ count b xs → p ≢ some b)
    → Linked l' p xs (if ptr_eq t (some a) then (l a).prev else t)
unfolding count
erase_first l l' a p [] t by h₁ h₂ h₃ d out = ground arith
erase_first l l' a p (z ∷ zs) t by h₁ h₂ (k₁, k₂, k₃) d out =
    let seen : 1 ≤ count z (z ∷ zs) = omega (arith, count-cons_self z zs) in
    let ne : z ≢ a = ne_of_behind a z (z ∷ zs) (d a) seen in
    let away : p ≢ some z = out z seen in
    let lone : count a (z ∷ zs) ≡ 0 = omega (arith, d a, count-cons_self a (z ∷ zs)) in
    rw (ptr_eq-ne t a (tail-mem l z zs t a k₃ lone)) (
      Bypass-joined l l' a z by ne h₂ ∙ h₁,
      Bypass-next l l' a z by ne (λ e. away (sym h₁ ∙ e)) ∙ k₂,
      Linked-frame l l' (some z) zs t kept k₃,
    )
  where
    kept : (b : ℕ) → 1 ≤ count b zs → l' b ≡ l b
    kept b m =
        let m' : 1 ≤ count b (z ∷ zs) = omega (arith, m, count-le-cons b z zs) in
        Bypass-both l l' a b by (ne_of_behind a b (z ∷ zs) (d a) m')
          (λ e.
            ne_of_behind z b zs (omega (arith, d z, count-le-cons z a (z ∷ zs))) m (same_some h₂ e))
          (λ e. out b m' (sym h₁ ∙ e))

erase_first_at :
    (l l' : ℕ → Links) (a x : ℕ) (p : Option ℕ) (xs : List ℕ) (t : Option ℕ)
    → a ≡ x
    → Bypass l l' a
    → (l x).prev ≡ p
    → (l x).next ≡ head? xs
    → Linked l (some x) xs t
    → ((b : ℕ) → count b (x ∷ xs) ≤ 1)
    → ((b : ℕ) → 1 ≤ count b xs → p ≢ some b)
    → Linked l' p xs (if ptr_eq t (some a) then (l a).prev else t)
erase_first_at l l' a x p xs t same by h₁ h₂ h₃ d out =
    erase_first l l' a p xs t by (ap (λ (b : ℕ). (l b).prev) same ∙ h₁)
      (ap (λ (b : ℕ). (l b).next) same ∙ h₂) (subst (λ b. Linked l (some b) xs t) (sym same) h₃)
      (subst (λ b. (c : ℕ) → count c (b ∷ xs) ≤ 1) (sym same) d) out

-- The node taken out comes later: the node `x` before it stays.
erase_later :
    (l l' : ℕ → Links) (a x y : ℕ) (p : Option ℕ) (ys : List ℕ) (t : Option ℕ)
    → Bypass l l' a
    → a ≢ x
    → (l x).prev ≡ p
    → (l x).next ≡ some y
    → Linked l (some x) (y ∷ ys) t
    → 1 ≤ count a (y ∷ ys)
    → count x (y ∷ ys) ≡ 0
    → ((l' x).prev ≡ p) × ((l' x).next ≡ head? (erase a (y ∷ ys)))
unfolding count erase
erase_later l l' a x y p ys t by ne h₁ h₂ k m z =
    let ne' : x ≢ a = λ e. ne (sym e) in
    (
      Bypass-prev l l' a x by ne' (next-mem l (some x) (y ∷ ys) t a x k m z) ∙ h₁,
      elim (Bool-cases (a == y)) [
        | inl same ↦ rw same (ground (arith, by.at x ne', k.0, k.1))
        | inr other ↦ rw other (
            Bypass-next l l' a x by ne'
              (prev-mem l (some x) y ys t a x k (ground arith) (ground arith) z)
            ∙ h₂)
      ],
    )

-- Taking a node out of the list: the links that `unlink` leaves hold the list without it.
pub Linked-erase :
    (l l' : ℕ → Links) (a : ℕ) (p : Option ℕ) (xs : List ℕ) (t : Option ℕ)
    → Bypass l l' a
    → Linked l p xs t
    → 1 ≤ count a xs
    → ((b : ℕ) → count b xs ≤ 1)
    → ((b : ℕ) → 1 ≤ count b xs → p ≢ some b)
    → Linked l' p (erase a xs) (if ptr_eq t (some a) then (l a).prev else t)
unfolding count erase
Linked-erase l l' a p [] t by h m d out = absurd (omega arith)
Linked-erase l l' a p (x ∷ []) t by (h₁, h₂, h₃) m d out =
    let same : a ≡ x = ground arith in
    rw ((==_iff a x).1 same)
      (erase_first_at l l' a x p [] t same by h₁ h₂ h₃ d (λ b k. absurd (omega arith)))
Linked-erase l l' a p (x ∷ y ∷ ys) t by (h₁, h₂, h₃) m d out = elim (Bool-cases (a == x)) [
  | inl same ↦ rw same (
      erase_first_at l l' a x p (y ∷ ys) t ((==_iff a x).0 same) by h₁ h₂ h₃ d
        (λ b k. out b (ground (arith, k))))
  | inr other ↦
      let ne : a ≢ x = λ e. ground arith in
      let kept =
        erase_later l l' a x y p ys t by ne h₁ h₂ h₃ (ground (arith, m)) (ground (arith, d x)) in
      rw other (
        kept.0,
        kept.1,
        Linked-erase l l' a (some x) (y ∷ ys) t by h₃ (ground (arith, m)) (λ b. ground (arith, d b))
            (λ b k e. ground (arith, d x, k, e)),
      )
]
