-- ===== src/Server/Lines.antt =====
-- Lines cut out of a stream: the search of src/Server.cpp and src/VCacheClient.cpp for a newline, and the
-- lines of a stream at once.
use redis_like_in_memory_dat.Base.{
  ℕ, suc, ◌≤◌, ◌<◌, ◌≡◌, ◌⊎◌, refl, arith, Bytes, List, [], ◌∷◌, ◌++◌, Option, none, some, Bool,
  true, false, ◌==◌, if◌then◌else◌, length, Bool-cases, inl, inr,
}

abbrev with_byte : ℕ → Option (Bytes × Bytes) → Option (Bytes × Bytes)
with_byte c none = none
with_byte c (some (line, rest)) = some (c ∷ line, rest)

-- `find('\n')`, and then `substr` and `erase`: the line before the first newline, and what follows it.
unfoldable pub find_line : Bytes → Option (Bytes × Bytes)
find_line [] = none
find_line (c ∷ s) = let more = find_line s in if c == 10 then some ([], s) else with_byte c more

abbrev pub before : ℕ → List Bytes × Bytes → List Bytes × Bytes
before c ([], end) = ([], c ∷ end)
before c (line ∷ lines, end) = ((c ∷ line) ∷ lines, end)

-- The lines of a stream, and its end without a newline.
unfoldable pub cut : Bytes → List Bytes × Bytes
cut [] = ([], [])
cut (c ∷ s) = let more = cut s in if c == 10 then ([] ∷ more.0, more.1) else before c more

find_step-none :
    (b : Bool) (c : ℕ) (s : Bytes) (more : Option (Bytes × Bytes))
    → (if b then some ([], s) else with_byte c more) ≡ none
    → (b ≡ false) × (more ≡ none)
find_step-none true c s more h = cc
find_step-none false c s none h = (refl, refl)
find_step-none false c s (some (line, rest)) h = cc

-- A stream without a newline is its own end.
pub cut-none : (s : Bytes) → find_line s ≡ none → cut s ≡ ([], s)
unfolding find_line cut
cut-none [] h = refl
cut-none (c ∷ s) h =
    let (other, e) = find_step-none (c == 10) c s (find_line s) h in rw (other, cut-none s e) refl

pub find_step-some :
    (b : Bool) (c : ℕ) (s line rest : Bytes) (more : Option (Bytes × Bytes))
    → (if b then some ([], s) else with_byte c more) ≡ some (line, rest)
    → ((b ≡ true) × (line ≡ []) × (rest ≡ s))
      ⊎ ((line' : Bytes) × ((b ≡ false) × (more ≡ some (line', rest)) × (line ≡ c ∷ line')))
find_step-some true c s line rest more h = inl (refl, cc, cc)
find_step-some false c s line rest none h = cc
find_step-some false c s line rest (some (line', rest')) h = inr (line', (refl, cc, cc))

-- The first line, and the lines of what follows it.
pub cut-some :
    (s line rest : Bytes)
    → find_line s ≡ some (line, rest)
    → cut s ≡ (line ∷ (cut rest).0, (cut rest).1)
unfolding find_line cut
cut-some [] line rest h = cc
cut-some (c ∷ s) line rest h = elim (find_step-some (c == 10) c s line rest (find_line s) h) [
  | inl (newline, e, e') ↦ rw (newline, e, e') refl
  | inr (line', (other, more, e)) ↦ rw (other, e, cut-some s line' rest more) refl
]

pub find_line-shorter :
    (s line rest : Bytes) → find_line s ≡ some (line, rest) → length rest < length s
unfolding find_line
find_line-shorter [] line rest h = cc
find_line-shorter (c ∷ s) line rest h =
    elim (find_step-some (c == 10) c s line rest (find_line s) h) [
      | inl (newline, e, e') ↦ rw e' (omega arith)
      | inr (line', (other, more, e)) ↦ omega (arith, find_line-shorter s line' rest more)
    ]

before-append :
    (c : ℕ) (p : List Bytes × Bytes) (t : Bytes)
    → (c == 10) ≡ false
    → before c (p.0 ++ (cut (p.1 ++ t)).0, (cut (p.1 ++ t)).1)
      ≡ ((before c p).0 ++ (cut ((before c p).1 ++ t)).0, (cut ((before c p).1 ++ t)).1)
unfolding cut
before-append c ([], end) t h = rw h refl
before-append c (line ∷ lines, end) t h = refl

-- A stream cut in two places: the end of the first part begins the rest.
pub cut-append :
    (s t : Bytes) → cut (s ++ t) ≡ ((cut s).0 ++ (cut ((cut s).1 ++ t)).0, (cut ((cut s).1 ++ t)).1)
unfolding cut
cut-append [] t = refl
cut-append (c ∷ s) t = elim (Bool-cases (c == 10)) [
  | inl newline ↦ rw (newline, cut-append s t) refl
  | inr other ↦ rw (other, cut-append s t) (before-append c (cut s) t other)
]

before-end :
    (c : ℕ) (p : List Bytes × Bytes)
    → (c == 10) ≡ false
    → cut p.1 ≡ ([], p.1)
    → cut (before c p).1 ≡ ([], (before c p).1)
unfolding cut
before-end c ([], end) other h = rw (other, h) refl
before-end c (line ∷ lines, end) other h = h

-- The end of a stream has no newline.
pub cut-end : (s : Bytes) → cut (cut s).1 ≡ ([], (cut s).1)
unfolding cut
cut-end [] = refl
cut-end (c ∷ s) = elim (Bool-cases (c == 10)) [
  | inl newline ↦ rw newline (cut-end s)
  | inr other ↦ rw other (before-end c (cut s) other (cut-end s))
]

-- The bytes that come first: the first line's, or the end's.
abbrev pub first : List Bytes × Bytes → ℕ
first ([], end) = length end
first (line ∷ lines, end) = length line

first-before : (c : ℕ) (p : List Bytes × Bytes) → first (before c p) ≡ suc (first p)
first-before c ([], end) = refl
first-before c (line ∷ lines, end) = refl

before_first :
    (c : ℕ) (p : List Bytes × Bytes) (t : Bytes)
    → (c == 10) ≡ false
    → length p.1 ≤ first (cut (p.1 ++ t))
    → length (before c p).1 ≤ first (cut ((before c p).1 ++ t))
unfolding cut
before_first c ([], end) t other h = rw other (omega (arith, h, first-before c (cut (end ++ t))))
before_first c (line ∷ lines, end) t other h = h

-- What is left of a stream is the beginning of what comes next.
pub length_end-le : (s t : Bytes) → length (cut s).1 ≤ first (cut ((cut s).1 ++ t))
unfolding cut
length_end-le [] t = omega arith
length_end-le (c ∷ s) t = elim (Bool-cases (c == 10)) [
  | inl newline ↦ rw newline (length_end-le s t)
  | inr other ↦ rw other (before_first c (cut s) t other (length_end-le s t))
]
