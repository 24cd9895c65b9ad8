-- ===== src/Programs/Shown.antt =====
-- The lines that `printReply` writes for an array of escaped keys.
use redis_like_in_memory_dat.Base.{
  ℕ, suc, ◌≡◌, refl, sym, ap, ◌∙◌, Bytes, codes, List, [], ◌∷◌, ◌++◌, true, map, length, length-map,
  append_assoc, ◌==◌, if◌then◌else◌, Bool-cases, inl, inr,
}
use redis_like_in_memory_dat.Client.Arrivals.{find_line-printable}
use redis_like_in_memory_dat.Client.Keys.{AllKeys, no_key, and_key, decimal-printable}
use redis_like_in_memory_dat.Command.Escape.{escape_for_wire}
use redis_like_in_memory_dat.Command.Replies.{
  all_printable, all_printable-append, escape_for_wire-printable,
}
use redis_like_in_memory_dat.Programs.ClientMain.{print_keys, print_array, counted_keys}
use redis_like_in_memory_dat.Protocol.Count.{to_string}
use redis_like_in_memory_dat.Server.Lines.{cut, cut-some}

-- The line that counts the keys.
abbrev pub heading : List Bytes → Bytes
heading [] = codes "(empty list)"
heading (key ∷ keys) = counted_keys (length (key ∷ keys))

-- The line of a key.
abbrev pub numbered_line : ℕ → Bytes → Bytes
numbered_line i key = to_string i ++ codes ") " ++ 34 ∷ (escape_for_wire key ++ 34 ∷ [])

unfoldable pub numbered : ℕ → List Bytes → List Bytes
numbered i [] = []
numbered i (key ∷ keys) = numbered_line i key ∷ numbered (suc i) keys

to_string-printable : (n : ℕ) → all_printable (to_string n) ≡ true
unfolding all_printable to_string
to_string-printable n = decimal-printable 20 n [] refl

numbered_line-printable :
    (i : ℕ) (key : Bytes)
    → all_printable (escape_for_wire key) ≡ true
    → all_printable (numbered_line i key) ≡ true
unfolding all_printable
numbered_line-printable i key h =
    all_printable-append (to_string i ++ codes ") ") (34 ∷ (escape_for_wire key ++ 34 ∷ []))
      (all_printable-append (to_string i) (codes ") ") (to_string-printable i) refl)
      (all_printable-append (escape_for_wire key) (34 ∷ []) h refl)

counted_keys-printable : (n : ℕ) → all_printable (counted_keys n) ≡ true
unfolding all_printable
counted_keys-printable n =
    all_printable-append (to_string n) (if n == 1 then codes " key)" else codes " keys)")
      (to_string-printable n)
      (elim (Bool-cases (n == 1)) [ inl one ↦ rw one refl | inr more ↦ rw more refl ])

-- A printable line in front of others is cut off as it is.
cut-line :
    (line rest : Bytes)
    → all_printable line ≡ true
    → cut (line ++ 10 ∷ rest) ≡ (line ∷ (cut rest).0, (cut rest).1)
cut-line line rest h = cut-some (line ++ 10 ∷ rest) line rest (find_line-printable line rest h)

in_front :
    (line rest : Bytes) (lines : List Bytes)
    → all_printable line ≡ true
    → cut rest ≡ (lines, [])
    → cut (line ++ 10 ∷ rest) ≡ (line ∷ lines, [])
in_front line rest lines h e =
    cut-line line rest h ∙ ap (λ (p : List Bytes × Bytes). (line ∷ p.0, p.1)) e

print_keys-step :
    (i : ℕ) (key rest : Bytes)
    → to_string i ++ codes ") " ++ 34 ∷ (escape_for_wire key ++ 34 ∷ 10 ∷ rest)
      ≡ numbered_line i key ++ 10 ∷ rest
print_keys-step i key rest =
    ap (λ s. to_string i ++ codes ") " ++ 34 ∷ s)
      (sym (append_assoc (escape_for_wire key) (34 ∷ []) (10 ∷ rest)))
    ∙ sym (
        append_assoc (to_string i ++ codes ") ") (34 ∷ (escape_for_wire key ++ 34 ∷ []))
          (10 ∷ rest))

cut-print_keys :
    (i : ℕ) (keys : List Bytes)
    → AllKeys keys
    → cut (print_keys i (map escape_for_wire keys)) ≡ (numbered i keys, [])
unfolding print_keys numbered cut
cut-print_keys i [] no_key = refl
cut-print_keys i (key ∷ keys) (and_key f fs) =
    ap cut (print_keys-step i key (print_keys (suc i) (map escape_for_wire keys)))
    ∙ in_front (numbered_line i key) (print_keys (suc i) (map escape_for_wire keys))
        (numbered (suc i) keys) (numbered_line-printable i key (escape_for_wire-printable key f))
        (cut-print_keys (suc i) keys fs)

-- The lines: the heading, and one for each key, whatever bytes the keys have.
pub cut-print_array :
    (keys : List Bytes)
    → AllKeys keys
    → cut (print_array (map escape_for_wire keys)) ≡ (heading keys ∷ numbered 1 keys, [])
unfolding print_array print_keys cut numbered
cut-print_array [] no_key = refl
cut-print_array (key ∷ keys) (and_key f fs) =
    let n : length (map escape_for_wire keys) ≡ length keys = length-map escape_for_wire keys in
    rw n (
      in_front (counted_keys (suc (length keys))) (print_keys 1 (map escape_for_wire (key ∷ keys)))
        (numbered 1 (key ∷ keys)) (counted_keys-printable (suc (length keys)))
        (cut-print_keys 1 (key ∷ keys) (and_key f fs)))
