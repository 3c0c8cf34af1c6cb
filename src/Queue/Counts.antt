-- ===== src/Queue/Counts.antt =====
-- How often a payload occurs in the Redis lists, under each list operation of queue/mod.rs.
use agent_execution_platform.Prelude.{
  ℕ, suc, ◌+◌, ◌≡◌, ◌≢◌, refl, ◌↔◌, Bool, true, some, List, [], ◌∷◌, ◌++◌, arith, if◌then◌else◌,
  Option-cases, inl, inr,
}
use agent_execution_platform.Queue.Lists.{Store, pop_right, remove_first, occurs}

pub pop_right-append : {P : Type 0} (l : List P) (x : P) → pop_right (l ++ x ∷ []) ≡ some (x, l)
pop_right-append [] x = refl
pop_right-append (y ∷ l) x = rw (pop_right-append l x)

-- `pop_right` splits the last element off, and fails on the empty list only.
pub pop_right-some :
    {P : Type 0} (xs : List P) (x : P) (l : List P) → pop_right xs ≡ some (x, l) → xs ≡ l ++ x ∷ []
pop_right-some [] x l h = cc
pop_right-some (y ∷ ys) x l h = elim (Option-cases (pop_right ys)) [
  | inl e ↦ ground arith
  | inr ((x', l'), e) ↦ ground (arith, pop_right-some ys x' l' e)
]

module _ {P : Type 0} (beq : P → P → Bool) where
  abbrev pub occurrences : P → List P → ℕ
  occurrences p [] = 0
  occurrences p (x ∷ xs) = if beq p x then suc (occurrences p xs) else occurrences p xs

  abbrev pub one_if_eq : P → P → ℕ
  one_if_eq p x = if beq p x then 1 else 0

  pub occurrences-append :
      (p : P) (xs ys : List P) → occurrences p (xs ++ ys) ≡ occurrences p xs + occurrences p ys
  occurrences-append p [] ys = omega arith
  occurrences-append p (x ∷ xs) ys = ground (arith, occurrences-append p xs ys)

  pub occurrences-pop_right :
      (p : P) (xs : List P) (x : P) (l : List P)
      → pop_right xs ≡ some (x, l)
      → occurrences p xs ≡ occurrences p l + one_if_eq p x
  occurrences-pop_right p xs x l h =
      rw (pop_right-some xs x l h) (rw (occurrences-append p l) (omega arith))

  -- How often a payload occurs in the three lists of one worker together.
  abbrev pub total : ℕ → P → Store P → ℕ
  total w p s =
      occurrences p s.main_list
      + occurrences p (s.processing_list w)
      + occurrences p s.dead_letter_list

module _ {P : Type 0} (beq : P → P → Bool) (beq_iff : (p q : P) → (beq p q ≡ true) ↔ (p ≡ q)) where
  -- Taking out one payload leaves the count of every other.
  pub occurrences-remove_first_ne :
      (p q : P) (xs : List P)
      → q ≢ p
      → occurrences beq q (remove_first beq p xs) ≡ occurrences beq q xs
  occurrences-remove_first_ne p q [] h = refl
  occurrences-remove_first_ne p q (x ∷ xs) h =
      ground (arith, beq_iff p x, beq_iff q x, occurrences-remove_first_ne p q xs h)

  -- Of the payload itself one occurrence goes, if there is one.
  pub occurrences-remove_first_self :
      (p : P) (xs : List P)
      → occurrences beq p (remove_first beq p xs) + (if occurs beq p xs then 1 else 0)
        ≡ occurrences beq p xs
  occurrences-remove_first_self p [] = refl
  occurrences-remove_first_self p (x ∷ xs) = ground (arith, occurrences-remove_first_self p xs)
