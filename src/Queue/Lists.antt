-- ===== src/Queue/Lists.antt =====
-- The Redis lists that src/queue/mod.rs names, and the documented effect of the list commands.
-- The head of a list is its LEFT end.
use agent_execution_platform.Prelude.{
  ℕ, ◌+◌, Bool, true, false, Option, none, some, List, [], ◌∷◌, ◌==◌, if◌then◌else◌, length,
}

-- `QUEUE_KEY`, `processing_key(worker_id)` and `DLQ_KEY`; the three texts never coincide.
pub data Key : Type 0 where
  main_queue : Key
  processing : ℕ → Key
  dead_letter : Key

pub record Store (P : Type 0) : Type 0 where
  pub main_list : List P
  pub processing_list : ℕ → List P
  pub dead_letter_list : List P

abbrev pub update {ℓ} : {A : Type ℓ} → (ℕ → A) → ℕ → A → ℕ → A
update f k v j = if k == j then v else f j

abbrev pub get : {P : Type 0} → Key → Store P → List P
get main_queue s = s.main_list
get (processing w) s = s.processing_list w
get dead_letter s = s.dead_letter_list

abbrev pub put : {P : Type 0} → Key → List P → Store P → Store P
put main_queue l s = record s { main_list = l }
put (processing w) l s = record s { processing_list = update s.processing_list w l }
put dead_letter l s = record s { dead_letter_list = l }

pub data Command (P : Type 0) : Type 0 where
  lpush : Key → P → Command P
  -- LREM key 1 element
  lrem : Key → P → Command P
  -- LMOVE from to RIGHT LEFT
  lmove : Key → Key → Command P
  llen : Key → Command P

pub data Reply (P : Type 0) : Type 0 where
  size : ℕ → Reply P
  element : Option P → Reply P

-- The list without its RIGHT element, and that element.
abbrev pub pop_right : {P : Type 0} → List P → Option (P × List P)
pop_right [] = none
pop_right (x ∷ xs) = elim (pop_right xs) [ none ↦ some (x, []) | some (l, r) ↦ some (l, x ∷ r) ]

module _ {P : Type 0} (beq : P → P → Bool) where
  -- The first occurrence from the LEFT is taken out.
  abbrev pub remove_first : P → List P → List P
  remove_first p [] = []
  remove_first p (x ∷ xs) = if beq p x then xs else x ∷ remove_first p xs

  abbrev pub occurs : P → List P → Bool
  occurs p [] = false
  occurs p (x ∷ xs) = if beq p x then true else occurs p xs

  abbrev pub move_right_left : Key → Key → Option (P × List P) → Store P → Reply P × Store P
  move_right_left from to none s = (element none, s)
  move_right_left from to (some (p, rest)) s =
      let s' = put from rest s in (element (some p), put to (p ∷ get to s') s')

  unfoldable pub redis_apply : Command P → Store P → Reply P × Store P
  redis_apply (lpush k p) s = (size (length (get k s) + 1), put k (p ∷ get k s) s)
  redis_apply (lrem k p) s =
      (size (if occurs p (get k s) then 1 else 0), put k (remove_first p (get k s)) s)
  redis_apply (lmove from to) s = move_right_left from to (pop_right (get from s)) s
  redis_apply (llen k) s = (size (length (get k s)), s)
