-- ===== src/Script/Cond/Refine.antt =====
-- The two counters implement a list of Booleans, the innermost condition first.
use qubitcoin.Common.{
  ℕ, suc, ◌<◌, ◌≡◌, refl, Bool, true, false, not, ◌&&◌, List, [], ◌∷◌, ◌==◌, if◌then◌else◌, length,
  arith, Bool-cases, inl, inr,
}
use qubitcoin.Script.Cond.{
  ConditionStack, no_false, new, is_empty, all_true, push_back, pop_back, toggle_top,
}

-- The position, from the outermost condition, of the outermost false one.
first_false : List Bool → ℕ
first_false [] = no_false
first_false (f ∷ l) =
    if first_false l == no_false then (if f then no_false else length l) else first_false l

abbrev conj : List Bool → Bool
conj [] = true
conj (f ∷ l) = f && conj l

pub of_list : List Bool → ConditionStack
of_list l = record { stack_size = length l; first_false_pos = first_false l }

first_false_if_conj : (l : List Bool) → conj l ≡ true → first_false l ≡ no_false
unfolding first_false
first_false_if_conj [] h = refl
first_false_if_conj (f ∷ l) h = ground (arith, first_false_if_conj l)

first_false_if_not_conj :
    (l : List Bool) → length l < no_false → conj l ≡ false → first_false l < length l
unfolding first_false
first_false_if_not_conj [] s h = cc
first_false_if_not_conj (f ∷ l) s h = elim (Bool-cases (conj l)) [
  | inl t ↦ ground (arith, first_false_if_conj l t)
  | inr t ↦ ground (arith, first_false_if_not_conj l (omega arith) t)
]

-- Up to 2^32 - 3 open conditions, each operation acts on the two counters as on the list, and the two
-- tests answer as the list does.
pub refines :
    (f : Bool) (l : List Bool)
    → suc (length l) < no_false
    → (new ≡ of_list [])
      × (is_empty (of_list []) ≡ true)
      × (is_empty (of_list (f ∷ l)) ≡ false)
      × (all_true (of_list l) ≡ conj l)
      × (push_back f (of_list l) ≡ of_list (f ∷ l))
      × (pop_back (of_list (f ∷ l)) ≡ of_list l)
      × (toggle_top (of_list (f ∷ l)) ≡ of_list (not f ∷ l))
unfolding new is_empty all_true push_back pop_back toggle_top of_list first_false
refines f l h = elim (Bool-cases (conj l)) [
  | inl t ↦
      let e : first_false l ≡ no_false = first_false_if_conj l t in
      (refl, refl, ground arith, ground arith, ground arith, ground arith, ground arith)
  | inr t ↦
      let e : first_false l < length l = first_false_if_not_conj l (omega arith) t in
      (refl, refl, ground arith, ground arith, ground arith, ground arith, ground arith)
]
