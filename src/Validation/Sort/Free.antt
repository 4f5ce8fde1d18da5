-- ===== src/Validation/Sort/Free.antt =====
-- The number of steps that are not on the stack of visits bounds the depth of the recursion; and
-- what `remove` does to the stack.
use kubernetes_workflow.Base.{
  ℕ, suc, ◌≤◌, ◌<◌, String, List, [], ◌∷◌, false, member, length, In, ◌≡◌, refl, arith, eq_iff,
  if◌then◌else◌, inl, inr,
}
use kubernetes_workflow.Validation.Sort.{SortState, remove, unwind}

pub free : List String → List String → ℕ
free [] stack = 0
free (k ∷ ks) stack = if member k stack then free ks stack else suc (free ks stack)

pub free-le-length : (ks stack : List String) → free ks stack ≤ length ks
unfolding free
free-le-length [] stack = omega arith
free-le-length (k ∷ ks) stack = ground (arith, free-le-length ks stack)

pub free-push_le : (ks stack : List String) (n : String) → free ks (n ∷ stack) ≤ free ks stack
unfolding free member
free-push_le [] stack n = omega arith
free-push_le (k ∷ ks) stack n = ground (arith, free-push_le ks stack n)

pub free-push_lt :
    (ks stack : List String) (n : String)
    → In n ks
    → member n stack ≡ false
    → free ks (n ∷ stack) < free ks stack
unfolding free member
free-push_lt [] stack n m h = absurd m
free-push_lt (k ∷ ks) stack n (inl e) h = ground (arith, eq_iff k n, free-push_le ks stack n)
free-push_lt (k ∷ ks) stack n (inr m) h = ground (arith, eq_iff k n, free-push_lt ks stack n m)

remove-absent : (n : String) (xs : List String) → member n xs ≡ false → remove n xs ≡ xs
unfolding remove member
remove-absent n [] h = refl
remove-absent n (x ∷ xs) h = ground (arith, remove-absent n xs)

pub remove-push : (n : String) (xs : List String) → member n xs ≡ false → remove n (n ∷ xs) ≡ xs
unfolding remove
remove-push n xs h = ground (arith, eq_iff n n, remove-absent n xs)

pub is_cyclic-unwind : (n : String) (s : SortState) → (unwind n s).is_cyclic ≡ s.is_cyclic
unfolding unwind
is_cyclic-unwind n s = ground arith
