-- ===== src/Base/Sets.antt =====
-- `HashSet` as a list with no value twice, and membership as a test.
use mathlib.Core.Path.{◌≡◌, refl}
use mathlib.Core.Bool.{Bool, true, false}
use mathlib.Core.List.{List, [], ◌∷◌, ◌++◌}
use native.Mathlib.Omega.{arith}
use cyclone_dds_ws_bridge.Base.Tests.{Eq, ◌==◌, if◌then◌else◌}

module _ {ℓ} {A : Type ℓ} ⦃e : Eq A⦄ where
  unfoldable pub contains : List A → A → Bool
  contains [] a = false
  contains (x ∷ xs) a = if x == a then true else contains xs a

  unfoldable pub set_insert : A → List A → List A
  set_insert a xs = if contains xs a then xs else a ∷ xs

  -- `HashSet::remove`, and `retain(|x| x != a)` of a vector.
  unfoldable pub set_remove : A → List A → List A
  set_remove a [] = []
  set_remove a (x ∷ xs) = let rest = set_remove a xs in if x == a then rest else x ∷ rest

  pub contains-append :
      (xs ys : List A) (a : A)
      → contains (xs ++ ys) a ≡ (if contains xs a then true else contains ys a)
  unfolding contains
  contains-append [] ys a = refl
  contains-append (x ∷ xs) ys a = ground (arith, contains-append xs ys a)

  pub contains-set_insert :
      (a c : A) (xs : List A)
      → contains (set_insert a xs) c ≡ (if a == c then true else contains xs c)
  unfolding contains set_insert
  contains-set_insert a c xs = ground (arith, e.beq_iff a c)

  pub contains-set_remove :
      (a c : A) (xs : List A)
      → contains (set_remove a xs) c ≡ (if a == c then false else contains xs c)
  unfolding contains set_remove
  contains-set_remove a c [] = ground arith
  contains-set_remove a c (x ∷ xs) =
      ground (arith, contains-set_remove a c xs, e.beq_iff x a, e.beq_iff x c, e.beq_iff a c)

  -- No value stands in the list twice.
  unfoldable pub is_set : List A → Bool
  is_set [] = true
  is_set (x ∷ xs) = if contains xs x then false else is_set xs

  pub is_set-set_insert : (a : A) (xs : List A) → is_set (set_insert a xs) ≡ is_set xs
  unfolding is_set set_insert
  is_set-set_insert a xs = ground arith

  pub is_set-set_remove : (a : A) (xs : List A) → is_set xs ≡ true → is_set (set_remove a xs) ≡ true
  unfolding is_set set_remove
  is_set-set_remove a [] h = refl
  is_set-set_remove a (x ∷ xs) h =
      ground (arith, contains-set_remove a x xs, is_set-set_remove a xs, e.beq_iff x a)
