-- ===== src/Base/Assoc.antt =====
-- `HashMap` as an association list with at most one entry for a key: the order of the list is the
-- order in which the map is iterated, which the program leaves open.
use mathlib.Core.Path.{◌≡◌, refl, ◌∙◌}
use mathlib.Core.Bool.{Bool, true, false, ◌&&◌}
use mathlib.Core.Option.{Option, none, some}
use mathlib.Core.List.{List, [], ◌∷◌}
use native.Mathlib.Omega.{arith}
use cyclone_dds_ws_bridge.Base.Tests.{Eq, ◌==◌, if◌then◌else◌}
use cyclone_dds_ws_bridge.Base.Sets.{contains}

abbrev pub Assoc {ℓ κ} : Type ℓ → Type κ → Type (ℓ ⊔ κ)
Assoc K V = List (K × V)

abbrev pub is_none {ℓ} : {V : Type ℓ} → Option V → Bool
is_none none = true
is_none (some v) = false

module _ {ℓ κ} {K : Type ℓ} {V : Type κ} ⦃e : Eq K⦄ where
  unfoldable pub lookup : K → Assoc K V → Option V
  lookup k [] = none
  lookup k ((j, v) ∷ m) = if j == k then some v else lookup k m

  unfoldable pub without : K → Assoc K V → Assoc K V
  without k [] = []
  without k ((j, v) ∷ m) = let rest = without k m in if j == k then rest else (j, v) ∷ rest

  unfoldable pub insert : K → V → Assoc K V → Assoc K V
  unfolding without
  insert k v m = (k, v) ∷ without k m

  pub lookup-without :
      (k j : K) (m : Assoc K V) → lookup j (without k m) ≡ (if k == j then none else lookup j m)
  unfolding lookup without
  lookup-without k j [] = ground arith
  lookup-without k j ((i, v) ∷ m) =
      ground (arith, lookup-without k j m, e.beq_iff i k, e.beq_iff i j, e.beq_iff k j)

  pub lookup-insert :
      (k j : K) (v : V) (m : Assoc K V)
      → lookup j (insert k v m) ≡ (if k == j then some v else lookup j m)
  unfolding lookup insert
  lookup-insert k j v m = ground (arith, lookup-without k j m)

  -- `for k in ks { map.remove(k) }`
  unfoldable pub without_all : List K → Assoc K V → Assoc K V
  without_all [] m = m
  without_all (k ∷ ks) m = without_all ks (without k m)

  pub lookup-without_all :
      (ks : List K) (j : K) (m : Assoc K V)
      → lookup j (without_all ks m) ≡ (if contains ks j then none else lookup j m)
  unfolding without_all contains
  lookup-without_all [] j m = refl
  lookup-without_all (k ∷ ks) j m =
      lookup-without_all ks j (without k m) ∙ ground (arith, lookup-without k j m)

  -- No key has two entries.
  unfoldable pub is_map : Assoc K V → Bool
  is_map [] = true
  is_map ((k, v) ∷ m) = is_none (lookup k m) && is_map m

  pub is_map-without : (k : K) (m : Assoc K V) → is_map m ≡ true → is_map (without k m) ≡ true
  unfolding is_map without
  is_map-without k [] h = refl
  is_map-without k ((j, v) ∷ m) h = ground (arith, lookup-without k j m, is_map-without k m)

  pub is_map-insert :
      (k : K) (v : V) (m : Assoc K V) → is_map m ≡ true → is_map (insert k v m) ≡ true
  unfolding is_map insert
  is_map-insert k v m h = ground (arith, lookup-without k k m, is_map-without k m, e.beq_iff k k)

  pub is_map-without_all :
      (ks : List K) (m : Assoc K V) → is_map m ≡ true → is_map (without_all ks m) ≡ true
  unfolding without_all
  is_map-without_all [] m h = h
  is_map-without_all (k ∷ ks) m h = is_map-without_all ks (without k m) (is_map-without k m h)
