-- ===== src/Base/Dict.antt =====
-- `HashMap` as an association list: one entry for each key once it was built by `insert`.
-- Iteration goes through the entries in the list's order; the program fixes no order.
pub mod Distinct
pub mod Group
use Prim.Native.Nat.{ℕ}
use mathlib.Core.Path.{◌≡◌, refl}
use mathlib.Core.Logic.{◌≢◌}
use mathlib.Core.Bool.{Bool, true, false, not}
use mathlib.Core.Option.{Option, none, some}
use mathlib.Core.List.{List, [], ◌∷◌, map}
use native.Mathlib.Omega.{arith}
use rustspell_server.Base.Tests.{if◌then◌else◌, is_some}
use rustspell_server.Base.Lists.{All, any, retain}
use rustspell_server.Base.Equality.{Eq, ◌==◌}

abbrev pub Dict {ℓ κ} : Type ℓ → Type κ → Type (ℓ ⊔ κ)
Dict K V = List (K × V)

abbrev pub values {ℓ κ} : {K : Type ℓ} {V : Type κ} → Dict K V → List V
values [] = []
values ((k, v) ∷ m) = v ∷ values m

abbrev pub option_map {ℓ κ} : {V : Type ℓ} {W : Type κ} → (V → W) → Option V → Option W
option_map f none = none
option_map f (some v) = some (f v)

module _ {ℓ κ} {K : Type ℓ} ⦃e : Eq K⦄ {V : Type κ} where
  -- `get`
  unfoldable pub lookup : K → Dict K V → Option V
  lookup key [] = none
  lookup key ((own, value) ∷ rest) = if own == key then some value else lookup key rest

  unfoldable pub insert : K → V → Dict K V → Dict K V
  insert key value [] = (key, value) ∷ []
  insert key value ((own, old) ∷ rest) =
      if own == key then (key, value) ∷ rest else (own, old) ∷ insert key value rest

  unfoldable pub remove : K → Dict K V → Dict K V
  remove k [] = []
  remove k ((j, w) ∷ m) = if j == k then remove k m else (j, w) ∷ remove k m

  -- A write through `get_mut`, which does nothing on a missing key.
  unfoldable pub modify : K → (V → V) → Dict K V → Dict K V
  modify k f [] = []
  modify k f ((j, w) ∷ m) = if j == k then (j, f w) ∷ m else (j, w) ∷ modify k f m

  abbrev pub contains_key : K → Dict K V → Bool
  contains_key k m = is_some (lookup k m)

  pub lookup-insert :
      (key other : K) (value : V) (m : Dict K V)
      → lookup other (insert key value m) ≡ (if key == other then some value else lookup other m)
  unfolding insert lookup
  lookup-insert key other value [] = refl
  lookup-insert key other value ((own, old) ∷ rest) =
      let later = lookup-insert key other value rest in
      ground (arith, later, e.test_iff own key, e.test_iff own other, e.test_iff key other)

  pub lookup-remove :
      (k j : K) (m : Dict K V) → lookup j (remove k m) ≡ (if k == j then none else lookup j m)
  unfolding lookup remove
  lookup-remove k j [] = ground arith
  lookup-remove k j ((i, w) ∷ m) =
      ground (arith, e.test_iff k j, e.test_iff i k, e.test_iff i j, lookup-remove k j m)

  pub lookup-modify :
      (k j : K) (f : V → V) (m : Dict K V)
      → lookup j (modify k f m) ≡ (if k == j then option_map f (lookup k m) else lookup j m)
  unfolding lookup modify
  lookup-modify k j f [] = ground arith
  lookup-modify k j f ((i, w) ∷ m) =
      ground (arith, e.test_iff k j, e.test_iff i k, e.test_iff i j, lookup-modify k j f m)

  -- A value at some key is among the values.
  pub any-lookup :
      (p : V → Bool) (k : K) (m : Dict K V) (v : V)
      → lookup k m ≡ some v
      → p v ≡ true
      → any p (values m) ≡ true
  unfolding lookup
  any-lookup p k [] v e h = absurd (cc)
  any-lookup p k ((i, w) ∷ m) v e h = ground (arith, any-lookup p k m v)

  pub no_retained :
      (p : V → Bool) (k : K) (m : Dict K V) (v : V)
      → lookup k m ≡ some v
      → p v ≡ true
      → retain p (values m) ≢ []
  unfolding lookup
  no_retained p k [] v e h r = cc
  no_retained p k ((i, w) ∷ m) v e h r = ground (arith, no_retained p k m v)

  -- Where one value alone passes, a value at some key that passes is that one.
  pub one_retained :
      (p : V → Bool) (k : K) (m : Dict K V) (v w : V)
      → lookup k m ≡ some v
      → p v ≡ true
      → retain p (values m) ≡ w ∷ []
      → v ≡ w
  unfolding lookup
  one_retained p k [] v w e h r = absurd (cc)
  one_retained p k ((i, x) ∷ m) v w e h r =
      ground (arith, no_retained p k m v, one_retained p k m v w)
