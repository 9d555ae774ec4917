-- ===== src/Base/Dict/Group.antt =====
-- A `HashMap` that a loop fills with `entry(key).or_insert(…)`: one entry for each key of the items.
use mathlib.Core.Path.{◌≡◌, refl, ap, ◌∙◌}
use mathlib.Core.Bool.{◌||◌}
use mathlib.Core.Option.{Option, none, some}
use mathlib.Core.List.{List, [], ◌∷◌}
use native.Mathlib.Omega.{arith}
use rustspell_server.Base.Tests.{if◌then◌else◌}
use rustspell_server.Base.Lists.{any}
use rustspell_server.Base.Equality.{Eq, ◌==◌}
use rustspell_server.Base.Dict.{Dict, lookup, insert, lookup-insert, contains_key}
use rustspell_server.Base.Dict.Distinct.{IsDistinct, insert-IsDistinct}

abbrev pub or_else {ℓ} : {V : Type ℓ} → V → Option V → V
or_else v none = v
or_else v (some w) = w

module _ {ℓ κ μ} {R : Type ℓ} {K : Type κ} {V : Type μ} ⦃e : Eq K⦄ (key : R → K) (zero : V)
    (add : R → V → V) where
  unfoldable pub group_into : List R → Dict K V → Dict K V
  group_into [] m = m
  group_into (r ∷ rs) m = group_into rs (insert (key r) (add r (or_else zero (lookup (key r) m))) m)

  -- The same loop over the items of one key.
  unfoldable pub fold_key : K → List R → V → V
  fold_key k [] v = v
  fold_key k (r ∷ rs) v = fold_key k rs (if key r == k then add r v else v)

  pub lookup-group_into :
      (k : K) (rs : List R) (m : Dict K V)
      → or_else zero (lookup k (group_into rs m)) ≡ fold_key k rs (or_else zero (lookup k m))
  unfolding group_into fold_key
  lookup-group_into k [] m = refl
  lookup-group_into k (r ∷ rs) m =
      lookup-group_into k rs _
      ∙ ap (fold_key k rs) (rw (lookup-insert (key r) k _ m) (ground (arith, e.test_iff (key r) k)))

  pub contains_key-group_into :
      (k : K) (rs : List R) (m : Dict K V)
      → contains_key k (group_into rs m) ≡ (any (λ r. key r == k) rs || contains_key k m)
  unfolding group_into
  contains_key-group_into k [] m = refl
  contains_key-group_into k (r ∷ rs) m =
      contains_key-group_into k rs _ ∙ rw (lookup-insert (key r) k _ m) (ground arith)

  pub group_into-IsDistinct :
      (rs : List R) (m : Dict K V) → IsDistinct m → IsDistinct (group_into rs m)
  unfolding group_into
  group_into-IsDistinct [] m d = d
  group_into-IsDistinct (r ∷ rs) m d = group_into-IsDistinct rs _ (insert-IsDistinct _ _ m d)
