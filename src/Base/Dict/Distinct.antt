-- ===== src/Base/Dict/Distinct.antt =====
-- Dictionaries that hold one entry for each key, as every dictionary built by the operations does.
use rustspell_server.Base.Tests.{Bool-cases}
use rustspell_server.Base.Lists.{All, find, retain}
use rustspell_server.Base.Equality.{Eq, ◌==◌}
use mathlib.Core.Path.{◌≡◌, refl}
use mathlib.Core.Bool.{Bool, true, false}
use mathlib.Core.Logic.{inl, inr}
use mathlib.Core.Option.{none, some}
use mathlib.Core.List.{[], ◌∷◌}
use native.Mathlib.Omega.{arith}
use rustspell_server.Base.Dict.{Dict, values, lookup, insert, remove, modify}

module _ {ℓ κ} {K : Type ℓ} ⦃e : Eq K⦄ {V : Type κ} where
  abbrev pub Absent : K → Dict K V → Type 0
  Absent k [] = Unit
  Absent k ((j, w) ∷ m) = ((j == k) ≡ false) × Absent k m

  abbrev pub IsDistinct : Dict K V → Type 0
  IsDistinct [] = Unit
  IsDistinct ((k, v) ∷ m) = Absent k m × IsDistinct m

  Absent-insert :
      (k j : K) (v : V) (m : Dict K V) → (k == j) ≡ false → Absent j m → Absent j (insert k v m)
  unfolding insert
  Absent-insert k j v [] h a = (h, tt)
  Absent-insert k j v ((i, w) ∷ m) h a = ground (arith, Absent-insert k j v m h a.1)

  pub insert-IsDistinct : (k : K) (v : V) (m : Dict K V) → IsDistinct m → IsDistinct (insert k v m)
  unfolding insert
  insert-IsDistinct k v [] d = (tt, tt)
  insert-IsDistinct k v ((i, w) ∷ m) d =
      ground
        (arith, e.test_iff i k, e.test_iff k i, Absent-insert k i v m, insert-IsDistinct k v m d.1)

  Absent-remove : (k j : K) (m : Dict K V) → Absent j m → Absent j (remove k m)
  unfolding remove
  Absent-remove k j [] a = tt
  Absent-remove k j ((i, w) ∷ m) a = ground (arith, Absent-remove k j m a.1)

  pub remove-IsDistinct : (k : K) (m : Dict K V) → IsDistinct m → IsDistinct (remove k m)
  unfolding remove
  remove-IsDistinct k [] d = tt
  remove-IsDistinct k ((i, w) ∷ m) d =
      ground (arith, Absent-remove k i m d.0, remove-IsDistinct k m d.1)

  Absent-modify : (k j : K) (f : V → V) (m : Dict K V) → Absent j m → Absent j (modify k f m)
  unfolding modify
  Absent-modify k j f [] a = tt
  Absent-modify k j f ((i, w) ∷ m) a = ground (arith, Absent-modify k j f m a.1)

  pub modify-IsDistinct :
      (k : K) (f : V → V) (m : Dict K V) → IsDistinct m → IsDistinct (modify k f m)
  unfolding modify
  modify-IsDistinct k f [] d = tt
  modify-IsDistinct k f ((i, w) ∷ m) d =
      ground (arith, Absent-modify k i f m d.0, modify-IsDistinct k f m d.1)

  Absent-retain : (p : K × V → Bool) (j : K) (m : Dict K V) → Absent j m → Absent j (retain p m)
  Absent-retain p j [] a = tt
  Absent-retain p j ((i, w) ∷ m) a = ground (arith, Absent-retain p j m a.1)

  pub retain-IsDistinct : (p : K × V → Bool) (m : Dict K V) → IsDistinct m → IsDistinct (retain p m)
  retain-IsDistinct p [] d = tt
  retain-IsDistinct p ((i, w) ∷ m) d =
      ground (arith, Absent-retain p i m d.0, retain-IsDistinct p m d.1)

  pub lookup-Absent : (k : K) (m : Dict K V) → Absent k m → lookup k m ≡ none
  unfolding lookup
  lookup-Absent k [] a = refl
  lookup-Absent k ((i, w) ∷ m) a = ground (arith, lookup-Absent k m a.1)

  -- A value that a search of the values finds is the one at its key.
  pub find-values :
      (p : V → Bool) (m : Dict K V) (v : V)
      → IsDistinct m
      → find p (values m) ≡ some v
      → (k : K) × (lookup k m ≡ some v) × (p v ≡ true)
  unfolding lookup
  find-values p [] v d h = absurd (cc)
  find-values p ((i, w) ∷ m) v d h = elim (Bool-cases (p w)) [
    | inl hit ↦ (i, ground (arith, e.test_iff i i), ground arith)
    | inr miss ↦
        let (k, there, holds) = find-values p m v d.1 (ground arith) in
        (k, ground (arith, e.test_iff i k, lookup-Absent k m), holds)
  ]

  pub lookup-retain :
      (p : K × V → Bool) (k : K) (m : Dict K V) (v : V)
      → IsDistinct m
      → lookup k (retain p m) ≡ some v
      → (lookup k m ≡ some v) × (p (k, v) ≡ true)
  unfolding lookup
  lookup-retain p k [] v d h = absurd (cc)
  lookup-retain p k ((i, w) ∷ m) v d h =
      ground (arith, e.test_iff i k, lookup-retain p k m v d.1, lookup-Absent i m d.0)

  -- Every value of a dictionary is the one at some key.
  pub All-values {μ} :
      (P : V → Type μ) (m : Dict K V)
      → IsDistinct m
      → ((k : K) (v : V) → lookup k m ≡ some v → P v)
      → All P (values m)
  unfolding lookup
  All-values P [] d h = tt
  All-values P ((i, w) ∷ m) d h = (
    h i w (ground (arith, e.test_iff i i)),
    All-values P m d.1 (λ k v q. h k v (ground (arith, e.test_iff i k, lookup-Absent k m))),
  )
