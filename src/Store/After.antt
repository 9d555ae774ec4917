-- ===== src/Store/After.antt =====
-- src/store.rs: what holds of the store after a call, whichever way the call ends.
use rustspell_server.Base.{String, ◌≡◌, refl, subst, Bool, true, false, Option, none, some}
use rustspell_server.Store.Data.{
  Db, Store, Outcome, ok, err, panic, M, ◌>>=◌, ◌>>◌, commit, execute,
}

abbrev pub After {ℓ κ} : {A : Type ℓ} → (Store → Type κ) → Outcome A → Type κ
After P (ok a s) = P s
After P (err e s) = P s
After P (panic e) = Unit

-- A statement, then the rest of a call: a failed statement changes nothing and ends the call.
pub execute-After {ℓ κ} :
    {B : Type ℓ} (P : Store → Type κ) (reached : Bool) (f : Db → Option Db) (rest : M B) (s : Store)
    → P s
    → ((db : Db) → f s.db ≡ some db → After P (rest (record s { db = db })))
    → After P ((execute reached f >> rest) s)
execute-After P false f rest s h k = h
execute-After P true f rest s h k = go (f s.db) refl
  where
    go : (o : Option Db) → f s.db ≡ o → After P ((commit o >> rest) s)
    go none e = h
    go (some db) e = k db e

After-bind_go {ℓ κ μ} :
    {A : Type ℓ} {B : Type μ} (P : Store → Type κ) (o : Outcome A) (f : A → M B)
    → After P o
    → ((a : A) (t : Store) → P t → After P (f a t))
    → (s : Store) → After P (((λ t. o) >>= f) s)
After-bind_go P (ok a s) f h k t = k a s h
After-bind_go P (err e s) f h k t = h
After-bind_go P (panic e) f h k t = tt

-- A call, then the rest.
pub After-bind {ℓ κ μ} :
    {A : Type ℓ} {B : Type μ} (P : Store → Type κ) (m : M A) (f : A → M B) (s : Store)
    → After P (m s)
    → ((a : A) (t : Store) → P t → After P (f a t))
    → After P ((m >>= f) s)
After-bind P m f s h k = After-bind_go P (m s) f h k s

-- A call that begins with a statement and succeeds: the statement passed, and the rest succeeded.
pub execute-eq-ok {ℓ} :
    {B : Type ℓ} (reached : Bool) (f : Db → Option Db) (rest : M B) (s : Store) (b : B) (t : Store)
    → (execute reached f >> rest) s ≡ ok b t
    → (db : Db) × (f s.db ≡ some db) × (rest (record s { db = db }) ≡ ok b t)
execute-eq-ok false f rest s b t e = absurd (cc)
execute-eq-ok true f rest s b t e = go (f s.db) refl e
  where
    go :
        (o : Option Db)
        → f s.db ≡ o
        → (commit o >> rest) s ≡ ok b t
        → (db : Db) × (f s.db ≡ some db) × (rest (record s { db = db }) ≡ ok b t)
    go none p h = absurd (cc)
    go (some db) p h = (db, p, h)

abbrev pub Returns {ℓ κ} : {A : Type ℓ} → (A → Store → Type κ) → Outcome A → Type κ
Returns Q (ok a s) = Q a s
Returns Q (err e s) = Unit
Returns Q (panic e) = Unit

-- What holds of a result that was computed holds of it under another name.
pub on_ok {ℓ κ} :
    {A : Type ℓ} (Q : A → Store → Type κ) {o : Outcome A} {a : A} {s : Store}
    → o ≡ ok a s
    → Returns Q o
    → Q a s
on_ok Q e q = subst (Returns Q) e q

pub bind-eq-ok {ℓ κ} :
    {A : Type ℓ} {B : Type κ} (m : M A) (f : A → M B) (s : Store) (b : B) (t : Store)
    → (m >>= f) s ≡ ok b t
    → (a : A) × (u : Store) × (m s ≡ ok a u) × (f a u ≡ ok b t)
bind-eq-ok {A} m f s b t e = go (m s) refl e
  where
    go :
        (o : Outcome A)
        → m s ≡ o
        → ((λ _. o) >>= f) s ≡ ok b t
        → (a : A) × (u : Store) × (m s ≡ ok a u) × (f a u ≡ ok b t)
    go (ok a u) p h = (a, u, p, h)
    go (err e u) p h = absurd (cc)
    go (panic e) p h = absurd (cc)

-- A statement, then the rest of a call, seen from its outcome.
pub execute_cases {ℓ κ} :
    {B : Type ℓ} (P : Outcome B → Type κ) (reached : Bool) (f : Db → Option Db) (rest : M B)
    (s : Store)
    → ((e : String) → P (err e s))
    → ((db : Db) → f s.db ≡ some db → P (rest (record s { db = db })))
    → P ((execute reached f >> rest) s)
execute_cases P false f rest s h k = h _
execute_cases P true f rest s h k = go (f s.db) refl
  where
    go : (o : Option Db) → f s.db ≡ o → P ((commit o >> rest) s)
    go none e = h _
    go (some db) e = k db e
