-- ===== src/Store/Keys/Bootstrap.antt =====
-- src/store.rs: the reset of the bootstrap key keeps the cache of keys and the table in agreement.
use rustspell_server.Base.{
  ℕ, ◌^◌, ◌<◌, String, ◌≡◌, ◌≢◌, refl, Bool, Option, none, some, List, [], ◌∷◌, find, retain, arith,
  string_eq, option_eq,
}
use rustspell_server.Base.Dict.{values}
use rustspell_server.Store.Data.{platform, KeyRecord, Store, Env}
use rustspell_server.Store.After.{After}
use rustspell_server.Store.Keys.{bootstrap_key, reset_bootstrap_platform_key}
use rustspell_server.Store.Keys.Invariant.{Inv, create_key_internal-Inv}
use rustspell_server.Store.Keys.Updates.{find_entry}
use rustspell_server.Store.Keys.Rotation.{rotate_key_by_hash-Inv}

pub find-retain_first {ℓ} :
    {A : Type ℓ} (p : A → Bool) (xs ys : List A) (x : A) → retain p xs ≡ x ∷ ys → find p xs ≡ some x
find-retain_first p [] ys x e = absurd (cc)
find-retain_first p (z ∷ xs) ys x e = ground (arith, find-retain_first p xs ys x)

pub none_named : ◌≢◌ {A = Option String} none (some "")
none_named e = cc

pub reset_bootstrap_platform_key-Inv :
    (sha256 : String → List ℕ) (env : Env) (s : Store)
    → env.now < 2 ^ 63
    → Inv s
    → After Inv (reset_bootstrap_platform_key sha256 env s)
unfolding reset_bootstrap_platform_key
reset_bootstrap_platform_key-Inv sha256 env s fits v =
    reset (retain (bootstrap_key sha256 env.now) (values s.keys)) refl
  where
    reset :
        (ks : List KeyRecord)
        → retain (bootstrap_key sha256 env.now) (values s.keys) ≡ ks
        → After Inv (reset_bootstrap_platform_key sha256 env s)
    reset [] e =
        rw (e, reset_bootstrap_platform_key)
          (create_key_internal-Inv sha256 env none "bootstrap" platform none s fits tt none_named v)
    reset (k ∷ []) e =
        rw (e, reset_bootstrap_platform_key)
          (rotate_key_by_hash-Inv sha256 env k s
            (find_entry s (bootstrap_key sha256 env.now) k v
              (find-retain_first (bootstrap_key sha256 env.now) (values s.keys) [] k e)).0
            v)
    reset (k ∷ j ∷ ks) e = rw (e, reset_bootstrap_platform_key) v
