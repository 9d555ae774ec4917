-- ===== src/Store/Keys/History.antt =====
-- src/store.rs, API keys: the stores that a server goes through, as steps of its operations on keys.
use rustspell_server.Base.{ℕ, ◌^◌, ◌<◌, String, ◌≡◌, ◌≢◌, subst, Option, some, List}
use rustspell_server.Store.Data.{Role, Store, Env, Outcome, ok, err, panic}
use rustspell_server.Base.{Bool, ◌∷◌, ◌++◌}
use rustspell_server.Store.Data.{Write}
use rustspell_server.Store.Background.{run_pending}
use rustspell_server.Store.Background.Agreement.{run_pending-Inv}
use rustspell_server.Store.Keys.{reset_bootstrap_platform_key}
use rustspell_server.Store.Keys.Bootstrap.{reset_bootstrap_platform_key-Inv}
use rustspell_server.Store.After.{After}
use rustspell_server.Store.Keys.{
  create_key_internal, revoke_key, rotate_key, authenticate, touch_last_used,
}
use rustspell_server.Store.Keys.Invariant.{FitsI64, Inv, create_key_internal-Inv}
use rustspell_server.Store.Keys.Updates.{revoke_key-Inv, touch_last_used-Inv}
use rustspell_server.Store.Keys.Rotation.{rotate_key-Inv, authenticate-Inv}

-- The store that a call leaves, where it returns.
abbrev pub Leaves {ℓ} : {A : Type ℓ} → Outcome A → Store → Type 0
Leaves (ok a s) t = s ≡ t
Leaves (err e s) t = s ≡ t
Leaves (panic e) t = ⊥

pub After-Leaves {ℓ} :
    {A : Type ℓ} (P : Store → Type 0) (o : Outcome A) (t : Store) → After P o → Leaves o t → P t
After-Leaves P (ok a s) t h l = subst P l h
After-Leaves P (err e s) t h l = subst P l h
After-Leaves P (panic e) t h l = absurd l

module _ (sha256 : String → List ℕ) where
  -- One operation, with times that fit the columns, whether it succeeds or fails.
  pub data KeyStep (s : Store) : Store → Type 0 where
    creates :
        (env : Env) (tenant_id : Option String) (label : String) (role : Role)
        (expires_at : Option ℕ) (t : Store)
        → env.now < 2 ^ 63
        → FitsI64 expires_at
        → tenant_id ≢ some ""
        → Leaves (create_key_internal sha256 env tenant_id label role expires_at s) t
        → KeyStep s t
    revokes :
        (env : Env) (tenant_id id : String) (t : Store)
        → env.now < 2 ^ 63
        → Leaves (revoke_key env tenant_id id s) t
        → KeyStep s t
    rotates :
        (env : Env) (tenant_id id : String) (t : Store)
        → Leaves (rotate_key sha256 env tenant_id id s) t
        → KeyStep s t
    authenticates : (env : Env) (raw_key : String) → KeyStep s (authenticate sha256 env raw_key s).1
    touches : (env : Env) (id : String) → KeyStep s (touch_last_used env id s)
    resets :
        (env : Env) (t : Store)
        → env.now < 2 ^ 63
        → Leaves (reset_bootstrap_platform_key sha256 env s) t
        → KeyStep s t
    persists :
        (reached : Bool) (before : List Write) (w : Write) (after : List Write)
        → s.pending ≡ before ++ (w ∷ after)
        → KeyStep s (run_pending reached before w after s)

  pub data Reachable (s : Store) : Store → Type 0 where
    start : Reachable s s
    step : (t u : Store) → Reachable s t → KeyStep t u → Reachable s u

  KeyStep-Inv : (s t : Store) → Inv s → KeyStep s t → Inv t
  KeyStep-Inv s t v (creates env tenant_id label role expires_at u now_fits exp_fits named l) =
      After-Leaves Inv _ u
        (create_key_internal-Inv sha256 env tenant_id label role expires_at s now_fits exp_fits
          named v)
        l
  KeyStep-Inv s t v (revokes env tenant_id id u now_fits l) =
      After-Leaves Inv _ u (revoke_key-Inv env tenant_id id s now_fits v) l
  KeyStep-Inv s t v (rotates env tenant_id id u l) =
      After-Leaves Inv _ u (rotate_key-Inv sha256 env tenant_id id s v) l
  KeyStep-Inv s t v (authenticates env raw_key) = authenticate-Inv sha256 env raw_key s v
  KeyStep-Inv s t v (touches env id) = touch_last_used-Inv env id s v
  KeyStep-Inv s t v (resets env u now_fits l) =
      After-Leaves Inv _ u (reset_bootstrap_platform_key-Inv sha256 env s now_fits v) l
  KeyStep-Inv s t v (persists reached before w after e) = run_pending-Inv reached before w after s v

  -- From a store where the cache of keys and the table agree, they agree after every sequence of
  -- creations, revocations, rotations, resets of the bootstrap key, authentications and uses of
  -- keys, failed ones included, and of background writes in any order, with times that fit the
  -- columns and no empty tenant id: each cached record stands at its own hash and is, but for the
  -- time of its last use, what the row of that hash reads back as; no hash is cached twice, no two
  -- rows share an id or a hash, and no revocation time is negative.
  pub Reachable-Inv : (s t : Store) → Inv s → Reachable s t → Inv t
  Reachable-Inv s t v start = v
  Reachable-Inv s t v (step u w r k) = KeyStep-Inv u w (Reachable-Inv s u v r) k
