-- ===== src/Store/Keys/Reset.antt =====
-- src/store.rs, API keys: the reset of the bootstrap key leaves one bootstrap key that is accepted.
use rustspell_server.Base.{
  ℕ, String, ◌≡◌, refl, sym, ap, ◌∙◌, ◌≢◌, true, none, some, List, [], ◌∷◌, retain, arith,
  string_eq, option_eq,
}
use rustspell_server.Base.Dict.{values, lookup, no_retained, one_retained}
use rustspell_server.Store.Data.{platform, KeyRecord, is_active, CreatedApiKey, Store, Env, ok}
use rustspell_server.Store.Keys.{
  hash_key, bootstrap_key, create_key_internal, rotate_key_by_hash, reset_bootstrap_platform_key,
  authenticate,
}
use rustspell_server.Store.Keys.Invariant.{Inv, entry}
use rustspell_server.Store.Keys.Updates.{find_entry}
use rustspell_server.Store.Keys.Bootstrap.{find-retain_first}
use rustspell_server.Store.Keys.Lifecycle.{create_key_internal-IsCreated, hit-authenticate}
use rustspell_server.Store.Keys.Rotated.{rotate_key_by_hash-IsRotated}

bootstrap_key-parts :
    (sha256 : String → List ℕ) (now : ℕ) (k : KeyRecord)
    → bootstrap_key sha256 now k ≡ true
    → (k.role ≡ platform) × (is_active k now ≡ true)
bootstrap_key-parts sha256 now k h = ground arith

module _ (sha256 : String → List ℕ) where
  pub record IsReset (now : ℕ) (s : Store) (created : CreatedApiKey) (t : Store) : Type 0 where
    pub is_platform : created.key_record.role ≡ platform
    pub is_live : is_active created.key_record now ≡ true
    pub accepted :
        (later : Env)
        → is_active created.key_record later.now ≡ true
        → authenticate sha256 later created.raw_key t ≡ (some created.key_record, t)
    pub refused :
        (later : Env) (old : String) (k : KeyRecord)
        → lookup (hash_key sha256 old) s.keys ≡ some k
        → bootstrap_key sha256 now k ≡ true
        → hash_key sha256 created.raw_key ≢ hash_key sha256 old
        → authenticate sha256 later old t ≡ (none, t)

  created-IsReset :
      (env : Env) (s t : Store) (created : CreatedApiKey)
      → retain (bootstrap_key sha256 env.now) (values s.keys) ≡ []
      → create_key_internal sha256 env none "bootstrap" platform none s ≡ ok created t
      → IsReset env.now s created t
  unfolding is_active
  created-IsReset env s t created gone e =
      let c =
        create_key_internal-IsCreated sha256 env none "bootstrap" platform none s t created e in
      record {
        is_platform = c.role_is;
        is_live = rw (c.unrevoked, c.expires) refl;
        accepted = λ later live.
            hit-authenticate sha256 later created.raw_key t created.key_record c.entry_is live;
        refused = λ later old k at boot n. absurd (
            no_retained (bootstrap_key sha256 env.now) (hash_key sha256 old) s.keys k at boot gone);
      }

  rotated-IsReset :
      (env : Env) (s t : Store) (j : KeyRecord) (created : CreatedApiKey)
      → Inv s
      → retain (bootstrap_key sha256 env.now) (values s.keys) ≡ j ∷ []
      → rotate_key_by_hash sha256 env j.key_hash j.id s ≡ ok created t
      → IsReset env.now s created t
  unfolding is_active
  rotated-IsReset env s t j created v one e =
      let (at_j, boot_j) =
        find_entry s (bootstrap_key sha256 env.now) j v
          (find-retain_first (bootstrap_key sha256 env.now) (values s.keys) [] j one) in
      let r = rotate_key_by_hash-IsRotated sha256 env s t j created v at_j e in
      record {
        is_platform = ap (λ i. i.role) r.same_key ∙ (bootstrap_key-parts sha256 env.now j boot_j).0;
        is_live =
            ap (λ i. is_active i env.now) r.same_key
            ∙ (bootstrap_key-parts sha256 env.now j boot_j).1;
        accepted = λ later live.
            r.accepted later (sym (ap (λ i. is_active i later.now) r.same_key) ∙ live);
        refused = λ later old k at boot n.
            let same : k ≡ j =
              one_retained (bootstrap_key sha256 env.now) (hash_key sha256 old) s.keys k j at boot
                one in
            let hash_is = (entry s (hash_key sha256 old) k v at).hash_is in
            r.refused later old (sym hash_is ∙ ap (λ i. i.key_hash) same)
              (λ q. n (q ∙ sym (ap (λ i. i.key_hash) same) ∙ hash_is));
      }

  pub reset_bootstrap_platform_key-IsReset :
      (env : Env) (s t : Store) (created : CreatedApiKey)
      → Inv s
      → reset_bootstrap_platform_key sha256 env s ≡ ok created t
      → IsReset env.now s created t
  unfolding reset_bootstrap_platform_key
  reset_bootstrap_platform_key-IsReset env s t created v e =
      reset (retain (bootstrap_key sha256 env.now) (values s.keys)) refl
    where
      reset :
          (ks : List KeyRecord)
          → retain (bootstrap_key sha256 env.now) (values s.keys) ≡ ks
          → IsReset env.now s created t
      reset [] p = created-IsReset env s t created p (rw (p, reset_bootstrap_platform_key) at e)
      reset (k ∷ []) p =
          rotated-IsReset env s t k created v p (rw (p, reset_bootstrap_platform_key) at e)
      reset (k ∷ j ∷ ks) p = absurd (cc (rw (p, reset_bootstrap_platform_key) at e))

  -- Where cache and table agree, a text's cached key is an active bootstrap key and a reset succeeds
  -- with a raw value of another hash: the reset returns a platform key that is active then; at a
  -- time at which that key is active the store accepts the new raw value as it; and the store
  -- refuses the old text at that time.
  pub reset_bootstrap_platform_key-authenticate :
      (env later : Env) (old : String) (s t : Store) (k : KeyRecord) (created : CreatedApiKey)
      → Inv s
      → lookup (hash_key sha256 old) s.keys ≡ some k
      → bootstrap_key sha256 env.now k ≡ true
      → reset_bootstrap_platform_key sha256 env s ≡ ok created t
      → hash_key sha256 created.raw_key ≢ hash_key sha256 old
      → is_active created.key_record later.now ≡ true
      → (created.key_record.role ≡ platform)
        × (is_active created.key_record env.now ≡ true)
        × (authenticate sha256 later created.raw_key t ≡ (some created.key_record, t))
        × (authenticate sha256 later old t ≡ (none, t))
  reset_bootstrap_platform_key-authenticate env later old s t k created v at boot e new live =
      let r = reset_bootstrap_platform_key-IsReset env s t created v e in
      (r.is_platform, r.is_live, r.accepted later live, r.refused later old k at boot new)
