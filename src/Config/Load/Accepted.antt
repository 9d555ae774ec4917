-- ===== src/Config/Load/Accepted.antt =====
-- src/config.rs: what holds of every configuration that is accepted.
use rustspell_server.Base.{
  ℕ, ◌≤◌, String, ◌<>◌, ◌≡◌, ◌≢◌, refl, ap, ◌∙◌, subst, inl, inr, true, Option, none, some, List,
  [], ◌∷◌, map, arith, eqb, eqb_iff, Option-cases, Bool-cases,
}
use rustspell_server.Base.Text.{starts_with_trans, parse_uint, parse_uint-bound, is_empty}
use rustspell_server.Base.Anyhow.{value, OnValue, bind-OnValue}
use rustspell_server.Config.Cidr.{IpAddr, Cidr, parse}
use rustspell_server.Config.Load.{
  Var, present, not_present, not_unicode, Vars, or_bail, parse_env_or, entries, collect,
  parse_cidr_list, Config, distinct_ports, is_postgres, checked_url, db_url_of, load,
}
use rustspell_server.Store.Open.{max_connections}

-- The entries that a variable lists.
abbrev pub listed : Var → List String
listed (present text) = entries text
listed _ = []

abbrev pub Pooled : Option String → Type 0
Pooled none = Unit
Pooled (some url) = max_connections url ≡ 10

abbrev pub Reads : (String → Option IpAddr) → List String → List Cidr → Type 0
Reads parse_ip es cs = map (parse parse_ip) es ≡ map some cs

parse_env_or-bound :
    (vars : Vars) (bound : ℕ) (name : String) (default : ℕ)
    → default ≤ bound
    → OnValue (λ n. n ≤ bound) (parse_env_or vars bound name default)
unfolding parse_env_or
parse_env_or-bound vars bound name default fits = go (vars name) refl
  where
    read :
        (text : String) (o : Option ℕ)
        → parse_uint bound text ≡ o
        → OnValue (λ n. n ≤ bound) (or_bail ("invalid " <> name) o)
    read text none e = tt
    read text (some n) e = parse_uint-bound bound text n e

    go : (v : Var) → vars name ≡ v → OnValue (λ n. n ≤ bound) (parse_env_or vars bound name default)
    go (present text) e = rw (e, parse_env_or) (read text _ refl)
    go not_present e = rw (e, parse_env_or) fits
    go (not_unicode _) e = rw (e, parse_env_or) tt

module _ (parse_ip : String → Option IpAddr) where
  collect-Reads :
      (name : String) (es : List String) → OnValue (Reads parse_ip es) (collect parse_ip name es)
  unfolding collect
  collect-Reads name [] = refl
  collect-Reads name (e ∷ es) = elim (Option-cases (parse parse_ip e)) [
    | inl p ↦ rw (p, collect) tt
    | inr (c, p) ↦
        rw (p, collect)
          (bind-OnValue (Reads parse_ip es) (Reads parse_ip (e ∷ es)) (collect parse_ip name es)
            (λ cs. value (c ∷ cs)) (collect-Reads name es)
            (λ cs r. ap (λ o. o ∷ map (parse parse_ip) es) p ∙ ap (λ os. some c ∷ os) r))
  ]

  parse_cidr_list-Reads :
      (vars : Vars) (name : String)
      → OnValue (Reads parse_ip (listed (vars name))) (parse_cidr_list parse_ip vars name)
  unfolding parse_cidr_list
  parse_cidr_list-Reads vars name = go (vars name) refl
    where
      go :
          (v : Var)
          → vars name ≡ v
          → OnValue (Reads parse_ip (listed (vars name))) (parse_cidr_list parse_ip vars name)
      go (present text) e = rw (e, parse_cidr_list) (collect-Reads name (entries text))
      go not_present e = rw (e, parse_cidr_list) refl
      go (not_unicode _) e = rw (e, parse_cidr_list) tt

postgres_pooled : (url : String) → is_postgres url ≡ true → max_connections url ≡ 10
postgres_pooled url h = ground (
  arith,
  starts_with_trans "postgres" "postgres://" url refl,
  starts_with_trans "postgres" "postgresql://" url refl,
)

db_url_of-Pooled : (v : Var) → OnValue Pooled (db_url_of v)
unfolding db_url_of
db_url_of-Pooled (present url) = elim (Bool-cases (is_empty url)) [
  | inl blank ↦ rw (blank, checked_url) tt
  | inr full ↦ elim (Bool-cases (is_postgres url)) [
    | inl there ↦ rw (full, there, checked_url) (postgres_pooled url there)
    | inr other ↦ rw (full, other, checked_url) tt
  ]
]
db_url_of-Pooled not_present = tt
db_url_of-Pooled (not_unicode _) = tt

distinct_ports-ne : (p q : ℕ) → OnValue (λ _. p ≢ q) (distinct_ports p q)
distinct_ports-ne p q = elim (Bool-cases (eqb p q)) [
  | inl same ↦ rw (same, distinct_ports) tt
  | inr other ↦ rw (other, distinct_ports) (λ e. ground (arith, eqb_iff p q))
]

module _ (parse_ip : String → Option IpAddr) (vars : Vars) where
  pub record IsAccepted (c : Config) : Type 0 where
    pub ports_differ : c.port ≢ c.metrics_port
    pub port_fits : c.port ≤ 65535
    pub metrics_port_fits : c.metrics_port ≤ 65535
    pub max_fits : c.auth_rate_limit_max ≤ 4294967295
    pub pooled : Pooled c.db_url
    pub admins :
        Reads parse_ip (listed (vars "RUSTSPELL_DICTIONARY_ADMIN_CIDRS")) c.dictionary_admin_cidrs
    pub proxies : Reads parse_ip (listed (vars "RUSTSPELL_TRUSTED_PROXIES")) c.trusted_proxies

  load-OnValue :
      (dictionary_dir db_path : String)
      → OnValue IsAccepted (load parse_ip dictionary_dir db_path vars)
  unfolding load
  load-OnValue dictionary_dir db_path =
      bind-OnValue (λ n. n ≤ 65535) IsAccepted _ _
        (parse_env_or-bound vars 65535 "RUSTSPELL_PORT" 3000 (omega arith))
        λ port port_fits.
          bind-OnValue (λ n. n ≤ 65535) IsAccepted _ _
            (parse_env_or-bound vars 65535 "RUSTSPELL_METRICS_PORT" 9090 (omega arith))
            λ metrics_port metrics_fits.
              bind-OnValue (λ _. port ≢ metrics_port) IsAccepted _ _
                (distinct_ports-ne port metrics_port)
                λ _ differ.
                  bind-OnValue Pooled IsAccepted _ _ (db_url_of-Pooled (vars "RUSTSPELL_DB_URL"))
                    λ db_url pooled.
                      bind-OnValue (λ n. n ≤ 18446744073709551615) IsAccepted _ _
                        (parse_env_or-bound vars 18446744073709551615
                          "RUSTSPELL_REFRESH_INTERVAL_HOURS" 24 (omega arith))
                        λ hours _.
                          bind-OnValue (λ n. n ≤ 4294967295) IsAccepted _ _
                            (parse_env_or-bound vars 4294967295 "RUSTSPELL_AUTH_RATE_LIMIT_MAX" 10
                              (omega arith))
                            λ most max_fits.
                              bind-OnValue (λ n. n ≤ 18446744073709551615) IsAccepted _ _
                                (parse_env_or-bound vars 18446744073709551615
                                  "RUSTSPELL_AUTH_RATE_LIMIT_WINDOW_SECONDS" 60 (omega arith))
                                λ window _.
                                  bind-OnValue (λ n. n ≤ 18446744073709551615) IsAccepted _ _
                                    (parse_env_or-bound vars 18446744073709551615
                                      "RUSTSPELL_AUTH_RATE_LIMIT_COOLDOWN_SECONDS" 60 (omega arith))
                                    λ cooldown _.
                                      bind-OnValue
                                        (Reads parse_ip
                                          (listed (vars "RUSTSPELL_DICTIONARY_ADMIN_CIDRS")))
                                        IsAccepted _ _
                                        (parse_cidr_list-Reads parse_ip vars
                                          "RUSTSPELL_DICTIONARY_ADMIN_CIDRS")
                                        λ admins admins_read.
                                          bind-OnValue
                                            (Reads parse_ip
                                              (listed (vars "RUSTSPELL_TRUSTED_PROXIES")))
                                            IsAccepted _ _
                                            (parse_cidr_list-Reads parse_ip vars
                                              "RUSTSPELL_TRUSTED_PROXIES")
                                            λ proxies proxies_read. record {
                                              ports_differ = differ;
                                              port_fits = port_fits;
                                              metrics_port_fits = metrics_fits;
                                              max_fits = max_fits;
                                              pooled = pooled;
                                              admins = admins_read;
                                              proxies = proxies_read;
                                            }

  -- Every configuration that is loaded has two different ports that fit 16 bits and a limit of
  -- failures that fits 32 bits; its database, where it has a URL, is a Postgres one that the store
  -- opens with ten connections; and its two lists of networks are the values of all the entries that
  -- are not blank, in their order, each of which is well-formed.
  pub load-IsAccepted :
      (dictionary_dir db_path : String) (c : Config)
      → load parse_ip dictionary_dir db_path vars ≡ value c
      → IsAccepted c
  load-IsAccepted dictionary_dir db_path c e =
      subst (OnValue IsAccepted) e (load-OnValue dictionary_dir db_path)
