-- ===== src/Engine/Registry/Loads.antt =====
-- src/engine.rs: the default engine stays, and a language is loaded once.
use rustspell_server.Base.{
  String, ◌≡◌, refl, subst, ==-refl, true, Option, none, some, arith, is_some, string_eq,
}
use rustspell_server.Base.Dict.{lookup, lookup-insert}
use rustspell_server.Dictionary.{FilePath, Files, Net, Ensured, done, error}
use rustspell_server.Engine.Registry.{
  EngineError, EngineRegistry, default_engine, put, Shared, Loaded, loaded, load_failed, keep,
  load_ensured, load_locked, load, cached, recheck, wait, get_or_load,
}

module _ {E : Type 0} where
  abbrev pub HasDefault : EngineRegistry E → Type 0
  HasDefault r = is_some (default_engine r) ≡ true

  abbrev pub shared_after : Loaded E → Shared E
  shared_after (loaded engine s) = s
  shared_after (load_failed e s) = s

  put-HasDefault :
      (language : String) (engine : E) (r : EngineRegistry E)
      → HasDefault r
      → HasDefault (put language engine r)
  unfolding default_engine
  put-HasDefault language engine r h =
      rw (lookup-insert language r.default_language engine r.engines) (ground (arith, h))

  -- A loaded engine is the one of its language from then on.
  abbrev pub IsCached : String → Loaded E → Type 0
  IsCached language (loaded engine s) = lookup language s.registry.engines ≡ some engine
  IsCached language (load_failed e s) = Unit

  module _ (parse_engine : String → String → Option E) where
    keep-HasDefault :
        (language : String) (r : EngineRegistry E) (files : Files) (o : Option E × EngineError)
        → HasDefault r
        → HasDefault (shared_after (keep parse_engine language r files o)).registry
    keep-HasDefault language r files (none, e) h = h
    keep-HasDefault language r files (some engine, e) h = put-HasDefault language engine r h

    load_ensured-HasDefault :
        (language : String) (r : EngineRegistry E) (e : Ensured (FilePath × FilePath))
        → HasDefault r
        → HasDefault (shared_after (load_ensured parse_engine language r e)).registry
    load_ensured-HasDefault language r (error e files) h = h
    load_ensured-HasDefault language r (done paths files) h = keep-HasDefault language r files _ h

    load_locked-HasDefault :
        (net : Net) (language : String) (source_url : Option String) (s : Shared E)
        → HasDefault s.registry
        → HasDefault (shared_after (load_locked parse_engine net language source_url s)).registry
    unfolding load_locked
    load_locked-HasDefault net language source_url s h =
        load_ensured-HasDefault language s.registry _ h

    recheck-HasDefault :
        (net : Net) (language : String) (source_url : Option String) (s : Shared E) (o : Option E)
        → HasDefault s.registry
        → HasDefault (shared_after (recheck parse_engine net language source_url s o)).registry
    recheck-HasDefault net language source_url s (some engine) h = h
    recheck-HasDefault net language source_url s none h =
        load_locked-HasDefault net language source_url s h

    wait-HasDefault :
        (others : Shared E → Shared E)
        → ((s : Shared E) → HasDefault s.registry → HasDefault (others s).registry)
        → (net : Net) (language : String) (source_url : Option String) (s : Shared E) (o : Option E)
        → HasDefault s.registry
        → HasDefault (shared_after (wait parse_engine others net language source_url s o)).registry
    wait-HasDefault others keeps net language source_url s (some engine) h = h
    wait-HasDefault others keeps net language source_url s none h =
        recheck-HasDefault net language source_url (others s)
          (cached language source_url (others s)) (keeps s h)

    -- The default engine is there after a load of any language, however it ends, if the tasks before it leave it there.
    pub get_or_load-HasDefault :
        (others : Shared E → Shared E)
        → ((s : Shared E) → HasDefault s.registry → HasDefault (others s).registry)
        → (net : Net) (language : String) (source_url : Option String) (s : Shared E)
        → HasDefault s.registry
        → HasDefault
            (shared_after (get_or_load parse_engine others net language source_url s)).registry
          × HasDefault (shared_after (load parse_engine others net language source_url s)).registry
    unfolding get_or_load load
    get_or_load-HasDefault others keeps net language source_url s h = (
      wait-HasDefault others keeps net language source_url s (cached language source_url s) h,
      load_locked-HasDefault net language source_url (others s) (keeps s h),
    )

    -- A language that another task loaded while this one waited is served from there, without a download.
    pub get_or_load-waited :
        (others : Shared E → Shared E) (net : Net) (language : String) (s : Shared E) (engine : E)
        → lookup language s.registry.engines ≡ none
        → lookup language (others s).registry.engines ≡ some engine
        → get_or_load parse_engine others net language none s ≡ loaded engine (others s)
    unfolding get_or_load
    get_or_load-waited others net language s engine miss hit = simp (miss, hit) refl

    keep-IsCached :
        (language : String) (r : EngineRegistry E) (files : Files) (o : Option E × EngineError)
        → IsCached language (keep parse_engine language r files o)
    keep-IsCached language r files (none, e) = tt
    keep-IsCached language r files (some engine, e) =
        rw (lookup-insert language language engine r.engines, ==-refl language) refl

    load_ensured-IsCached :
        (language : String) (r : EngineRegistry E) (e : Ensured (FilePath × FilePath))
        → IsCached language (load_ensured parse_engine language r e)
    load_ensured-IsCached language r (error e files) = tt
    load_ensured-IsCached language r (done paths files) = keep-IsCached language r files _

    pub load-IsCached :
        (others : Shared E → Shared E) (net : Net) (language : String) (source_url : Option String)
        (s : Shared E)
        → IsCached language (load parse_engine others net language source_url s)
    unfolding load load_locked
    load-IsCached others net language source_url s = load_ensured-IsCached language _ _

    recheck-IsCached :
        (net : Net) (language : String) (s : Shared E) (o : Option E)
        → lookup language s.registry.engines ≡ o
        → IsCached language (recheck parse_engine net language none s o)
    unfolding load_locked
    recheck-IsCached net language s (some engine) h = h
    recheck-IsCached net language s none h = load_ensured-IsCached language s.registry _

    wait-IsCached :
        (others : Shared E → Shared E) (net : Net) (language : String) (s : Shared E) (o : Option E)
        → lookup language s.registry.engines ≡ o
        → IsCached language (wait parse_engine others net language none s o)
    wait-IsCached others net language s (some engine) h = h
    wait-IsCached others net language s none h = recheck-IsCached net language (others s) _ refl

    -- A language is loaded once: the next request for it gets the same engine, and neither the files nor
    -- the engines change.
    pub get_or_load-again :
        (others others' : Shared E → Shared E) (net net' : Net) (language : String)
        (s s' : Shared E) (engine : E)
        → get_or_load parse_engine others net language none s ≡ loaded engine s'
        → get_or_load parse_engine others' net' language none s' ≡ loaded engine s'
    unfolding get_or_load
    get_or_load-again others others' net net' language s s' engine h =
        let there : lookup language s'.registry.engines ≡ some engine =
          subst (IsCached language) h (wait-IsCached others net language s _ refl) in
        simp there refl
