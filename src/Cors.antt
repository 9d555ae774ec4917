-- ===== src/Cors.antt =====
-- src/middleware.rs: the origins that the CORS layer lets a browser read answers from.
use rustspell_server.Base.{
  String, ◌≡◌, Bool, true, false, Option, none, some, if◌then◌else◌, ◌==◌, string_eq,
}
use rustspell_server.Store.Data.{Store}
use rustspell_server.Store.Origins.{is_registered_origin, still_owned}
use rustspell_server.Store.Origins.Registry.{Agrees}

-- A header that is no text is refused.
abbrev registered : Store → Option String → Bool
registered s none = false
registered s (some origin) = is_registered_origin origin s

-- The predicate of `cors_layer`.
unfoldable pub allows_origin : Store → String → Option String → Bool
allows_origin s path origin = if path == "/languages" then true else registered s origin

-- Where the set of all origins agrees with the tenants' maps, the layer allows an origin on a path
-- other than `/languages` exactly where some tenant has it.
pub allows_origin-still_owned :
    (s : Store) (path origin : String)
    → Agrees s
    → (path == "/languages") ≡ false
    → allows_origin s path (some origin) ≡ still_owned origin s.origins_by_tenant
unfolding allows_origin
allows_origin-still_owned s path origin v other = rw other (v origin)
