-- ===== src/Auth/ClientIp/Forwarded.antt =====
-- src/auth.rs: what a client can and cannot do with `X-Forwarded-For`.
use rustspell_server.Base.{
  String, ◌≡◌, refl, true, false, Option, none, some, List, [], ◌∷◌, ◌++◌, All, Bool-cases, ◌⊎◌,
  inl, inr, ◌<>◌, ap, sym, ◌∙◌,
}
use Prim.Native.Char.{Char}
use Prim.Native.String.append
use mathlib.Core.List.{append_assoc}
use rustspell_server.Config.Cidr.{IpAddr, Cidr}
use rustspell_server.Auth.ClientIp.{trusted, first_untrusted, reverse_onto, chain_of}

-- The last hop of a chain that is not trusted: what is before it is never looked at.
abbrev pub Rightmost : List Cidr → List IpAddr → IpAddr → Type 0
Rightmost proxies chain ip =
    (before : List IpAddr) × (after : List IpAddr) × (chain ≡ before ++ (ip ∷ after))
    × All (λ hop. trusted proxies hop ≡ true) after

-- The address is the peer's where the peer is no trusted proxy, where nothing was forwarded, and
-- where every hop is trusted; else it is the last untrusted hop.
abbrev pub Resolved :
    (String → Option IpAddr) → IpAddr → List Cidr → Option String → IpAddr → Type 0
Resolved parse_ip peer proxies none ip = ip ≡ peer
Resolved parse_ip peer proxies (some xff) ip =
    ((ip ≡ peer)
      × ((trusted proxies peer ≡ false)
          ⊎ All (λ hop. trusted proxies hop ≡ true) (chain_of parse_ip xff)))
    ⊎ ((trusted proxies peer ≡ true)
        × (trusted proxies ip ≡ false)
        × Rightmost proxies (chain_of parse_ip xff) ip)

reverse_onto-append : (acc xs : List IpAddr) → reverse_onto acc xs ≡ reverse_onto [] xs ++ acc
reverse_onto-append acc [] = refl
reverse_onto-append acc (x ∷ xs) =
    reverse_onto-append (x ∷ acc) xs
    ∙ sym (append_assoc (reverse_onto [] xs) (x ∷ []) acc)
    ∙ ap (λ l. l ++ acc) (sym (reverse_onto-append (x ∷ []) xs))

-- What the loop finds: the peer and trusted hops only, or the last hop that is not trusted.
abbrev Scanned : List Cidr → IpAddr → IpAddr → List IpAddr → Type 0
Scanned proxies peer ip chain =
    ((ip ≡ peer) × All (λ hop. trusted proxies hop ≡ true) chain)
    ⊎ ((trusted proxies ip ≡ false) × Rightmost proxies chain ip)

-- The later part, `after`, of the chain was popped already.
scan :
    (proxies : List Cidr) (peer : IpAddr) (before after : List IpAddr)
    → All (λ hop. trusted proxies hop ≡ true) after
    → Scanned proxies peer (first_untrusted proxies peer before) (reverse_onto after before)
unfolding first_untrusted
scan proxies peer [] after t = inl (refl, t)
scan proxies peer (hop ∷ before) after t = elim (Bool-cases (trusted proxies hop)) [
  | inl known ↦ rw (known, first_untrusted) (scan proxies peer before (hop ∷ after) (known, t))
  | inr other ↦
      rw (other, first_untrusted)
        (inr (other, (reverse_onto [] before, after, reverse_onto-append (hop ∷ after) before, t)))
]

-- The header's text once a proxy has added its entry behind a comma: none where `to_str` fails on
-- what the client sent.
abbrev pub appended : Option String → Char → String → Option String
appended none comma entry = none
appended (some sent) comma entry = some (sent <> String.◌∷◌ comma entry)

abbrev pub counted : IpAddr → IpAddr → Option String → IpAddr
counted peer ip none = peer
counted peer ip (some sent) = ip
