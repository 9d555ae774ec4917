-- ===== src/Auth/ClientIp.antt =====
-- src/auth.rs: the address that a request counts for.
pub mod Forwarded
use rustspell_server.Base.{
  String, ◌≡◌, Bool, true, false, not, ◌||◌, Option, none, some, List, [], ◌∷◌, ◌++◌, any,
  if◌then◌else◌,
}
use rustspell_server.Base.Text.{split, trim, is_empty}
use rustspell_server.Config.Cidr.{IpAddr, v4, Cidr, canonical_ip, contains}

-- `Ipv4Addr::UNSPECIFIED` where there is no connection.
unfoldable pub client_ip : Option IpAddr → IpAddr
client_ip none = v4 0
client_ip (some ip) = ip

abbrev pub trusted : List Cidr → IpAddr → Bool
trusted proxies ip = any (λ c. contains c ip) proxies

abbrev pub reverse_onto : List IpAddr → List IpAddr → List IpAddr
reverse_onto acc [] = acc
reverse_onto acc (x ∷ xs) = reverse_onto (x ∷ acc) xs

-- The loop that pops from the end of the chain: the chain comes reversed.
unfoldable pub first_untrusted : List Cidr → IpAddr → List IpAddr → IpAddr
first_untrusted proxies peer [] = peer
first_untrusted proxies peer (ip ∷ rest) =
    if not (trusted proxies ip) then ip else first_untrusted proxies peer rest

module _ (parse_ip : String → Option IpAddr) where
  abbrev push_parsed : Option IpAddr → List IpAddr → List IpAddr
  push_parsed none chain = chain
  push_parsed (some ip) chain = canonical_ip ip ∷ chain

  -- The entries that are addresses, in the order of the header.
  abbrev pub parse_entries : List String → List IpAddr
  parse_entries [] = []
  parse_entries (entry ∷ entries) =
      if is_empty (trim entry)
      then parse_entries entries
      else push_parsed (parse_ip (trim entry)) (parse_entries entries)

  abbrev pub chain_of : String → List IpAddr
  chain_of xff = parse_entries (split 44 xff)

  abbrev pub resolve_header : IpAddr → List Cidr → Option String → IpAddr
  resolve_header peer proxies none = peer
  resolve_header peer proxies (some xff) =
      first_untrusted proxies peer (reverse_onto [] (chain_of xff))

  -- An empty list of proxies trusts nobody.
  unfoldable pub resolved_client_ip : IpAddr → List Cidr → Option String → IpAddr
  resolved_client_ip peer proxies xff =
      if not (trusted proxies peer) then peer else resolve_header peer proxies xff
