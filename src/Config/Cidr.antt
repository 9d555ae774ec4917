-- ===== src/Config/Cidr.antt =====
-- src/config.rs: IP addresses and CIDR ranges. An address is its number; `& (!0 << k)` is the native
-- `bit_and`. The parser of one address is the standard library's, a parameter here.
pub mod Masks
use Prim.Native.Nat.{bit_and}
use rustspell_server.Base.{
  ℕ, String, ◌-◌, ◌*◌, ◌/◌, ◌%◌, ◌^◌, ◌≡◌, Bool, true, false, not, Option, none, some, eqb, leb,
  ltb, if◌then◌else◌,
}
use rustspell_server.Base.Text.{split_once, parse_uint}

pub data IpAddr : Type 0 where
  v4 v6 : ℕ → IpAddr

abbrev pub is_ipv4 : IpAddr → Bool
is_ipv4 (v4 _) = true
is_ipv4 (v6 _) = false

abbrev pub ip_beq : IpAddr → IpAddr → Bool
ip_beq (v4 a) (v4 b) = eqb a b
ip_beq (v6 a) (v6 b) = eqb a b
ip_beq _ _ = false

pub record Cidr : Type 0 where
  pub network : IpAddr
  pub prefix : ℕ

-- `to_ipv4_mapped` accepts `::ffff:a.b.c.d`.
unfoldable pub canonical_ip : IpAddr → IpAddr
canonical_ip (v4 a) = v4 a
canonical_ip (v6 a) = if eqb (a / 2 ^ 32) 0xffff then v4 (a % 2 ^ 32) else v6 a

-- `a & (!0 << (width - prefix))`, with the arm for an empty prefix.
unfoldable pub masked : ℕ → ℕ → ℕ → ℕ
masked width a prefix =
    if eqb prefix 0 then 0 else bit_and a (((2 ^ width - 1) * 2 ^ (width - prefix)) % 2 ^ width)

unfoldable pub mask_ip : IpAddr → ℕ → IpAddr
mask_ip (v4 a) prefix = v4 (masked 32 a prefix)
mask_ip (v6 a) prefix = v6 (masked 128 a prefix)

abbrev pub same : Bool → Bool → Bool
same true b = b
same false b = not b

unfoldable pub contains : Cidr → IpAddr → Bool
contains c ip =
    if same (is_ipv4 (canonical_ip ip)) (is_ipv4 c.network)
    then ip_beq (mask_ip (canonical_ip ip) c.prefix) c.network
    else false

module _ (parse_ip : String → Option IpAddr) where
  abbrev max_prefix : IpAddr → ℕ
  max_prefix ip = if is_ipv4 ip then 32 else 128

  -- A bare address is a range of one.
  abbrev prefix_of : IpAddr → Option String → Option ℕ
  prefix_of ip none = some (max_prefix ip)
  prefix_of ip (some text) = parse_uint 255 text

  abbrev address_part : String → Option (String × String) → String
  address_part spec none = spec
  address_part spec (some (a, p)) = a

  abbrev prefix_part : Option (String × String) → Option String
  prefix_part none = none
  prefix_part (some (a, p)) = some p

  abbrev network_of : IpAddr → Option ℕ → Option Cidr
  network_of ip none = none
  network_of ip (some p) =
      if ltb (max_prefix ip) p then none else some (record { network = mask_ip ip p; prefix = p })

  abbrev from_address : Option (String × String) → Option IpAddr → Option Cidr
  from_address parts none = none
  from_address parts (some a) =
      network_of (canonical_ip a) (prefix_of (canonical_ip a) (prefix_part parts))

  -- Every error is `none`.
  unfoldable pub parse : String → Option Cidr
  parse spec =
      let parts = split_once 47 spec in from_address parts (parse_ip (address_part spec parts))
