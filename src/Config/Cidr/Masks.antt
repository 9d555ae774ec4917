-- ===== src/Config/Cidr/Masks.antt =====
-- src/config.rs: what a mask keeps of an address, and which addresses a range contains.
use Prim.Native.Nat.{digits, bit_and, bit_and-bitwise}
use native.Mathlib.Nat.{mul_assoc, mul-div_cancel, div-eq_of_lt, div-div-eq-div-mul}
use rustspell_server.Base.{
  sym, ap, ◌∙◌, ℕ, zero, suc, ◌+◌, ◌-◌, ◌*◌, ◌/◌, ◌%◌, ◌^◌, ◌≤◌, ◌<◌, min, ◌≡◌, refl, ◌↔◌, Bool,
  true, false, ◌&&◌, eqb, if◌then◌else◌, Bool-cases, inl, inr, eqb_iff, arith,
}
use rustspell_server.Config.Cidr.{
  IpAddr, v4, v6, canonical_ip, masked, mask_ip, ip_beq, is_ipv4, same, contains,
}

-- `bit_and` digit by digit, on the fuel `n`.
abbrev fuelled : ℕ → ℕ → ℕ → ℕ
fuelled n a b = digits (λ c. zero) min n a b

-- Two amounts of fuel that cover the first number give the same result.
covered : (a b n m : ℕ) → (a ≤ n) × (a ≤ m) → fuelled n a b ≡ fuelled m a b
covered zero b zero zero h = refl
covered zero b zero (suc m) h = refl
covered zero b (suc n) zero h = refl
covered zero b (suc n) (suc m) h =
    omega (arith, covered (0 / 2) (b / 2) n m (omega arith, omega arith))
covered (suc a) b zero m h = absurd (omega (arith, h.0))
covered (suc a) b (suc n) zero h = absurd (omega (arith, h.1))
covered (suc a) b (suc n) (suc m) h =
    omega (arith, covered (suc a / 2) (b / 2) n m (omega (arith, h.0), omega (arith, h.1)))

bit_and-no_first : (b : ℕ) → bit_and 0 b ≡ 0
bit_and-no_first = bit_and-bitwise 0

bit_and_step : (a b : ℕ) → bit_and a b ≡ bit_and (a / 2) (b / 2) * 2 + min (a % 2) (b % 2)
bit_and_step zero b = omega (arith, bit_and-no_first b, bit_and-no_first (b / 2))
bit_and_step (suc a) b =
    let half = suc a / 2 in
    let settled = covered half (b / 2) a half (omega arith, omega arith) in
    omega (arith, settled, bit_and-bitwise (suc a) b, bit_and-bitwise half (b / 2))

-- A mask of ones keeps a number that is small enough.
bit_and_ones : (n a m : ℕ) → a < 2 ^ n → m + 1 ≡ 2 ^ n → bit_and a m ≡ a
bit_and_ones zero a m h e = let z : a ≡ 0 = omega (arith, h) in rw z (bit_and-no_first m)
bit_and_ones (suc n) a m h e =
    omega (
      arith,
      bit_and_step a m,
      bit_and_ones n (a / 2) (m / 2) (omega (arith, h)) (omega (arith, e)),
    )

mul-pow_suc : (x k : ℕ) → x * 2 ^ suc k ≡ (x * 2 ^ k) * 2
mul-pow_suc x k = let e : 2 ^ suc k ≡ 2 ^ k * 2 = omega arith in rw e (sym (mul_assoc x (2 ^ k) 2))

half_of_double : (a k : ℕ) → ((a / 2) / 2 ^ k) * 2 ^ k * 2 ≡ (a / 2 ^ suc k) * 2 ^ suc k
half_of_double a k =
    let e : 2 ^ suc k ≡ 2 * 2 ^ k = omega arith in
    rw (mul-pow_suc (a / 2 ^ suc k) k, e, div-div-eq-div-mul a 2 (2 ^ k)) refl

-- A mask with `k` zeros under `n` ones clears the `k` low digits.
bit_and_mask :
    (k n p a m : ℕ)
    → p ≡ 2 ^ n
    → a < p * 2 ^ k
    → m ≡ (p - 1) * 2 ^ k
    → bit_and a m ≡ (a / 2 ^ k) * 2 ^ k
bit_and_mask zero n p a m q h e =
    omega (arith, bit_and_ones n a m (omega (arith, q, h)) (omega (arith, q, e)))
bit_and_mask (suc k) n p a m q h e =
    let half : m ≡ ((p - 1) * 2 ^ k) * 2 = e ∙ mul-pow_suc (p - 1) k in
    let less : a < (p * 2 ^ k) * 2 = omega (arith, h, mul-pow_suc p k) in
    let halved : m / 2 ≡ (p - 1) * 2 ^ k = omega (arith, half) in
    let low = bit_and_mask k n p (a / 2) (m / 2) q (omega (arith, less)) halved in
    omega (arith, bit_and_step a m, low, half, half_of_double a k)

-- The mask of a prefix, and the power that the width splits into.
abbrev mask_fits : ℕ → ℕ → Bool
mask_fits width p =
    eqb (((2 ^ width - 1) * 2 ^ (width - p)) % 2 ^ width) ((2 ^ p - 1) * 2 ^ (width - p))
    && eqb (2 ^ p * 2 ^ (width - p)) (2 ^ width)

-- A test that holds of every number below a bound.
holds_below : (ℕ → Bool) → ℕ → Bool
holds_below f zero = true
holds_below f (suc bound) = if f bound then holds_below f bound else false

holds_below-at : (f : ℕ → Bool) (i bound : ℕ) → i < bound → holds_below f bound ≡ true → f i ≡ true
unfolding holds_below
holds_below-at f i zero less all_hold = absurd (omega (arith, less))
holds_below-at f i (suc bound) less all_hold = elim (Bool-cases (eqb i bound)) [
  | inl last ↦ ground (arith, eqb_iff i bound)
  | inr earlier ↦ ground (arith, holds_below-at f i bound)
]

masks_v4 : holds_below (mask_fits 32) 33 ≡ true
unfolding holds_below
masks_v4 = refl

masks_v6 : holds_below (mask_fits 128) 129 ≡ true
unfolding holds_below
masks_v6 = refl

masked-clears :
    (width a p : ℕ)
    → mask_fits width p ≡ true
    → a < 2 ^ width
    → masked width a p ≡ (a / 2 ^ (width - p)) * 2 ^ (width - p)
unfolding masked
masked-clears width a zero f h =
    let e : width - 0 ≡ width = omega arith in rw (e, div-eq_of_lt h) (omega arith)
masked-clears width a (suc p) f h =
    let k = 2 ^ (width - suc p) in
    let m = ((2 ^ width - 1) * k) % 2 ^ width in
    let fits : m ≡ (2 ^ suc p - 1) * k = ground (arith, f) in
    let whole : 2 ^ suc p * k ≡ 2 ^ width = ground (arith, f) in
    let less : a < 2 ^ suc p * k = omega (arith, whole, h) in
    let nonzero : eqb (suc p) 0 ≡ false = ground arith in
    rw nonzero (bit_and_mask (width - suc p) (suc p) (2 ^ suc p) a m refl less fits)

-- An address as wide as its family.
abbrev pub IsAddress : IpAddr → Type 0
IsAddress (v4 a) = a < 2 ^ 32
IsAddress (v6 a) = a < 2 ^ 128

-- The same family, and the same leading `p` bits.
abbrev pub SamePrefix : ℕ → IpAddr → IpAddr → Type 0
SamePrefix p (v4 a) (v4 b) = a / 2 ^ (32 - p) ≡ b / 2 ^ (32 - p)
SamePrefix p (v6 a) (v6 b) = a / 2 ^ (128 - p) ≡ b / 2 ^ (128 - p)
SamePrefix p _ _ = ⊥

abbrev pub address_width : IpAddr → ℕ
address_width (v4 a) = 32
address_width (v6 a) = 128

pow_pos : (k : ℕ) → 0 < 2 ^ k
pow_pos zero = omega arith
pow_pos (suc k) = omega (arith, pow_pos k)

mul_cancel : (a b k : ℕ) → 0 < k → (a * k ≡ b * k) ↔ (a ≡ b)
mul_cancel a b k h =
    (λ e. sym (mul-div_cancel a h) ∙ ap (λ x. x / k) e ∙ mul-div_cancel b h, λ e. ap (λ x. x * k) e)

same_masked :
    (width p a b : ℕ)
    → mask_fits width p ≡ true
    → a < 2 ^ width
    → b < 2 ^ width
    → (masked width a p ≡ masked width b p) ↔ (a / 2 ^ (width - p) ≡ b / 2 ^ (width - p))
same_masked width p a b f h k =
    rw (masked-clears width a p f h, masked-clears width b p f k)
      (mul_cancel (a / 2 ^ (width - p)) (b / 2 ^ (width - p)) (2 ^ (width - p))
        (pow_pos (width - p)))

contained_iff :
    (p : ℕ) (base ip : IpAddr)
    → IsAddress base
    → IsAddress ip
    → p ≤ address_width base
    → ((if same (is_ipv4 ip) (is_ipv4 (mask_ip base p))
          then ip_beq (mask_ip ip p) (mask_ip base p)
          else false)
        ≡ true)
      ↔ SamePrefix p ip base
unfolding mask_ip
contained_iff p (v4 b) (v4 a) hb hi hp = ground (
  arith,
  same_masked 32 p a b (holds_below-at (mask_fits 32) p 33 (omega (arith, hp)) masks_v4) hi hb,
)
contained_iff p (v6 b) (v6 a) hb hi hp = ground (
  arith,
  same_masked 128 p a b (holds_below-at (mask_fits 128) p 129 (omega (arith, hp)) masks_v6) hi hb,
)
contained_iff p (v4 b) (v6 a) hb hi hp = ground arith
contained_iff p (v6 b) (v4 a) hb hi hp = ground arith

-- A range that was made from the address `base` and a prefix `p` no longer than it contains exactly
-- the addresses of the same family with the same `p` leading bits, where an address in the
-- IPv4-mapped form counts as its IPv4 address.
pub contains_iff :
    (p : ℕ) (base ip : IpAddr)
    → IsAddress base
    → IsAddress (canonical_ip ip)
    → p ≤ address_width base
    → (contains (record { network = mask_ip base p; prefix = p }) ip ≡ true)
      ↔ SamePrefix p (canonical_ip ip) base
unfolding contains
contains_iff p base ip hb hi hp = contained_iff p base (canonical_ip ip) hb hi hp
