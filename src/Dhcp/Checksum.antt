-- ===== src/Dhcp/Checksum.antt =====
-- The RFC 1071 checksum of net/dhcp/packet.rs.
use siratis_nmbl_bootloader.Prelude.{
  ℕ, zero, suc, ◌+◌, ◌*◌, ◌/◌, ◌%◌, ◌^◌, ◌<◌, ◌≡◌, ◌==◌, inl, inr, Bool-cases, [], ◌∷◌, arith,
  length, take, Bytes, AllBytes,
}
use siratis_nmbl_bootloader.Dhcp.Packet.{
  Ipv4Addr, octets, word_sum, fold_carries, complement, ipv4_checksum, ipv4_header_len, u16_or_max,
  wrap_ip_udp,
}

-- Three rounds of the loop over carries are enough for any u32: what is left has no carry, which is
-- where the loop ends.
pub fold_carries-ends : (sum : ℕ) → sum < 2 ^ 32 → fold_carries 3 sum < 65536
unfolding fold_carries
fold_carries-ends sum h = ground arith

-- Adding the checksum of a sum to it gives a sum that checks.
complement-add : (sum : ℕ) → 0 < sum → sum < 2 ^ 31 → complement (sum + complement sum) ≡ 0
unfolding fold_carries
complement-add sum p h = ground arith

-- The sum of the words of sixteen bits, as it is.
abbrev pub plain_sum : Bytes → ℕ
plain_sum [] = 0
plain_sum (tail ∷ []) = tail * 256
plain_sum (hi ∷ lo ∷ rest) = hi * 256 + lo + plain_sum rest

word_sum-plain_sum :
    (sum : ℕ) (bytes : Bytes)
    → AllBytes bytes
    → sum + 65536 * length bytes < 2 ^ 32
    → word_sum sum bytes ≡ sum + plain_sum bytes
unfolding word_sum
word_sum-plain_sum sum [] v h = omega arith
word_sum-plain_sum sum (tail ∷ []) (t, _) h = omega arith
word_sum-plain_sum sum (hi ∷ lo ∷ rest) (p, (q, v)) h =
    let small : (sum + (hi * 256 + lo)) % 2 ^ 32 ≡ sum + (hi * 256 + lo) = omega arith in
    rw small (omega (arith, word_sum-plain_sum (sum + (hi * 256 + lo)) rest v (omega arith)))

-- The loop over carries keeps a sum up to multiples of 65535.
fold_carries-rest : (fuel sum : ℕ) → (k : ℕ) × (sum ≡ fold_carries fuel sum + k * 65535)
unfolding fold_carries
fold_carries-rest zero sum = (0, omega arith)
fold_carries-rest (suc fuel) sum =
    let (k, e) = fold_carries-rest fuel (sum % 65536 + sum / 65536) in
    elim (Bool-cases (sum / 65536 == 0)) [
      | inl done ↦ (0, rw done (omega arith))
      | inr more ↦ (k + sum / 65536, rw more (omega arith))
    ]

-- Adding the checksum of a sum to it gives a multiple of 65535.
complement-rest : (sum : ℕ) → sum < 2 ^ 32 → (sum + complement sum) % 65535 ≡ 0
complement-rest sum h =
    let (k, e) = fold_carries-rest 3 sum in
    let small : fold_carries 3 sum < 65536 = fold_carries-ends sum h in omega arith

-- The octets of an address are bytes.
abbrev IsAddress : Ipv4Addr → Type 0
IsAddress ip = AllBytes (octets ip)

plain_header : ℕ → ℕ → Ipv4Addr → Ipv4Addr → Bytes
plain_header total checksum src dst =
    69
    ∷ 0
    ∷ total / 256 % 256
    ∷ total % 256
    ∷ 0
    ∷ 0
    ∷ 0
    ∷ 0
    ∷ 64
    ∷ 17
    ∷ checksum / 256 % 256
    ∷ checksum % 256
    ∷ src.a
    ∷ src.b
    ∷ src.c
    ∷ src.d
    ∷ dst.a
    ∷ dst.b
    ∷ dst.c
    ∷ dst.d
    ∷ []

plain_header-AllBytes :
    (total checksum : ℕ) (src dst : Ipv4Addr)
    → IsAddress src
    → IsAddress dst
    → AllBytes (plain_header total checksum src dst)
unfolding plain_header
plain_header-AllBytes total checksum src dst s d = omega (arith, s, d)

header_small :
    (total checksum : ℕ) (src dst : Ipv4Addr)
    → 0 + 65536 * length (plain_header total checksum src dst) < 2 ^ 32
unfolding plain_header
header_small total checksum src dst = omega arith

header_sum :
    (total checksum : ℕ) (src dst : Ipv4Addr)
    → IsAddress src
    → IsAddress dst
    → word_sum 0 (plain_header total checksum src dst)
      ≡ plain_sum (plain_header total checksum src dst)
header_sum total checksum src dst s d = omega (
  arith,
  word_sum-plain_sum 0 (plain_header total checksum src dst)
      (plain_header-AllBytes total checksum src dst s d) (header_small total checksum src dst),
)

-- The header's sum is that of the header without its checksum, and the checksum.
split_sum :
    (total checksum : ℕ) (src dst : Ipv4Addr)
    → checksum < 65536
    → plain_sum (plain_header total checksum src dst)
      ≡ plain_sum (plain_header total 0 src dst) + checksum
unfolding plain_header
split_sum total checksum src dst h = omega arith

sum_bounds :
    (total : ℕ) (src dst : Ipv4Addr)
    → IsAddress src
    → IsAddress dst
    → (0 < plain_sum (plain_header total 0 src dst))
      × (plain_sum (plain_header total 0 src dst) < 2 ^ 31)
unfolding plain_header
sum_bounds total src dst s d = (omega arith, omega (arith, s, d))

header_checks :
    (total : ℕ) (src dst : Ipv4Addr)
    → IsAddress src
    → IsAddress dst
    → ipv4_checksum (plain_header total (ipv4_checksum (plain_header total 0 src dst)) src dst) ≡ 0
unfolding ipv4_checksum
header_checks total src dst s d =
    let sum : ℕ = plain_sum (plain_header total 0 src dst) in
    let (p, q) = sum_bounds total src dst s d in
    let fits : complement sum < 65536 = omega arith in
    rw
      (
        header_sum total 0 src dst s d,
        header_sum total (complement sum) src dst s d,
        split_sum total (complement sum) src dst fits,
      )
      (complement-add sum p q)

header_sums :
    (total : ℕ) (src dst : Ipv4Addr)
    → IsAddress src
    → IsAddress dst
    → plain_sum (plain_header total (ipv4_checksum (plain_header total 0 src dst)) src dst) % 65535
      ≡ 0
unfolding ipv4_checksum
header_sums total src dst s d =
    let sum : ℕ = plain_sum (plain_header total 0 src dst) in
    let (p, q) = sum_bounds total src dst s d in
    let fits : complement sum < 65536 = omega arith in
    rw (header_sum total 0 src dst s d, split_sum total (complement sum) src dst fits)
      (complement-rest sum (omega arith))

-- Where the addresses are bytes, the words of sixteen bits of a frame's IPv4 header sum up to a
-- multiple of 65535, which is what RFC 1071 asks of a header that is intact, and the code's own
-- checksum of that header is 0.
pub wrap_ip_udp-checksum :
    (src dst : Ipv4Addr) (src_port dst_port : ℕ) (payload : Bytes)
    → IsAddress src
    → IsAddress dst
    → (plain_sum (take ipv4_header_len (wrap_ip_udp src dst src_port dst_port payload)) % 65535 ≡ 0)
      × (ipv4_checksum (take ipv4_header_len (wrap_ip_udp src dst src_port dst_port payload)) ≡ 0)
unfolding wrap_ip_udp plain_header
wrap_ip_udp-checksum src dst sp dp payload s d = (
  header_sums (u16_or_max (28 + length payload)) src dst s d,
  header_checks (u16_or_max (28 + length payload)) src dst s d,
)
