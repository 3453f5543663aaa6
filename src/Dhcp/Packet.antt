-- ===== src/Dhcp/Packet.antt =====
-- net/dhcp/packet.rs: the IPv4 and UDP framing of a DHCP message. The message itself is built and
-- read by the crate dhcproto; here it is the payload. The lengths fit a usize.
use siratis_nmbl_bootloader.Prelude.{
  ℕ, zero, suc, ◌+◌, ◌-◌, ◌*◌, ◌/◌, ◌%◌, ◌^◌, Bool, true, false, ◌&&◌, Option, none, some, [], ◌∷◌,
  ◌++◌, leb, ◌==◌, if◌then◌else◌, length, get_elem?, Bytes, get_range, write_range, u16_to_be,
  u16_from_be,
}

-- `std::net::Ipv4Addr`, as its octets.
pub record Ipv4Addr : Type 0 where
  pub a : ℕ
  pub b : ℕ
  pub c : ℕ
  pub d : ℕ

abbrev pub octets : Ipv4Addr → Bytes
octets ip = ip.a ∷ ip.b ∷ ip.c ∷ ip.d ∷ []

abbrev pub ipproto_udp : ℕ
ipproto_udp = 17

abbrev ip_ttl_default : ℕ
ip_ttl_default = 64

abbrev pub ipv4_header_len : ℕ
ipv4_header_len = 20

abbrev udp_header_len : ℕ
udp_header_len = 8

-- `u16::try_from(n).unwrap_or(u16::MAX)`
abbrev pub u16_or_max : ℕ → ℕ
u16_or_max n = if leb n 65535 then n else 65535

-- The loop over the pairs of bytes, and the odd byte after it.
unfoldable pub word_sum : ℕ → Bytes → ℕ
word_sum sum [] = sum
word_sum sum (tail ∷ []) = (sum + u16_from_be tail 0) % 2 ^ 32
word_sum sum (hi ∷ lo ∷ rest) = word_sum ((sum + u16_from_be hi lo) % 2 ^ 32) rest

-- `while sum >> 16 != 0`, at most `fuel` times.
unfoldable pub fold_carries : ℕ → ℕ → ℕ
fold_carries zero sum = sum
fold_carries (suc fuel) sum =
    let folded = fold_carries fuel (sum % 65536 + sum / 65536) in
    if sum / 65536 == 0 then sum else folded

abbrev pub complement : ℕ → ℕ
complement sum = 65535 - fold_carries 3 sum % 65536

unfoldable pub ipv4_checksum : Bytes → ℕ
ipv4_checksum bytes = complement (word_sum 0 bytes)

-- The header with its checksum still zero.
abbrev pub ipv4_header : ℕ → Ipv4Addr → Ipv4Addr → Bytes
ipv4_header total_len src_ip dst_ip =
    69
    ∷ 0
    ∷ (u16_to_be total_len
        ++ (u16_to_be 0
            ++ (u16_to_be 0
                ++ (ip_ttl_default
                    ∷ ipproto_udp
                    ∷ (u16_to_be 0 ++ (octets src_ip ++ octets dst_ip))))))

abbrev checksum_of : Option Bytes → ℕ
checksum_of none = 0
checksum_of (some hdr) = ipv4_checksum hdr

abbrev patched : Bytes → Bytes
patched buf = write_range 10 12 (u16_to_be (checksum_of (get_range 0 ipv4_header_len buf))) buf

unfoldable pub wrap_ip_udp : Ipv4Addr → Ipv4Addr → ℕ → ℕ → Bytes → Bytes
wrap_ip_udp src_ip dst_ip src_port dst_port payload =
    let total_len = ipv4_header_len + udp_header_len + length payload in
    patched (ipv4_header (u16_or_max total_len) src_ip dst_ip)
    ++ (u16_to_be src_port
        ++ (u16_to_be dst_port
            ++ (u16_to_be (u16_or_max (udp_header_len + length payload))
                ++ (u16_to_be 0 ++ payload))))

infixl 5 ◌>>=◌ ◌>>◌
abbrev ◌>>=◌ {ℓ κ} : {A : Type ℓ} {B : Type κ} → Option A → (A → Option B) → Option B
none >>= next = none
some value >>= next = next value

-- `if !test { return None; }`
abbrev ◌>>◌ {ℓ} : {B : Type ℓ} → Bool → Option B → Option B
true >> rest = rest
false >> rest = none

abbrev pub strip_udp : Bytes → ℕ → ℕ → ℕ → Option Bytes
strip_udp frame ihl total_len udp_len = do
  leb udp_header_len udp_len
  leb (ihl + udp_len) total_len
  get_range (ihl + udp_header_len) (ihl + udp_len) frame

abbrev pub strip_total : Bytes → ℕ → ℕ → Option Bytes
strip_total frame ihl total_len = do
  leb (ihl + udp_header_len) total_len && leb total_len (length frame)
  udp_len_hi ← get_elem? frame (ihl + 4)
  udp_len_lo ← get_elem? frame (ihl + 5)
  strip_udp frame ihl total_len (u16_from_be udp_len_hi udp_len_lo)

abbrev pub strip_at : Bytes → ℕ → Option Bytes
strip_at frame ihl = do
  leb (ihl + udp_header_len) (length frame)
  proto ← get_elem? frame 9
  proto == ipproto_udp
  total_len_hi ← get_elem? frame 2
  total_len_lo ← get_elem? frame 3
  strip_total frame ihl (u16_from_be total_len_hi total_len_lo)

unfoldable pub strip_ip_udp : Bytes → Option Bytes
strip_ip_udp frame = do
  first ← get_elem? frame 0
  first / 16 == 4
  leb 5 (first % 16)
  strip_at frame (first % 16 * 4)

unfoldable pub client_identifier : Bytes → Bytes
client_identifier mac = 1 ∷ mac
