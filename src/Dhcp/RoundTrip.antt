-- ===== src/Dhcp/RoundTrip.antt =====
-- net/dhcp/packet.rs: framing and stripping together.
use siratis_nmbl_bootloader.Prelude.{
  take-length-append, ap, ◌∙◌, length-append, none, ◌++◌, ◌<◌, arith, take, some, ◌≤◌, ℕ, ◌+◌, ◌/◌,
  ◌%◌, ◌≡◌, refl, ◌∷◌, length, Bytes,
}
use siratis_nmbl_bootloader.Dhcp.Packet.{
  strip_ip_udp, Ipv4Addr, wrap_ip_udp, ipv4_checksum, ipv4_header, u16_or_max,
}

-- The frame, byte by byte.
abbrev framed : ℕ → ℕ → Ipv4Addr → Ipv4Addr → ℕ → ℕ → ℕ → Bytes → Bytes
framed total checksum src dst src_port dst_port udp_len payload =
    69
    ∷ 0
    ∷ total / 256 % 256
    ∷ total % 256
    ∷ 0
    ∷ 0
    ∷ 0
    ∷ 0
    ∷ 64
    ∷ 17
    ∷ checksum / 256 % 256
    ∷ checksum % 256
    ∷ src.a
    ∷ src.b
    ∷ src.c
    ∷ src.d
    ∷ dst.a
    ∷ dst.b
    ∷ dst.c
    ∷ dst.d
    ∷ src_port / 256 % 256
    ∷ src_port % 256
    ∷ dst_port / 256 % 256
    ∷ dst_port % 256
    ∷ udp_len / 256 % 256
    ∷ udp_len % 256
    ∷ 0
    ∷ 0
    ∷ payload

wrap_ip_udp_lem :
    (src dst : Ipv4Addr) (src_port dst_port : ℕ) (payload : Bytes)
    → wrap_ip_udp src dst src_port dst_port payload
      ≡ framed
          (u16_or_max (28 + length payload))
          (ipv4_checksum (ipv4_header (u16_or_max (28 + length payload)) src dst))
          src
          dst
          src_port
          dst_port
          (u16_or_max (8 + length payload))
          payload
unfolding wrap_ip_udp
wrap_ip_udp_lem src dst sp dp payload = refl

-- Stripping a frame whose lengths agree gives the first `n` bytes behind the headers.
strip_framed :
    (checksum : ℕ) (src dst : Ipv4Addr) (src_port dst_port n : ℕ) (rest : Bytes)
    → n + 28 ≤ 65535
    → n ≤ length rest
    → strip_ip_udp (framed (28 + n) checksum src dst src_port dst_port (8 + n) rest)
      ≡ some (take n rest)
unfolding strip_ip_udp
strip_framed checksum src dst sp dp n rest h l = ground arith

-- A payload of at most 65507 bytes is what is stripped from its frame, whatever padding follows it.
pub strip_ip_udp-wrap_ip_udp :
    (src dst : Ipv4Addr) (src_port dst_port : ℕ) (payload padding : Bytes)
    → length payload ≤ 65507
    → strip_ip_udp (wrap_ip_udp src dst src_port dst_port payload ++ padding) ≡ some payload
strip_ip_udp-wrap_ip_udp src dst sp dp payload padding h =
    let n : ℕ = length payload in
    let total : u16_or_max (28 + n) ≡ 28 + n = ground arith in
    let udp : u16_or_max (8 + n) ≡ 8 + n = ground arith in
    rw (wrap_ip_udp_lem src dst sp dp payload, total, udp)
      (strip_framed _ src dst sp dp n (payload ++ padding) (omega arith)
          (omega (arith, length-append payload padding))
        ∙ ap some (take-length-append payload padding))

-- A payload of more than 65507 bytes is framed with lengths that do not agree, and the frame is
-- refused, whatever follows it.
pub strip_ip_udp-oversized :
    (src dst : Ipv4Addr) (src_port dst_port : ℕ) (payload padding : Bytes)
    → 65507 < length payload
    → strip_ip_udp (wrap_ip_udp src dst src_port dst_port payload ++ padding) ≡ none
unfolding strip_ip_udp
strip_ip_udp-oversized src dst sp dp payload padding h =
    rw (wrap_ip_udp_lem src dst sp dp payload, length-append payload padding) (ground arith)
