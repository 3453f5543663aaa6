-- ===== src/Dhcp/Bounds.antt =====
-- net/dhcp/packet.rs: where in a frame the stripped payload lies.
use siratis_nmbl_bootloader.Prelude.{
  ℕ, ◌+◌, ◌-◌, ◌*◌, ◌/◌, ◌%◌, ◌≤◌, ◌≡◌, refl, ap, Option, none, some, arith, length, get_elem?,
  take, drop, length-take, length-drop, Bytes, get_range, u16_from_be,
}
use siratis_nmbl_bootloader.Dhcp.Packet.{
  strip_at, strip_ip_udp, strip_total, strip_udp, ipproto_udp,
}

-- A frame that begins with the header of an IPv4 datagram of `ihl` bytes.
pub record IsHeader (frame : Bytes) (ihl : ℕ) : Type 0 where
  pub byte : ℕ
  pub first : get_elem? frame 0 ≡ some byte
  pub ip_version : byte / 16 ≡ 4
  pub words : ihl ≡ 4 * (byte % 16)

-- A payload within an IPv4 UDP datagram: behind both headers, of the length that the UDP header states,
-- and within the length that the IPv4 header states and the frame has.
pub record IsWithin (frame payload : Bytes) : Type 0 where
  pub ihl : ℕ
  pub header : IsHeader frame ihl
  pub udp_hi : ℕ
  pub udp_lo : ℕ
  pub hi : ℕ
  pub lo : ℕ
  pub header_size : (20 ≤ ihl) × (ihl ≤ 60)
  pub udp : get_elem? frame 9 ≡ some ipproto_udp
  pub total_hi : get_elem? frame 2 ≡ some hi
  pub total_lo : get_elem? frame 3 ≡ some lo
  pub length_hi : get_elem? frame (ihl + 4) ≡ some udp_hi
  pub length_lo : get_elem? frame (ihl + 5) ≡ some udp_lo
  pub whole : length payload + 8 ≡ u16_from_be udp_hi udp_lo
  pub inside : ihl + 8 + length payload ≤ u16_from_be hi lo
  pub available : u16_from_be hi lo ≤ length frame
  pub text : payload ≡ take (length payload) (drop (ihl + 8) frame)

-- What a range of a frame is.
range_parts :
    (frame payload : Bytes) (a b : ℕ)
    → get_range a b frame ≡ some payload
    → (a ≤ b) × (length payload ≡ b - a) × (payload ≡ take (b - a) (drop a frame))
range_parts frame payload a b h =
    let ordered : (a ≤ b) × (b ≤ length frame) = ground arith in
    let same : payload ≡ take (b - a) (drop a frame) = ground arith in
    (
      ordered.0,
      omega
          (arith, ap length same, length-take (b - a) (drop a frame), length-drop a frame, ordered),
      same,
    )

udp-IsWithin :
    (frame payload : Bytes) (ihl hi lo uh ul : ℕ)
    → IsHeader frame ihl
    → (20 ≤ ihl) × (ihl ≤ 60)
    → get_elem? frame 9 ≡ some ipproto_udp
    → get_elem? frame 2 ≡ some hi
    → get_elem? frame 3 ≡ some lo
    → get_elem? frame (ihl + 4) ≡ some uh
    → get_elem? frame (ihl + 5) ≡ some ul
    → u16_from_be hi lo ≤ length frame
    → strip_udp frame ihl (u16_from_be hi lo) (u16_from_be uh ul) ≡ some payload
    → IsWithin frame payload
udp-IsWithin frame payload ihl hi lo uh ul header size proto h l eh el available e =
    let range : get_range (ihl + 8) (ihl + (uh * 256 + ul)) frame ≡ some payload = ground arith in
    let fits : ihl + (uh * 256 + ul) ≤ hi * 256 + lo = ground arith in
    let (a, b, c) = range_parts frame payload (ihl + 8) (ihl + (uh * 256 + ul)) range in
    record {
      ihl = ihl;
      header = header;
      udp_hi = uh;
      udp_lo = ul;
      length_hi = eh;
      length_lo = el;
      whole = omega arith;
      hi = hi;
      lo = lo;
      header_size = size;
      udp = proto;
      total_hi = h;
      total_lo = l;
      inside = omega arith;
      available = available;
      text = rw b c;
    }

total-IsWithin :
    (frame payload : Bytes) (ihl hi lo : ℕ) (udp_hi udp_lo : Option ℕ)
    → IsHeader frame ihl
    → (20 ≤ ihl) × (ihl ≤ 60)
    → get_elem? frame 9 ≡ some ipproto_udp
    → get_elem? frame 2 ≡ some hi
    → get_elem? frame 3 ≡ some lo
    → get_elem? frame (ihl + 4) ≡ udp_hi
    → get_elem? frame (ihl + 5) ≡ udp_lo
    → strip_total frame ihl (u16_from_be hi lo) ≡ some payload
    → IsWithin frame payload
total-IsWithin frame payload ihl hi lo none udp_lo header size proto h l eh el e =
    absurd (ground arith)
total-IsWithin frame payload ihl hi lo (some uh) none header size proto h l eh el e =
    absurd (ground arith)
total-IsWithin frame payload ihl hi lo (some uh) (some ul) header size proto h l eh el e =
    udp-IsWithin frame payload ihl hi lo uh ul header size proto h l eh el (ground arith)
      (ground arith)

at-IsWithin :
    (frame payload : Bytes) (ihl : ℕ) (proto hi lo : Option ℕ)
    → IsHeader frame ihl
    → (20 ≤ ihl) × (ihl ≤ 60)
    → get_elem? frame 9 ≡ proto
    → get_elem? frame 2 ≡ hi
    → get_elem? frame 3 ≡ lo
    → strip_at frame ihl ≡ some payload
    → IsWithin frame payload
at-IsWithin frame payload ihl none hi lo header size ep eh el e = absurd (ground arith)
at-IsWithin frame payload ihl (some p) none lo header size ep eh el e = absurd (ground arith)
at-IsWithin frame payload ihl (some p) (some h) none header size ep eh el e = absurd (ground arith)
at-IsWithin frame payload ihl (some p) (some h) (some l) header size ep eh el e =
    total-IsWithin frame payload ihl h l (get_elem? frame (ihl + 4)) (get_elem? frame (ihl + 5))
      header size (ground arith) eh el refl refl (ground arith)

first-IsWithin :
    (frame payload : Bytes) (first : Option ℕ)
    → get_elem? frame 0 ≡ first
    → strip_ip_udp frame ≡ some payload
    → IsWithin frame payload
unfolding strip_ip_udp
first-IsWithin frame payload none e h = absurd (ground arith)
first-IsWithin frame payload (some first) e h =
    at-IsWithin frame payload (first % 16 * 4) (get_elem? frame 9) (get_elem? frame 2)
      (get_elem? frame 3)
      (record { byte = first; first = e; ip_version = ground arith; words = omega arith })
      (ground arith) refl refl refl (ground arith)

-- Whatever arrives, a stripped payload lies in an IPv4 UDP datagram: behind the IPv4 header, of the
-- length that its first byte states, and the UDP header; of the length that the UDP header states; and
-- within the length that the IPv4 header states, which the frame has.
pub strip_ip_udp-IsWithin :
    (frame payload : Bytes) → strip_ip_udp frame ≡ some payload → IsWithin frame payload
strip_ip_udp-IsWithin frame payload h = first-IsWithin frame payload (get_elem? frame 0) refl h
