-- ===== src/Dhcp/Exchange.antt =====
-- net/dhcp/exchange.rs, net/dhcp/options.rs, `recv_dhcp` of net/dhcp/socket.rs and `acquire` of
-- net/dhcp/mod.rs. A message is what the crate dhcproto decodes, and read through its accessors.
-- Instants and durations are nanoseconds. What the system calls of one attempt give is an argument.
use mathlib.Core.Option
use siratis_nmbl_bootloader.Prelude.{
  ℕ, zero, suc, ◌+◌, ◌-◌, ◌*◌, ◌^◌, min, Bool, true, false, not, ◌&&◌, Option, none, some, List, [],
  ◌∷◌, ltb, leb, ◌==◌, if◌then◌else◌, u64_max, Bytes, Outcome, ok, err,
}
use siratis_nmbl_bootloader.Dhcp.Packet.{Ipv4Addr, strip_ip_udp}

abbrev pub max_retries : ℕ
max_retries = 5

abbrev pub from_millis : ℕ → ℕ
from_millis ms = ms * 1000000

abbrev pub min_per_retry : ℕ
min_per_retry = from_millis 500

abbrev pub max_per_retry : ℕ
max_per_retry = from_millis 4000

-- The `stage` of an `NmblError::Rescue`.
pub data DhcpStage : Type 0 where
  dhcp_timeout dhcp_nak dhcp_recv_offer dhcp_recv_ack dhcp_send_discover : DhcpStage
  dhcp_send_request dhcp_socket : DhcpStage

abbrev pub is_timeout : DhcpStage → Bool
is_timeout dhcp_timeout = true
is_timeout _ = false

pub data MessageType : Type 0 where
  offer ack nak : MessageType
  other : ℕ → MessageType

abbrev type_eq : MessageType → MessageType → Bool
type_eq offer offer = true
type_eq ack ack = true
type_eq nak nak = true
type_eq (other m) (other n) = m == n
type_eq _ _ = false

abbrev pub has_type : Option MessageType → MessageType → Bool
has_type none want = false
has_type (some t) want = type_eq t want

-- The crate dhcproto: `Message::decode` and the accessors, with each option as `opts().get` and the
-- match on its own variant give it.
pub record Dhcproto : Type 1 where
  pub Message : Type 0
  pub decode : Bytes → Option Message
  pub xid : Message → ℕ
  pub msg_type : Message → Option MessageType
  pub yiaddr : Message → Ipv4Addr
  pub siaddr : Message → Ipv4Addr
  pub server_identifier : Message → Option Ipv4Addr
  pub subnet_mask : Message → Option Ipv4Addr
  pub router : Message → Option (List Ipv4Addr)
  pub domain_name_server : Message → Option (List Ipv4Addr)
  pub address_lease_time : Message → Option ℕ

pub record Offer : Type 0 where
  pub yiaddr : Ipv4Addr
  pub server_id : Ipv4Addr

pub record DhcpLease : Type 0 where
  pub ip : Ipv4Addr
  pub netmask : Ipv4Addr
  pub gateway : Option Ipv4Addr
  pub dns : List Ipv4Addr
  pub server_id : Ipv4Addr
  pub lease_secs : ℕ

abbrev pub unwrap_or {ℓ} : {A : Type ℓ} → Option A → A → A
unwrap_or none d = d
unwrap_or (some a) d = a

abbrev first_of : Option (List Ipv4Addr) → Option Ipv4Addr
first_of none = none
first_of (some []) = none
first_of (some (ip ∷ ips)) = some ip

abbrev is_unspecified : Ipv4Addr → Bool
is_unspecified ip = (ip.a == 0) && (ip.b == 0) && (ip.c == 0) && (ip.d == 0)

abbrev pub remaining_or_timeout : ℕ → ℕ → Outcome DhcpStage ℕ
remaining_or_timeout now deadline =
    if leb deadline now then err dhcp_timeout else ok (deadline - now)

-- `1_000u64.saturating_mul(1u64 << attempt.min(3))`
abbrev base_ms : ℕ → ℕ
base_ms attempt =
    if leb (1000 * 2 ^ min attempt 3) u64_max then 1000 * 2 ^ min attempt 3 else u64_max

unfoldable pub per_retry_timeout : ℕ → ℕ → ℕ
per_retry_timeout attempt remaining =
    let base = from_millis (base_ms attempt) in
    let upper = if ltb remaining max_per_retry then remaining else max_per_retry in
    if ltb upper base then upper else if ltb base min_per_retry then min_per_retry else base

-- What the clock and the socket give in one turn of a loop.
pub record Turn (A : Type 0) : Type 0 where
  pub now : ℕ
  pub set_timeout : Option DhcpStage
  pub send : Option DhcpStage
  pub recv : Outcome DhcpStage A

-- The outcome of a loop, and the receive timeouts of its turns that got as far as receiving.
abbrev pub Answer : Type 0 → Type 0
Answer A = Outcome DhcpStage A × List ℕ

abbrev pub waited : {A : Type 0} → ℕ → Answer A → Answer A
waited wait (result, waits) = (result, wait ∷ waits)

-- The `match` on what was received.
abbrev pub received :
    {A : Type 0} → ℕ → ℕ → Outcome DhcpStage A → Option (Answer A) → Option (Answer A)
received attempt wait (ok message) rest = some (ok message, wait ∷ [])
received attempt wait (err stage) rest =
    if is_timeout stage && ltb (attempt + 1) max_retries
    then Option.map (waited wait) rest
    else some (err stage, wait ∷ [])

abbrev pub sent : {A : Type 0} → ℕ → ℕ → Turn A → Option (Answer A) → Option (Answer A)
sent attempt remaining turn rest = elim turn.set_timeout [
  | some stage ↦ some (err stage, [])
  | none ↦ elim turn.send [
    | some stage ↦ some (err stage, [])
    | none ↦ received attempt (per_retry_timeout attempt remaining) turn.recv rest
  ]
]

abbrev pub in_time :
    {A : Type 0} → ℕ → Turn A → Outcome DhcpStage ℕ → Option (Answer A) → Option (Answer A)
in_time attempt turn (err stage) rest = some (err stage, [])
in_time attempt turn (ok remaining) rest = sent attempt remaining turn rest

-- The loop of either exchange, from turn `attempt` on; `none` only where the fuel runs out.
unfoldable pub retry_loop : {A : Type 0} → ℕ → ℕ → (ℕ → Turn A) → ℕ → Option (Answer A)
retry_loop zero attempt turns deadline = none
retry_loop (suc fuel) attempt turns deadline =
    let rest = retry_loop fuel (attempt + 1) turns deadline in
    in_time attempt (turns attempt) (remaining_or_timeout (turns attempt).now deadline) rest

-- What `recvfrom` gives: a frame, or an error that is the timeout or another one.
pub data Event : Type 0 where
  frame : Bytes → Event
  timed_out failed : Event

abbrev recv_stage : MessageType → DhcpStage
recv_stage offer = dhcp_recv_offer
recv_stage _ = dhcp_recv_ack

module _ (dhcproto : Dhcproto) where
  open dhcproto use {
    Message, decode, xid, msg_type, yiaddr, siaddr, server_identifier, subnet_mask, router,
    domain_name_server, address_lease_time,
  }

  unfoldable pub parsed_to_offer : Message → Offer
  parsed_to_offer msg = record {
    yiaddr = yiaddr msg;
    server_id = unwrap_or (server_identifier msg) (siaddr msg);
  }

  unfoldable pub parsed_to_lease : Message → Ipv4Addr → Ipv4Addr → DhcpLease
  parsed_to_lease msg offered_ip server_id = record {
    ip = (if is_unspecified (yiaddr msg) then offered_ip else yiaddr msg);
    netmask = unwrap_or (subnet_mask msg) (record { a = 255; b = 255; c = 255; d = 0 });
    gateway = first_of (router msg);
    dns = unwrap_or (domain_name_server msg) [];
    server_id = unwrap_or (server_identifier msg) server_id;
    lease_secs = unwrap_or (address_lease_time msg) 0;
  }

  -- A decoded message: `none` goes on reading.
  abbrev pub accept : ℕ → MessageType → Message → Option (Outcome DhcpStage Message)
  accept id want msg =
      if not (xid msg == id)
      then none
      else if has_type (msg_type msg) nak
      then some (err dhcp_nak)
      else if not (has_type (msg_type msg) want)
      then none
      else some (ok msg)

  abbrev pub accept_payload : ℕ → MessageType → Option Bytes → Option (Outcome DhcpStage Message)
  accept_payload id want none = none
  accept_payload id want (some payload) = elim (decode payload) [
    | none ↦ none
    | some msg ↦ accept id want msg
  ]

  -- The loop over the events of a socket; `none` where it still reads after the last of them.
  unfoldable pub recv_dhcp : ℕ → MessageType → List Event → Option (Outcome DhcpStage Message)
  recv_dhcp id want [] = none
  recv_dhcp id want (timed_out ∷ events) = some (err dhcp_timeout)
  recv_dhcp id want (failed ∷ events) = some (err (recv_stage want))
  recv_dhcp id want (frame bytes ∷ events) =
      let rest = recv_dhcp id want events in
      elim (accept_payload id want (strip_ip_udp bytes)) [ none ↦ rest | some result ↦ some result ]
