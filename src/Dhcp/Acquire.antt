-- ===== src/Dhcp/Acquire.antt =====
-- The two exchanges of net/dhcp/exchange.rs and `acquire` of net/dhcp/mod.rs.
use mathlib.Core.Option
use siratis_nmbl_bootloader.Prelude.{
  ℕ, Bool, not, Option, none, some, [], ◌++◌, if◌then◌else◌, ok, err,
}
use siratis_nmbl_bootloader.Dhcp.Packet.{Ipv4Addr}
use siratis_nmbl_bootloader.Dhcp.Exchange.{
  max_retries, dhcp_send_discover, dhcp_send_request, Dhcproto, Offer, DhcpLease, Turn, Answer,
  retry_loop, parsed_to_offer, parsed_to_lease,
}

abbrev pub convert : {A B : Type 0} → (A → B) → Answer A → Answer B
convert f (ok a, waits) = (ok (f a), waits)
convert f (err stage, waits) = (err stage, waits)

module _ (dhcproto : Dhcproto) where
  open dhcproto use {Message}

  -- `encoded` is whether the crate encodes the packet.
  unfoldable pub discover_until_offer : Bool → (ℕ → Turn Message) → ℕ → Option (Answer Offer)
  discover_until_offer encoded turns deadline =
      if not encoded
      then some (err dhcp_send_discover, [])
      else Option.map (convert (parsed_to_offer dhcproto)) (retry_loop max_retries 0 turns deadline)

  unfoldable pub request_until_ack :
      Bool → Ipv4Addr → Ipv4Addr → (ℕ → Turn Message) → ℕ → Option (Answer DhcpLease)
  request_until_ack encoded offered_ip server_id turns deadline =
      if not encoded
      then some (err dhcp_send_request, [])
      else Option.map (convert (λ msg. parsed_to_lease dhcproto msg offered_ip server_id))
          (retry_loop max_retries 0 turns deadline)

  abbrev pub then_request :
      (Offer → Option (Answer DhcpLease)) → Answer Offer → Option (Answer DhcpLease)
  then_request request (err stage, waits) = some (err stage, waits)
  then_request request (ok offer, waits) =
      Option.map (λ (a : Answer DhcpLease). (a.0, waits ++ a.1)) (request offer)

  -- From the open socket on; the turns of the second exchange may depend on the offer.
  unfoldable pub acquire :
      Bool
      → (ℕ → Turn Message)
      → (Offer → Bool)
      → (Offer → ℕ → Turn Message)
      → ℕ
      → Option (Answer DhcpLease)
  acquire discover_encoded discovers request_encoded requests deadline =
      elim (discover_until_offer discover_encoded discovers deadline) [
        | none ↦ none
        | some answer ↦
            then_request
              (λ offer.
                request_until_ack (request_encoded offer) offer.yiaddr offer.server_id
                  (requests offer) deadline)
              answer
      ]
