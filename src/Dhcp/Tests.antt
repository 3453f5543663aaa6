-- ===== src/Dhcp/Tests.antt =====
-- The DHCP modules at concrete inputs. In the toy protocol a message is four bytes: transaction,
-- type, and a byte of the address and of the server.
use siratis_nmbl_bootloader.Prelude.{
  ℕ, zero, suc, ◌<◌, ◌%◌, ◌≡◌, refl, ◌↔◌, true, Option, none, some, [], ◌∷◌, ◌++◌, arith, length,
  get_or, take, replicate, length-replicate, Bytes, ok, err,
}
use siratis_nmbl_bootloader.Dhcp.Packet.{
  Ipv4Addr, word_sum, fold_carries, ipv4_checksum, ipv4_header_len, wrap_ip_udp, strip_ip_udp,
}
use siratis_nmbl_bootloader.Dhcp.Checksum.{plain_sum, wrap_ip_udp-checksum}
use siratis_nmbl_bootloader.Dhcp.RoundTrip.{strip_ip_udp-wrap_ip_udp}
use siratis_nmbl_bootloader.Dhcp.Bounds.{IsWithin, strip_ip_udp-IsWithin}
use siratis_nmbl_bootloader.Dhcp.Exchange.{
  from_millis, per_retry_timeout, dhcp_timeout, MessageType, offer, ack, other, Dhcproto, Turn,
  retry_loop, max_retries, frame, timed_out, recv_dhcp,
}
use siratis_nmbl_bootloader.Dhcp.Acquire.{acquire}
use siratis_nmbl_bootloader.Dhcp.Retries.{HasEnded}
use siratis_nmbl_bootloader.Dhcp.Leases.{acquire-HasEnded}
use siratis_nmbl_bootloader.Dhcp.Replies.{
  Receives, recv_dhcp-Receives, IsChatter, recv_dhcp-IsChatter,
}

abbrev nowhere : Ipv4Addr
nowhere = record { a = 0; b = 0; c = 0; d = 0 }

abbrev everyone : Ipv4Addr
everyone = record { a = 255; b = 255; c = 255; d = 255 }

abbrev toy_frame : Bytes
toy_frame = wrap_ip_udp nowhere everyone 67 68 (7 ∷ 2 ∷ 9 ∷ 1 ∷ []) ++ (0 ∷ [])

abbrev toy_type : ℕ → MessageType
toy_type zero = ack
toy_type (suc zero) = other 1
toy_type (suc (suc n)) = offer

abbrev toy_decode : Bytes → Option Bytes
toy_decode [] = none
toy_decode (x ∷ xs) = some (x ∷ xs)

abbrev toy_address : ℕ → Ipv4Addr
toy_address n = record { a = 10; b = 0; c = 0; d = n }

abbrev toy : Dhcproto
toy = record {
  Message = Bytes;
  decode = toy_decode;
  xid = λ m. get_or m 0 0;
  msg_type = λ m. some (toy_type (get_or m 1 0));
  yiaddr = λ m. toy_address (get_or m 2 0);
  siaddr = λ m. toy_address (get_or m 3 0);
  server_identifier = λ m. none;
  subnet_mask = λ m. none;
  router = λ m. none;
  domain_name_server = λ m. none;
  address_lease_time = λ m. none;
}

strip_ip_udp-wrap_ip_udp_example : strip_ip_udp toy_frame ≡ some (7 ∷ 2 ∷ 9 ∷ 1 ∷ [])
strip_ip_udp-wrap_ip_udp_example =
    strip_ip_udp-wrap_ip_udp nowhere everyone 67 68 (7 ∷ 2 ∷ 9 ∷ 1 ∷ []) (0 ∷ []) (omega arith)

long_payload : 65507 < length {A = ℕ} (replicate 65508 0)
long_payload = omega (arith, length-replicate {A = ℕ} 65508 0)

wrap_ip_udp-checksum_example :
    (plain_sum (take ipv4_header_len (wrap_ip_udp nowhere everyone 68 67 (1 ∷ []))) % 65535 ≡ 0)
    × (ipv4_checksum (take ipv4_header_len (wrap_ip_udp nowhere everyone 68 67 (1 ∷ []))) ≡ 0)
wrap_ip_udp-checksum_example =
    wrap_ip_udp-checksum nowhere everyone 68 67 (1 ∷ []) (omega arith) (omega arith)

-- The example header of the repository's own test.
known_checksum :
    ipv4_checksum (
      69 ∷ 0 ∷ 0 ∷ 48 ∷ 68 ∷ 34 ∷ 64 ∷ 0 ∷ 128 ∷ 6 ∷ 0 ∷ 0 ∷ 140 ∷ 124 ∷ 25 ∷ 172 ∷ 174 ∷ 36 ∷ 30
      ∷ 43 ∷ [])
    ≡ 17454
unfolding ipv4_checksum word_sum fold_carries
known_checksum = refl

strip_ip_udp-IsWithin_example : IsWithin toy_frame (7 ∷ 2 ∷ 9 ∷ 1 ∷ [])
strip_ip_udp-IsWithin_example =
    strip_ip_udp-IsWithin toy_frame (7 ∷ 2 ∷ 9 ∷ 1 ∷ []) strip_ip_udp-wrap_ip_udp_example

-- A network that never answers.
abbrev silent : ℕ → Turn Bytes
silent attempt = record { now = 0; set_timeout = none; send = none; recv = err dhcp_timeout }

silent_times_out :
    retry_loop max_retries 0 silent (from_millis 60000)
    ≡ some (err dhcp_timeout, 1000000000 ∷ 2000000000 ∷ 4000000000 ∷ 4000000000 ∷ 4000000000 ∷ [])
unfolding retry_loop per_retry_timeout
silent_times_out = refl

abbrev answering : ℕ → Turn Bytes
answering attempt = record {
  now = 0;
  set_timeout = none;
  send = none;
  recv = ok (7 ∷ 2 ∷ 9 ∷ 1 ∷ []);
}

acquire-HasEnded_example :
    HasEnded 10
      (from_millis 30000)
      (acquire toy true answering (λ offer. true) (λ offer. answering) (from_millis 60000))
acquire-HasEnded_example =
    acquire-HasEnded toy true answering (λ offer. true) (λ offer. answering) (from_millis 60000)

offered :
    recv_dhcp toy 7 offer (frame (1 ∷ []) ∷ frame toy_frame ∷ timed_out ∷ [])
    ≡ some (ok (7 ∷ 2 ∷ 9 ∷ 1 ∷ []))
unfolding recv_dhcp strip_ip_udp wrap_ip_udp ipv4_checksum word_sum fold_carries
offered = refl

recv_dhcp-Receives_example :
    Receives toy 7 offer (7 ∷ 2 ∷ 9 ∷ 1 ∷ []) (frame (1 ∷ []) ∷ frame toy_frame ∷ timed_out ∷ [])
recv_dhcp-Receives_example =
    recv_dhcp-Receives toy 7 offer (7 ∷ 2 ∷ 9 ∷ 1 ∷ [])
      (frame (1 ∷ []) ∷ frame toy_frame ∷ timed_out ∷ []) offered

recv_dhcp-IsChatter_example :
    (recv_dhcp toy 7 ack (frame toy_frame ∷ frame toy_frame ∷ []) ≡ none)
    ↔ IsChatter toy 7 ack (frame toy_frame ∷ frame toy_frame ∷ [])
recv_dhcp-IsChatter_example = recv_dhcp-IsChatter toy 7 ack (frame toy_frame ∷ frame toy_frame ∷ [])

-- An offer does not end the wait for an acknowledgement.
still_reading : recv_dhcp toy 7 ack (frame toy_frame ∷ frame toy_frame ∷ []) ≡ none
unfolding recv_dhcp strip_ip_udp wrap_ip_udp ipv4_checksum word_sum fold_carries
still_reading = refl
