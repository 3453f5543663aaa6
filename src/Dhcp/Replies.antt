-- ===== src/Dhcp/Replies.antt =====
-- Which message `recv_dhcp` of net/dhcp/socket.rs accepts.
use siratis_nmbl_bootloader.Prelude.{
  ℕ, ◌≡◌, refl, ap, subst, ◌∙◌, ◌≢◌, ◌↔◌, ◌⊎◌, inl, inr, true, false, Option, none, some, List, [],
  ◌∷◌, arith, ◌==◌, Bool-cases, Bytes, Outcome, ok,
}
use siratis_nmbl_bootloader.Dhcp.Packet.{strip_ip_udp}
use siratis_nmbl_bootloader.Dhcp.Exchange.{
  DhcpStage, MessageType, has_type, Dhcproto, Event, accept, accept_payload, recv_dhcp, nak, frame,
  timed_out, failed,
}

module _ (dhcproto : Dhcproto) where
  open dhcproto use {Message}

  -- A message of the wanted type that a frame carries.
  pub record IsCarried (bytes : Bytes) (id : ℕ) (want : MessageType) (msg : Message) : Type 0 where
    pub payload : Bytes
    pub stripped : strip_ip_udp bytes ≡ some payload
    pub decoded : dhcproto.decode payload ≡ some msg
    pub ours : dhcproto.xid msg ≡ id
    pub wanted : has_type (dhcproto.msg_type msg) want ≡ true
    pub not_refused : has_type (dhcproto.msg_type msg) nak ≡ false

  accept-ok :
      (id : ℕ) (want : MessageType) (m msg : Message)
      → accept dhcproto id want m ≡ some (ok msg)
      → (m ≡ msg)
        × (dhcproto.xid m ≡ id)
        × (has_type (dhcproto.msg_type m) want ≡ true)
        × (has_type (dhcproto.msg_type m) nak ≡ false)
  accept-ok id want m msg h = (ground arith, ground arith, ground arith, ground arith)

  frame-IsCarried :
      (bytes payload : Bytes) (id : ℕ) (want : MessageType) (decoded : Option Message)
      (msg : Message)
      → strip_ip_udp bytes ≡ some payload
      → dhcproto.decode payload ≡ decoded
      → (elim decoded [ none ↦ none | some m ↦ accept dhcproto id want m ]) ≡ some (ok msg)
      → IsCarried bytes id want msg
  frame-IsCarried bytes payload id want none msg s d h = absurd (cc)
  frame-IsCarried bytes payload id want (some m) msg s d h =
      let (same, x, w, r) = accept-ok id want m msg h in
      record {
        payload = payload;
        stripped = s;
        decoded = d ∙ ap some same;
        ours = rw (← same) x;
        wanted = rw (← same) w;
        not_refused = rw (← same) r;
      }

  -- The message is carried by one of the frames that arrive, and all before it were passed over.
  pub data Receives (id : ℕ) (want : MessageType) (msg : Message) : List Event → Type 0 where
    now :
        {bytes : Bytes} {events : List Event}
        → IsCarried bytes id want msg
        → Receives id want msg (frame bytes ∷ events)
    later :
        {bytes : Bytes} {events : List Event}
        → accept_payload dhcproto id want (strip_ip_udp bytes) ≡ none
        → Receives id want msg events
        → Receives id want msg (frame bytes ∷ events)

  received_frame :
      (id : ℕ) (want : MessageType) (msg : Message) (bytes : Bytes) (events : List Event)
      (payload : Option Bytes) (result : Option (Outcome DhcpStage Message))
      → strip_ip_udp bytes ≡ payload
      → accept_payload dhcproto id want payload ≡ result
      → (recv_dhcp dhcproto id want events ≡ some (ok msg) → Receives id want msg events)
      → (elim result [ none ↦ recv_dhcp dhcproto id want events | some result ↦ some result ])
        ≡ some (ok msg)
      → Receives id want msg (frame bytes ∷ events)
  received_frame id want msg bytes events payload none es er ih h = later (rw es er) (ih h)
  received_frame id want msg bytes events none (some r) es er ih h = absurd (cc)
  received_frame id want msg bytes events (some payload) (some r) es er ih h =
      now (frame-IsCarried bytes payload id want (dhcproto.decode payload) msg es refl (er ∙ h))

  -- A message that is accepted was the payload of a frame that arrived, has our transaction id and
  -- the wanted type, and is no refusal; every frame before it was passed over.
  pub recv_dhcp-Receives :
      (id : ℕ) (want : MessageType) (msg : Message) (events : List Event)
      → recv_dhcp dhcproto id want events ≡ some (ok msg)
      → Receives id want msg events
  unfolding recv_dhcp
  recv_dhcp-Receives id want msg [] h = absurd (cc)
  recv_dhcp-Receives id want msg (timed_out ∷ events) h = absurd (cc)
  recv_dhcp-Receives id want msg (failed ∷ events) h = absurd (cc)
  recv_dhcp-Receives id want msg (frame bytes ∷ events) h =
      received_frame id want msg bytes events (strip_ip_udp bytes)
        (accept_payload dhcproto id want (strip_ip_udp bytes)) refl refl
        (λ e. recv_dhcp-Receives id want msg events e) h

  -- A frame that carries no message, or one of another transaction, or one that is neither of the wanted
  -- type nor a refusal.
  abbrev pub IsForeign : ℕ → MessageType → Bytes → Type 0
  IsForeign id want bytes =
      (payload : Bytes) (msg : Message)
      → strip_ip_udp bytes ≡ some payload
      → dhcproto.decode payload ≡ some msg
      → (dhcproto.xid msg ≢ id)
        ⊎ ((has_type (dhcproto.msg_type msg) nak ≡ false)
            × (has_type (dhcproto.msg_type msg) want ≡ false))

  ignored :
      (id : ℕ) (want : MessageType) (msg : Message)
      → accept dhcproto id want msg ≡ none
      → (dhcproto.xid msg ≢ id)
        ⊎ ((has_type (dhcproto.msg_type msg) nak ≡ false)
            × (has_type (dhcproto.msg_type msg) want ≡ false))
  ignored id want msg h = elim (Bool-cases (dhcproto.xid msg == id)) [
    | inl ours ↦ inr (ground arith, ground arith)
    | inr theirs ↦ inl (λ e. ground arith)
  ]

  ignores :
      (id : ℕ) (want : MessageType) (msg : Message)
      → (dhcproto.xid msg ≢ id)
        ⊎ ((has_type (dhcproto.msg_type msg) nak ≡ false)
            × (has_type (dhcproto.msg_type msg) want ≡ false))
      → accept dhcproto id want msg ≡ none
  ignores id want msg (inl theirs) = ground arith
  ignores id want msg (inr (a, b)) = ground arith

  passed-IsForeign :
      (id : ℕ) (want : MessageType) (bytes : Bytes)
      → accept_payload dhcproto id want (strip_ip_udp bytes) ≡ none
      → IsForeign id want bytes
  passed-IsForeign id want bytes h payload msg s d = ignored id want msg (
      subst (λ o. (elim o [ none ↦ none | some m ↦ accept dhcproto id want m ]) ≡ none) d
        (subst (λ o. accept_payload dhcproto id want o ≡ none) s h))

  IsForeign-passed :
      (id : ℕ) (want : MessageType) (bytes : Bytes)
      → IsForeign id want bytes
      → accept_payload dhcproto id want (strip_ip_udp bytes) ≡ none
  IsForeign-passed id want bytes foreign = stripped (strip_ip_udp bytes) refl
    where
      decoded :
          (payload : Bytes) (o : Option Message)
          → strip_ip_udp bytes ≡ some payload
          → dhcproto.decode payload ≡ o
          → (elim o [ none ↦ none | some m ↦ accept dhcproto id want m ]) ≡ none
      decoded payload none s d = refl
      decoded payload (some m) s d = ignores id want m (foreign payload m s d)

      stripped :
          (o : Option Bytes) → strip_ip_udp bytes ≡ o → accept_payload dhcproto id want o ≡ none
      stripped none s = refl
      stripped (some payload) s = decoded payload (dhcproto.decode payload) s refl

  -- Nothing but foreign frames.
  pub data IsChatter (id : ℕ) (want : MessageType) : List Event → Type 0 where
    silence : IsChatter id want []
    noise :
        {bytes : Bytes} {events : List Event}
        → IsForeign id want bytes
        → IsChatter id want events
        → IsChatter id want (frame bytes ∷ events)

  IsChatter-waits :
      (id : ℕ) (want : MessageType) {events : List Event}
      → IsChatter id want events
      → recv_dhcp dhcproto id want events ≡ none
  unfolding recv_dhcp
  IsChatter-waits id want silence = refl
  IsChatter-waits id want (noise {bytes} {events} e c) =
      rw (IsForeign-passed id want bytes e, recv_dhcp) (IsChatter-waits id want c)

  waits-IsChatter :
      (id : ℕ) (want : MessageType) (events : List Event)
      → recv_dhcp dhcproto id want events ≡ none
      → IsChatter id want events
  unfolding recv_dhcp
  waits-IsChatter id want [] h = silence
  waits-IsChatter id want (timed_out ∷ events) h = absurd (cc)
  waits-IsChatter id want (failed ∷ events) h = absurd (cc)
  waits-IsChatter id want (frame bytes ∷ events) h =
      passed_over (accept_payload dhcproto id want (strip_ip_udp bytes)) refl
        (λ e. waits-IsChatter id want events e) h
    where
      passed_over :
          (result : Option (Outcome DhcpStage Message))
          → accept_payload dhcproto id want (strip_ip_udp bytes) ≡ result
          → (recv_dhcp dhcproto id want events ≡ none → IsChatter id want events)
          → (elim result [ none ↦ recv_dhcp dhcproto id want events | some result ↦ some result ])
            ≡ none
          → IsChatter id want (frame bytes ∷ events)
      passed_over none e ih q = noise (passed-IsForeign id want bytes e) (ih q)
      passed_over (some r) e ih q = absurd (cc)

  -- `recv_dhcp` still reads after a sequence of events exactly where each of them is a frame that
  -- carries no message, or one of another transaction, or one that is neither of the wanted type nor a
  -- refusal.
  pub recv_dhcp-IsChatter :
      (id : ℕ) (want : MessageType) (events : List Event)
      → (recv_dhcp dhcproto id want events ≡ none) ↔ IsChatter id want events
  recv_dhcp-IsChatter id want events =
      (waits-IsChatter id want events, λ c. IsChatter-waits id want c)
