-- ===== src/Dhcp/Leases.antt =====
-- What net/dhcp/mod.rs returns: how long it takes, and which message it accepts.
use mathlib.Core.Option
use siratis_nmbl_bootloader.Prelude.{
  ℕ, ◌+◌, ◌≤◌, ◌≡◌, refl, Bool, true, false, Option, none, some, List, [], ◌∷◌, ◌++◌, arith, length,
  length-append, ok, err,
}
use siratis_nmbl_bootloader.Dhcp.Packet.{Ipv4Addr}
use siratis_nmbl_bootloader.Dhcp.Exchange.{
  from_millis, DhcpStage, Dhcproto, Offer, DhcpLease, Turn, Answer, parsed_to_offer,
  parsed_to_lease,
}
use siratis_nmbl_bootloader.Dhcp.Acquire.{
  convert, discover_until_offer, request_until_ack, then_request, acquire,
}
use siratis_nmbl_bootloader.Dhcp.Retries.{HasEnded, total, retry_loop-HasEnded}

convert_waits : {A B : Type 0} (f : A → B) (a : Answer A) → (convert f a).1 ≡ a.1
convert_waits f (ok a, waits) = refl
convert_waits f (err stage, waits) = refl

map-HasEnded :
    {A B : Type 0} (f : A → B) {turns longest : ℕ} {o : Option (Answer A)}
    → HasEnded turns longest o
    → HasEnded turns longest (Option.map (convert f) o)
map-HasEnded f h = record {
  answer = convert f h.answer;
  ended = rw h.ended refl;
  few = rw (convert_waits f h.answer) h.few;
  short = rw (convert_waits f h.answer) h.short;
}

total-append : (xs ys : List ℕ) → total (xs ++ ys) ≡ total xs + total ys
total-append [] ys = omega arith
total-append (x ∷ xs) ys = omega (arith, total-append xs ys)

at_once :
    {A : Type 0} (stage : DhcpStage) → HasEnded {A = A} 5 (from_millis 15000) (some (err stage, []))
at_once stage = record {
  answer = (err stage, []);
  ended = refl;
  few = omega arith;
  short = omega arith;
}

module _ (dhcproto : Dhcproto) where
  open dhcproto use {Message}

  discover-HasEnded :
      (encoded : Bool) (turns : ℕ → Turn Message) (deadline : ℕ)
      → HasEnded 5 (from_millis 15000) (discover_until_offer dhcproto encoded turns deadline)
  unfolding discover_until_offer
  discover-HasEnded false turns deadline = at_once _
  discover-HasEnded true turns deadline =
      map-HasEnded (parsed_to_offer dhcproto) (retry_loop-HasEnded turns deadline)

  request-HasEnded :
      (encoded : Bool) (ip server_id : Ipv4Addr) (turns : ℕ → Turn Message) (deadline : ℕ)
      → HasEnded 5
          (from_millis 15000)
          (request_until_ack dhcproto encoded ip server_id turns deadline)
  unfolding request_until_ack
  request-HasEnded false ip server_id turns deadline = at_once _
  request-HasEnded true ip server_id turns deadline =
      map-HasEnded (λ msg. parsed_to_lease dhcproto msg ip server_id)
        (retry_loop-HasEnded turns deadline)

  then-HasEnded :
      (request : Offer → Option (Answer DhcpLease)) (a : Answer Offer)
      → length a.1 ≤ 5
      → total a.1 ≤ from_millis 15000
      → ((o : Offer) → HasEnded 5 (from_millis 15000) (request o))
      → HasEnded 10 (from_millis 30000) (then_request dhcproto request a)
  then-HasEnded request (err stage, waits) few short h = record {
    answer = (err stage, waits);
    ended = refl;
    few = omega arith;
    short = omega arith;
  }
  then-HasEnded request (ok offer, waits) few short h =
      let r = h offer in
      record {
        answer = (r.answer.0, waits ++ r.answer.1);
        ended = rw r.ended refl;
        few = omega (arith, few, r.few, length-append waits r.answer.1);
        short = omega (arith, short, r.short, total-append waits r.answer.1);
      }

  after_discover :
      (request : Offer → Option (Answer DhcpLease)) (o : Option (Answer Offer))
      → HasEnded 5 (from_millis 15000) o
      → ((offer : Offer) → HasEnded 5 (from_millis 15000) (request offer))
      → HasEnded 10
          (from_millis 30000)
          (elim o [ none ↦ none | some answer ↦ then_request dhcproto request answer ])
  after_discover request o d h = rw d.ended (then-HasEnded request d.answer d.few d.short h)

  -- Where each reception returns, acquiring a lease ends, with a lease or an error, after ten
  -- receptions at most, whatever they and the system calls give and whatever the clock shows; the
  -- receive timeouts that it sets are thirty seconds together at most.
  pub acquire-HasEnded :
      (discover_encoded : Bool) (discovers : ℕ → Turn Message) (request_encoded : Offer → Bool)
      (requests : Offer → ℕ → Turn Message) (deadline : ℕ)
      → HasEnded 10
          (from_millis 30000)
          (acquire dhcproto discover_encoded discovers request_encoded requests deadline)
  unfolding acquire
  acquire-HasEnded de ds re rs deadline =
      after_discover
        (λ offer.
          request_until_ack dhcproto (re offer) offer.yiaddr offer.server_id (rs offer) deadline)
        (discover_until_offer dhcproto de ds deadline) (discover-HasEnded de ds deadline)
        (λ offer. request-HasEnded (re offer) offer.yiaddr offer.server_id (rs offer) deadline)
