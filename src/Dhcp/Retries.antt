-- ===== src/Dhcp/Retries.antt =====
-- How often the loops of net/dhcp/exchange.rs turn, and how long they wait.
use siratis_nmbl_bootloader.Prelude.{
  ℕ, zero, suc, ◌+◌, ◌≤◌, ◌<◌, min, ◌≡◌, refl, ◌&&◌, Option, none, some, List, [], ◌∷◌, arith, ltb,
  if◌then◌else◌, if_case, length, Outcome, ok, err,
}
use siratis_nmbl_bootloader.Dhcp.Exchange.{
  max_retries, from_millis, min_per_retry, max_per_retry, per_retry_timeout, DhcpStage, Turn,
  Answer, retry_loop, remaining_or_timeout, in_time, sent, received, is_timeout, waited,
}

-- The longest wait of each turn.
abbrev pub cap : ℕ → ℕ
cap zero = 1000000000
cap (suc zero) = 2000000000
cap (suc (suc n)) = 4000000000

-- The clamping, for any backoff of at least half a second.
clamp_bounds :
    (base remaining : ℕ)
    → min_per_retry ≤ base
    → let upper : ℕ = if ltb remaining max_per_retry then remaining else max_per_retry in
      let t : ℕ =
        if ltb upper base then upper else if ltb base min_per_retry then min_per_retry else base in
      (t ≤ remaining)
      × (t ≤ max_per_retry)
      × (t ≤ base)
      × (min_per_retry ≤ remaining → min_per_retry ≤ t)
clamp_bounds base remaining h = (ground arith, ground arith, ground arith, λ k. ground arith)

min_three : (n : ℕ) → min (suc (suc (suc n))) 3 ≡ 3
min_three n = omega arith

-- A receive timeout is never longer than what remains until the deadline or than the turn's cap of
-- one, two and then four seconds, and not shorter than half a second where that much remains.
pub per_retry_timeout_bounds :
    (attempt remaining : ℕ)
    → (per_retry_timeout attempt remaining ≤ remaining)
      × (per_retry_timeout attempt remaining ≤ cap attempt)
      × (min_per_retry ≤ remaining → min_per_retry ≤ per_retry_timeout attempt remaining)
unfolding per_retry_timeout
per_retry_timeout_bounds zero remaining =
    let (a, b, c, d) = clamp_bounds 1000000000 remaining (omega arith) in (a, c, d)
per_retry_timeout_bounds (suc zero) remaining =
    let (a, b, c, d) = clamp_bounds 2000000000 remaining (omega arith) in (a, c, d)
per_retry_timeout_bounds (suc (suc zero)) remaining =
    let (a, b, c, d) = clamp_bounds 4000000000 remaining (omega arith) in (a, b, d)
per_retry_timeout_bounds (suc (suc (suc n))) remaining =
    rw (min_three n)
      (let (a, b, c, d) = clamp_bounds 8000000000 remaining (omega arith) in (a, b, d))

-- The longest wait of `fuel` turns from `attempt` on.
abbrev caps : ℕ → ℕ → ℕ
caps zero attempt = 0
caps (suc fuel) attempt = cap attempt + caps fuel (attempt + 1)

abbrev pub total : List ℕ → ℕ
total [] = 0
total (wait ∷ waits) = wait + total waits

-- A loop that has ended, after few turns and a short wait.
pub record HasEnded {A : Type 0} (turns longest : ℕ) (o : Option (Answer A)) : Type 0 where
  pub answer : Answer A
  pub ended : o ≡ some answer
  pub few : length answer.1 ≤ turns
  pub short : total answer.1 ≤ longest

received-HasEnded :
    {A : Type 0} (fuel attempt wait : ℕ) (recv : Outcome DhcpStage A) (rest : Option (Answer A))
    → suc fuel + attempt ≡ max_retries
    → wait ≤ cap attempt
    → (0 < fuel → HasEnded fuel (caps fuel (attempt + 1)) rest)
    → HasEnded (suc fuel) (caps (suc fuel) attempt) (received attempt wait recv rest)
received-HasEnded fuel attempt wait (ok m) rest e w ih = record {
  answer = (ok m, wait ∷ []);
  ended = refl;
  few = omega arith;
  short = omega arith;
}
received-HasEnded {A = A} fuel attempt wait (err stage) rest e w ih =
    if_case (λ (o : Option (Answer A)). HasEnded (suc fuel) (caps (suc fuel) attempt) o)
      (is_timeout stage && ltb (attempt + 1) max_retries)
      (λ again.
        let more : 0 < fuel = ground arith in
        let r = ih more in
        record {
          answer = waited wait r.answer;
          ended = rw r.ended refl;
          few = omega (arith, r.few);
          short = omega (arith, r.short, w);
        })
      (λ _. record {
        answer = (err stage, wait ∷ []);
        ended = refl;
        few = omega arith;
        short = omega arith;
      })

sent-HasEnded :
    {A : Type 0} (fuel attempt remaining : ℕ) (turn : Turn A) (rest : Option (Answer A))
    → suc fuel + attempt ≡ max_retries
    → (0 < fuel → HasEnded fuel (caps fuel (attempt + 1)) rest)
    → HasEnded (suc fuel) (caps (suc fuel) attempt) (sent attempt remaining turn rest)
sent-HasEnded {A = A} fuel attempt remaining turn rest e ih = go turn.set_timeout turn.send
  where
    stopped :
        (stage : DhcpStage)
        → HasEnded {A = A} (suc fuel) (caps (suc fuel) attempt) (some (err stage, []))
    stopped stage = record {
      answer = (err stage, []);
      ended = refl;
      few = omega arith;
      short = omega arith;
    }

    go :
        (set_timeout send : Option DhcpStage)
        → HasEnded (suc fuel) (caps (suc fuel) attempt) (elim set_timeout [
          | some stage ↦ some (err stage, [])
          | none ↦ elim send [
            | some stage ↦ some (err stage, [])
            | none ↦ received attempt (per_retry_timeout attempt remaining) turn.recv rest
          ]
        ])
    go (some stage) send = stopped stage
    go none (some stage) = stopped stage
    go none none =
        received-HasEnded fuel attempt (per_retry_timeout attempt remaining) turn.recv rest e
          (per_retry_timeout_bounds attempt remaining).1 ih

in_time-HasEnded :
    {A : Type 0} (fuel attempt : ℕ) (turn : Turn A) (left : Outcome DhcpStage ℕ)
    (rest : Option (Answer A))
    → suc fuel + attempt ≡ max_retries
    → (0 < fuel → HasEnded fuel (caps fuel (attempt + 1)) rest)
    → HasEnded (suc fuel) (caps (suc fuel) attempt) (in_time attempt turn left rest)
in_time-HasEnded fuel attempt turn (err stage) rest e ih = record {
  answer = (err stage, []);
  ended = refl;
  few = omega arith;
  short = omega arith;
}
in_time-HasEnded fuel attempt turn (ok remaining) rest e ih =
    sent-HasEnded fuel attempt remaining turn rest e ih

loop-HasEnded :
    {A : Type 0} (fuel attempt : ℕ) (turns : ℕ → Turn A) (deadline : ℕ)
    → fuel + attempt ≡ max_retries
    → 0 < fuel
    → HasEnded fuel (caps fuel attempt) (retry_loop fuel attempt turns deadline)
unfolding retry_loop
loop-HasEnded zero attempt turns deadline e p = absurd (omega arith)
loop-HasEnded (suc fuel) attempt turns deadline e p =
    in_time-HasEnded fuel attempt (turns attempt)
      (remaining_or_timeout (turns attempt).now deadline)
      (retry_loop fuel (attempt + 1) turns deadline) e
      (λ more. loop-HasEnded fuel (attempt + 1) turns deadline (omega arith) more)

-- Where each reception returns, an exchange ends after five of them at most, whatever they and the
-- system calls give and whatever the clock shows; the receive timeouts that it sets are fifteen
-- seconds together at most.
pub retry_loop-HasEnded :
    {A : Type 0} (turns : ℕ → Turn A) (deadline : ℕ)
    → HasEnded 5 (from_millis 15000) (retry_loop max_retries 0 turns deadline)
retry_loop-HasEnded turns deadline = loop-HasEnded 5 0 turns deadline refl (omega arith)
