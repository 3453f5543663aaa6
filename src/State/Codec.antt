-- ===== src/State/Codec.antt =====
-- A codec for runs, in place of ciborium: it writes the fields one after the other, the ring behind
-- its length, and refuses a state with a system path.
use siratis_nmbl_bootloader.Prelude.{
  get_or, ◌+◌, ℕ, zero, suc, String, ◌≡◌, refl, ap₂, subst, Bool, true, false, Option, none, some,
  List, [], ◌∷◌, ◌++◌, map, arith, length, take,
}
use siratis_nmbl_bootloader.State.Types.{State}
use siratis_nmbl_bootloader.State.Io.{Cbor}
use siratis_nmbl_bootloader.State.Durability.{IsSelfDelimiting}

abbrev put_opt : Option ℕ → ℕ
put_opt none = 0
put_opt (some n) = suc n

abbrev get_opt : ℕ → Option ℕ
get_opt zero = none
get_opt (suc n) = some n

abbrev put_bool : Bool → ℕ
put_bool false = 0
put_bool true = 1

abbrev get_bool : ℕ → Bool
get_bool zero = false
get_bool (suc n) = true

abbrev put_state : State → Option String → Option (List ℕ)
put_state s (some system) = none
put_state s none = some (
    s.state_format_version
    ∷ put_opt s.last_attempted_generation
    ∷ put_bool s.last_boot_succeeded
    ∷ s.recovery_attempt
    ∷ put_opt s.rescue_booted_generation
    ∷ put_bool s.rescue_exit_retry_in_progress
    ∷ put_opt s.unproven_generation
    ∷ put_bool s.unproven_failed
    ∷ length s.known_good_generations
    ∷ map put_opt s.known_good_generations)

abbrev get_state : List ℕ → Option State
get_state (v ∷ l ∷ o ∷ a ∷ b ∷ r ∷ u ∷ f ∷ n ∷ rest) = some (record {
  state_format_version = v;
  last_attempted_generation = get_opt l;
  last_boot_succeeded = get_bool o;
  recovery_attempt = a;
  rescue_booted_generation = get_opt b;
  rescue_exit_retry_in_progress = get_bool r;
  known_good_generations = map get_opt (take n rest);
  unproven_generation = get_opt u;
  unproven_failed = get_bool f;
  unproven_system = none;
})
get_state _ = none

abbrev pub toy : Cbor
toy = record {
  Value = List ℕ;
  write_state = λ s. put_state s s.unproven_system;
  read_state = get_state;
  write_value = λ bytes. some bytes;
  read_value = λ bytes. some (take (9 + get_or bytes 8 0) bytes);
}

get_opt-put_opt : (o : Option ℕ) → get_opt (put_opt o) ≡ o
get_opt-put_opt none = refl
get_opt-put_opt (some n) = refl

get_bool-put_bool : (b : Bool) → get_bool (put_bool b) ≡ b
get_bool-put_bool true = refl
get_bool-put_bool false = refl

get-put_slots :
    (ring : List (Option ℕ)) (rest : List ℕ)
    → map get_opt (take (length ring) (map put_opt ring ++ rest)) ≡ ring
get-put_slots [] rest = refl
get-put_slots (o ∷ ring) rest = ap₂ ◌∷◌ (get_opt-put_opt o) (get-put_slots ring rest)

put_state_system :
    (s : State) (o : Option String) (bytes rest : List ℕ)
    → s.unproven_system ≡ o
    → put_state s o ≡ some bytes
    → get_state (bytes ++ rest) ≡ some s
put_state_system s (some system) bytes rest e h = absurd (cc)
put_state_system s none bytes rest e h =
    subst (λ b. get_state (b ++ rest) ≡ some s) (some_injective h)
      (simp (get_opt-put_opt, get_bool-put_bool, get-put_slots) (ground arith))
  where
    some_injective : {b c : List ℕ} → some b ≡ some c → b ≡ c
    some_injective p = cc

pub toy-IsSelfDelimiting : IsSelfDelimiting toy
toy-IsSelfDelimiting = record {
  read_write = λ s bytes rest h. put_state_system s s.unproven_system bytes rest refl h;
}
