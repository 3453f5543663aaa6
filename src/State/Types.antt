-- ===== src/State/Types.antt =====
-- state/types.rs: the persistent boot state and the outcome of the rollback decision; and the
-- `Generation` of generations/mod.rs. A `NonMaxU32` and a `u32` are numbers; their ranges are
-- stated where a theorem needs them. A path is the text of its name.
use text.Mathlib.TextPositions.{eq_refl}
use siratis_nmbl_bootloader.Prelude.{
  ℕ, ◌*◌, String, ◌≡◌, refl, Bool, true, false, not, ◌&&◌, Option, none, some, List, [], ◌∷◌, arith,
  ◌==◌, str_eq, opt_eq, opt_eq_iff, replicate,
}

abbrev pub known_version : ℕ
known_version = 1

abbrev pub file_size : ℕ
file_size = 16 * 1024

abbrev pub ring_len : ℕ
ring_len = 20

pub record State : Type 0 where
  pub state_format_version : ℕ
  pub last_attempted_generation : Option ℕ
  pub last_boot_succeeded : Bool
  pub recovery_attempt : ℕ
  pub rescue_booted_generation : Option ℕ
  pub rescue_exit_retry_in_progress : Bool
  pub known_good_generations : List (Option ℕ)
  pub unproven_generation : Option ℕ
  pub unproven_failed : Bool
  pub unproven_system : Option String

abbrev pub default_known_good : List (Option ℕ)
default_known_good = replicate ring_len none

abbrev pub default_state : State
default_state = record {
  state_format_version = known_version;
  last_attempted_generation = none;
  last_boot_succeeded = true;
  recovery_attempt = 0;
  rescue_booted_generation = none;
  rescue_exit_retry_in_progress = false;
  known_good_generations = default_known_good;
  unproven_generation = none;
  unproven_failed = false;
  unproven_system = none;
}

pub data StatefulDecision : Type 0 where
  honour_tui : StatefulDecision
  force_pick : ℕ → StatefulDecision
  exhausted : StatefulDecision

pub record Generation : Type 0 where
  pub number : ℕ
  pub profile_link : String
  pub toplevel : String
  pub kernel : String
  pub initrd : String
  pub init_path : String
  pub kernel_params : List String
  pub label : String

-- `==` on `Option<String>`.
abbrev opt_str_eq : Option String → Option String → Bool
opt_str_eq none none = true
opt_str_eq none (some b) = false
opt_str_eq (some a) none = false
opt_str_eq (some a) (some b) = str_eq a b

abbrev bool_eq : Bool → Bool → Bool
bool_eq true b = b
bool_eq false b = not b

abbrev slots_eq : List (Option ℕ) → List (Option ℕ) → Bool
slots_eq [] [] = true
slots_eq [] (y ∷ ys) = false
slots_eq (x ∷ xs) [] = false
slots_eq (x ∷ xs) (y ∷ ys) = opt_eq x y && slots_eq xs ys

-- The derived `PartialEq` of `State`.
unfoldable pub state_eq : State → State → Bool
state_eq a b =
    (a.state_format_version == b.state_format_version)
    && opt_eq a.last_attempted_generation b.last_attempted_generation
    && bool_eq a.last_boot_succeeded b.last_boot_succeeded
    && (a.recovery_attempt == b.recovery_attempt)
    && opt_eq a.rescue_booted_generation b.rescue_booted_generation
    && bool_eq a.rescue_exit_retry_in_progress b.rescue_exit_retry_in_progress
    && slots_eq a.known_good_generations b.known_good_generations
    && opt_eq a.unproven_generation b.unproven_generation
    && bool_eq a.unproven_failed b.unproven_failed
    && opt_str_eq a.unproven_system b.unproven_system

slots_eq_refl : (xs : List (Option ℕ)) → slots_eq xs xs ≡ true
slots_eq_refl [] = refl
slots_eq_refl (none ∷ xs) = slots_eq_refl xs
slots_eq_refl (some n ∷ xs) = ground (arith, slots_eq_refl xs)

opt_str_eq_refl : (a : Option String) → opt_str_eq a a ≡ true
opt_str_eq_refl none = refl
opt_str_eq_refl (some a) = eq_refl a

bool_eq_refl : (b : Bool) → bool_eq b b ≡ true
bool_eq_refl true = refl
bool_eq_refl false = refl

opt_eq_refl : (a : Option ℕ) → opt_eq a a ≡ true
opt_eq_refl a = (opt_eq_iff a a).1 refl

==-refl : (a : ℕ) → (a == a) ≡ true
==-refl a = ground arith

pub state_eq_refl : (s : State) → state_eq s s ≡ true
unfolding state_eq
state_eq_refl s = simp (==-refl, opt_eq_refl, bool_eq_refl, slots_eq_refl, opt_str_eq_refl)
