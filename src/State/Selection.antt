-- ===== src/State/Selection.antt =====
-- What select_with_stateful and select_default_with_stateful of main_parts/stateful.rs return.
use siratis_nmbl_bootloader.Prelude.{ℕ, ◌≡◌, refl, ◌≢◌, Option, none, some, List, arith}
use siratis_nmbl_bootloader.State.Types.{
  State, Generation, StatefulDecision, honour_tui, force_pick, exhausted,
}
use siratis_nmbl_bootloader.State.Decide.{decide}
use siratis_nmbl_bootloader.State.Error.{Result, ok, err, config_invalid}
use siratis_nmbl_bootloader.State.Io.{Cbor, Faults, Disk, read}
use siratis_nmbl_bootloader.State.Dispatch.{
  Decision, boot, active_generation_index, resolve, select_after_read, select_with_stateful,
  default_boot, default_in_state, default_after_read, select_default_with_stateful, record_decision,
}
use siratis_nmbl_bootloader.State.Proven.{IsProven}
use siratis_nmbl_bootloader.State.Rollback.{decide-IsProven}

module _ (cbor : Cbor) where
  default_in_state_lem :
      (os : Faults) (s : State) (generations : List Generation) (i : ℕ) (d : StatefulDecision)
      (disk : Disk)
      → default_in_state cbor os s generations i d disk ≡ (
        resolve d generations (default_boot cbor i),
        record_decision cbor os s generations (resolve d generations (default_boot cbor i)) disk,
      )
  unfolding resolve
  default_in_state_lem os s gs i honour_tui disk = refl
  default_in_state_lem os s gs i (force_pick idx) disk = ground arith
  default_in_state_lem os s gs i exhausted disk = refl

  default_after_read_lem :
      (os : Faults) (r : Result (Option State)) (generations : List Generation) (active max i : ℕ)
      (disk : Disk)
      → default_after_read cbor os r generations active max i disk
        ≡ select_after_read cbor os r generations active max (default_boot cbor i) disk
  default_after_read_lem os (ok (some s)) gs a max i disk =
      default_in_state_lem os (decide s gs a max).1 gs i (decide s gs a max).0 disk
  default_after_read_lem os (ok none) gs a max i disk = refl
  default_after_read_lem os (err e) gs a max i disk = refl

  -- Skipping the selector boots, and writes to the file, exactly as a selector does that picks the
  -- default generation, whatever is on disk and whatever fails.
  pub select_default_with_stateful_lem :
      (os_read os_write : Faults) (stateful : Option ℕ) (generations : List Generation)
      (profile : Option ℕ) (default_index : ℕ) (disk : Disk)
      → select_default_with_stateful cbor os_read os_write stateful generations profile
          default_index disk
        ≡ select_with_stateful cbor os_read os_write stateful generations profile
            (ok (boot default_index none))
            disk
  unfolding select_default_with_stateful select_with_stateful
  select_default_with_stateful_lem os os' none gs p i disk = refl
  select_default_with_stateful_lem os os' (some max) gs p i disk =
      default_after_read_lem os' (read cbor os disk) gs (active_generation_index gs p) max i disk

  resolve_valid :
      (s : State) (generations : List Generation) (d : StatefulDecision)
      (selected : Result Decision)
      → ((j : ℕ) → d ≡ force_pick j → IsProven s generations j)
      → selected ≢ err config_invalid
      → resolve d generations selected ≢ err config_invalid
  unfolding resolve
  resolve_valid s gs honour_tui selected safe ne e = ne e
  resolve_valid s gs (force_pick j) selected safe ne e =
      let (n, at, _) = safe j refl in ground arith
  resolve_valid s gs exhausted selected safe ne e = cc

  valid_after_read :
      (os : Faults) (r : Result (Option State)) (generations : List Generation) (active max : ℕ)
      (selected : Result Decision) (disk : Disk)
      → selected ≢ err config_invalid
      → (select_after_read cbor os r generations active max selected disk).0 ≢ err config_invalid
  valid_after_read os (ok (some s)) gs a max selected disk ne =
      resolve_valid s gs (decide s gs a max).0 selected (λ j e. decide-IsProven s gs a max j e) ne
  valid_after_read os (ok none) gs a max selected disk ne = ne
  valid_after_read os (err e) gs a max selected disk ne = ne

  -- The error for a forced index that no generation has is not returned, unless by the selector.
  pub select_with_stateful_valid :
      (os_read os_write : Faults) (stateful : Option ℕ) (generations : List Generation)
      (profile : Option ℕ) (selected : Result Decision) (disk : Disk)
      → selected ≢ err config_invalid
      → (select_with_stateful cbor os_read os_write stateful generations profile selected disk).0
        ≢ err config_invalid
  unfolding select_with_stateful
  select_with_stateful_valid os os' none gs p selected disk ne = ne
  select_with_stateful_valid os os' (some max) gs p selected disk ne =
      valid_after_read os' (read cbor os disk) gs (active_generation_index gs p) max selected disk
        ne
