-- ===== src/State/RescueRetry.antt =====
-- state/rescue_exit.rs: a retry after a rescue is authorized once, on disk, before it is dispatched.
use siratis_nmbl_bootloader.Prelude.{
  ℕ, ◌≤◌, ◌≡◌, refl, inl, inr, true, false, Option, none, some, List, arith, opt_eq_iff, Bool-cases,
}
use siratis_nmbl_bootloader.State.Types.{State, Generation, known_version, exhausted}
use siratis_nmbl_bootloader.State.Decide.{decide}
use siratis_nmbl_bootloader.State.Error.{Result, ok, err}
use siratis_nmbl_bootloader.State.Mark.{consume_retry, may_retry, contains}
use siratis_nmbl_bootloader.State.Io.{
  Cbor, Faults, no_faults, Disk, read, decode_file, write_padded,
}
use siratis_nmbl_bootloader.State.Durability.{
  IsSelfDelimiting, write_padded-IsWritten, read_of_IsWritten,
}
use siratis_nmbl_bootloader.State.Persist.{
  update, update_read, after_write, write_change, take_rescue_exit_retry, take_retry_change,
  take_authorized,
}

-- What authorizes a retry of generation `n`: a rescue that ran after its failed boot, and the
-- generation still being there.
pub record IsArmed (s : State) (n : ℕ) (available : List ℕ) : Type 0 where
  pub booted : s.rescue_booted_generation ≡ some n
  pub failed : s.last_boot_succeeded ≡ false
  pub last : s.last_attempted_generation ≡ some n
  pub present : contains n available ≡ true

-- The state after the authorization is used.
abbrev pub used : State → State
used s = record s { rescue_booted_generation = none; rescue_exit_retry_in_progress = true }

consume-IsArmed :
    (s : State) (g n : ℕ) (available : List ℕ)
    → s.rescue_booted_generation ≡ some g
    → (consume_retry s g available).1 ≡ some n
    → IsArmed s n available × ((consume_retry s g available).0 ≡ used s)
unfolding consume_retry
consume-IsArmed s g n available b h = elim (Bool-cases (may_retry s g available)) [
  | inr no_retry ↦ absurd (ground arith)
  | inl retry ↦
      let e : g ≡ n = ground arith in
      (
        record {
          booted = ground arith;
          failed = ground arith;
          last = ground (arith, opt_eq_iff s.last_attempted_generation (some g));
          present = rw e at (let p : contains g available ≡ true = ground arith in p);
        },
        ground arith,
      )
]

after_write-some :
    {A : Type 0} (a b : A) (r : Result (Unit {0}) × Disk)
    → (after_write a r).0 ≡ ok b
    → (a ≡ b) × (r.0 ≡ ok tt) × ((after_write a r).1 ≡ r.1)
after_write-some a b (ok _, disk) h = (ground arith, refl, refl)
after_write-some a b (err e, disk) h = absurd (cc)

-- What is known where a retry of `n` was handed out.
pub record Taken (cbor : Cbor) (n : ℕ) (available : List ℕ) (before : Result (Option State))
    (after : Disk) : Type 0 where
  pub s : State
  pub read_before : before ≡ ok (some s)
  pub armed : IsArmed s n available
  pub read_after : read cbor no_faults after ≡ ok (some (used s))

module _ (cbor : Cbor) (codec : IsSelfDelimiting cbor) where
  Taken-write :
      (os : Faults) (s s' : State) (available : List ℕ) (n : ℕ) (o : Option ℕ) (disk : Disk)
      → s.state_format_version ≤ known_version
      → IsArmed s n available
      → s' ≡ used s
      → (after_write o (write_padded cbor os s' disk)).0 ≡ ok (some n)
      → Taken cbor n available (ok (some s)) (after_write o (write_padded cbor os s' disk)).1
  Taken-write os s s' available n o disk v a e h =
      let (p, w, d) = after_write-some o (some n) (write_padded cbor os s' disk) h in
      record {
        s = s;
        read_before = refl;
        armed = a;
        read_after =
            rw (d, ← e)
              (read_of_IsWritten codec (rw e v) (write_padded-IsWritten cbor os s' disk w));
      }

  Taken-read :
      (os : Faults) (available : List ℕ) (n : ℕ) (disk : Disk) (r : Result (Option State))
      → ((s : State) → r ≡ ok (some s) → s.state_format_version ≤ known_version)
      → (update_read cbor os none (take_retry_change available) disk r).0 ≡ ok (some n)
      → Taken cbor n available r (update_read cbor os none (take_retry_change available) disk r).1
  Taken-read os available n disk (err e) v h = absurd (cc)
  Taken-read os available n disk (ok none) v h = absurd (cc)
  Taken-read os available n disk (ok (some s)) v h = booted s.rescue_booted_generation refl h
    where
      booted :
          (o : Option ℕ)
          → s.rescue_booted_generation ≡ o
          → (write_change cbor os disk (take_authorized o available s)).0 ≡ ok (some n)
          → Taken cbor n available
              (ok (some s))
              (write_change cbor os disk (take_authorized o available s)).1
      booted none e p = absurd (cc)
      booted (some g) e p =
          let (same, w, d) =
            after_write-some (consume_retry s g available).1 (some n)
              (write_padded cbor os (consume_retry s g available).0 disk) p in
          let (a, u) = consume-IsArmed s g n available e same in
          Taken-write os s (consume_retry s g available).0 available n
            (consume_retry s g available).1 disk (v s refl) a u p

  read_version :
      (os : Faults) (disk : Disk) (s : State)
      → read cbor os disk ≡ ok (some s)
      → s.state_format_version ≤ known_version
  unfolding read decode_file
  read_version os disk s h = ground arith

  -- Where the codec is self-delimiting, a retry of a generation is handed out only where the file on disk authorizes that generation,
  -- its boot was the last and failed, and it is still available; and then only after the file
  -- records the authorization as used.
  pub take_rescue_exit_retry-Taken :
      (os_read os_write : Faults) (available : List ℕ) (n : ℕ) (disk : Disk)
      → (take_rescue_exit_retry cbor os_read os_write available disk).0 ≡ ok (some n)
      → Taken cbor n available
          (read cbor os_read disk)
          (take_rescue_exit_retry cbor os_read os_write available disk).1
  unfolding update
  take_rescue_exit_retry-Taken os os' available n disk h =
      Taken-read os' available n disk (read cbor os disk) (read_version os disk) h

  take_used :
      (os' : Faults) (s : State) (available : List ℕ) (disk : Disk)
      → read cbor no_faults disk ≡ ok (some (used s))
      → take_rescue_exit_retry cbor no_faults os' available disk ≡ (ok none, disk)
  unfolding update
  take_used os' s available disk e = rw e refl

  -- The authorization is good for one retry, where the codec is self-delimiting. After a retry was
  -- handed out, taking it again, the file being readable, gives none and leaves the file as it is,
  -- whatever generations are available; and `decide`, in the state then on disk, gives up and
  -- changes nothing, whatever the generations and the budget.
  pub take_rescue_exit_retry_once :
      (os_read os_write os_write' : Faults) (available later : List ℕ) (n : ℕ) (disk : Disk)
      → (take_rescue_exit_retry cbor os_read os_write available disk).0 ≡ ok (some n)
      → let after = (take_rescue_exit_retry cbor os_read os_write available disk).1 in
        (take_rescue_exit_retry cbor no_faults os_write' later after ≡ (ok none, after))
        × ((s : State) × (read cbor no_faults after ≡ ok (some s))
            × ((generations : List Generation) (active_index max : ℕ)
                → decide s generations active_index max ≡ (exhausted, s)))
  unfolding decide
  take_rescue_exit_retry_once os os' os'' available later n disk h =
      let t = take_rescue_exit_retry-Taken os os' available n disk h in
      (
        take_used os'' t.s later _ t.read_after,
        (used t.s, t.read_after, λ gs a max. rw t.armed.failed),
      )
