-- ===== src/Refuse/Refused.antt =====
-- What a refused boot leaves behind.
use siratis_nmbl_bootloader.Prelude.{
  ◌≡◌, refl, sym, ap, subst, ◌∙◌, Bool, true, false, ◌||◌, Option, none, some, List, [], ◌∷◌, ◌++◌,
  append_assoc, if_case, Bytes, bytes_eq, bytes_eq_refl, Outcome, ok, err, Mem, first, later,
}
use siratis_nmbl_bootloader.Seal.Registry.{MapperEntry, Store, snapshot, mark_closed}
use siratis_nmbl_bootloader.Seal.Guard.{
  SealFailed, Os, close_one, Guard, close_best_effort, seal_for_refuse,
}
use siratis_nmbl_bootloader.Seal.Drained.{retain-Mem, snapshot-Mem}
use siratis_nmbl_bootloader.Refuse.Argv.{Activation, RelockCommand, relock_argv}
use siratis_nmbl_bootloader.Refuse.Relock.{
  Paths, RefuseConfig, Action, Machine, exists_in, remove_path, then_relocked, relock_volumes,
  refuse_require_tpm, written_at, resolve_sentinel_path, sentinel_present, should_force_rescue,
  write_sentinel, consume_after_rescue_booted, relock_and_refuse, sentinel_written, removed,
  refused,
}

-- The close of an entry did not confirm.
abbrev CloseFailed : Os → MapperEntry → Type 0
CloseFailed os e = (why : SealFailed) × (close_one os e ≡ err why)

-- Of the entries, those with the name of `m` were not closed.
abbrev NotClosed : Os → MapperEntry → List MapperEntry → Type 0
NotClosed os m entries =
    (e : MapperEntry) → Mem e entries → bytes_eq m.name e.name ≡ true → CloseFailed os e

also-NotClosed :
    (os : Os) (m : MapperEntry) (entry : MapperEntry) (entries : List MapperEntry)
    → (bytes_eq m.name entry.name ≡ true → CloseFailed os entry)
    → NotClosed os m entries
    → NotClosed os m (entry ∷ entries)
also-NotClosed os m entry entries f fs e first q = f q
also-NotClosed os m entry entries f fs e (later k) q = fs e k q

abbrev Left : Os → MapperEntry → List MapperEntry → Store → Store → Type 0
Left os m entries before after = Mem m after.mappers → Mem m before.mappers × NotClosed os m entries

close_best_effort-Left :
    (os : Os) (entries : List MapperEntry) (store : Store) (m : MapperEntry)
    → Left os m entries store (close_best_effort os entries store)
unfolding close_best_effort mark_closed
close_best_effort-Left os [] store m here = (here, λ e k. elim k [ ])
close_best_effort-Left os (entry ∷ entries) store m here =
    go (close_one os entry) refl
      (close_best_effort-Left os entries (mark_closed (os.remove entry) entry.name store) m)
      (close_best_effort-Left os entries store m) here
  where
    marked : Store
    marked = mark_closed (os.remove entry) entry.name store

    go :
        (r : Outcome SealFailed (Unit {0}))
        → close_one os entry ≡ r
        → Left os m entries marked (close_best_effort os entries marked)
        → Left os m entries store (close_best_effort os entries store)
        → Left os m (entry ∷ entries) store (elim r [
          | ok _ ↦ close_best_effort os entries marked
          | err why ↦ close_best_effort os entries store
        ])
    go (ok u) e closed kept k =
        let (there, others) = closed k in
        let (before, other) = retain-Mem entry.name store.mappers there in
        (before, also-NotClosed os m entry entries (λ q. absurd (cc)) others)
    go (err why) e closed kept k =
        let (there, others) = kept k in
        (there, also-NotClosed os m entry entries (λ q. (why, e)) others)

remove_path-gone : (p : Bytes) (files : List Bytes) → exists_in p (remove_path p files) ≡ false
unfolding remove_path
remove_path-gone p [] = refl
remove_path-gone p (f ∷ files) =
    if_case (λ left. exists_in p left ≡ false) (bytes_eq f p) (λ same. remove_path-gone p files)
      (λ other. rw (other, remove_path-gone p files))

then_relocked-append :
    (o : Option RelockCommand) (trace : List Action)
    → then_relocked o trace ≡ then_relocked o [] ++ trace
then_relocked-append none trace = refl
then_relocked-append (some cmd) trace = refl

relock_volumes-append :
    (activations : List Activation) (trace : List Action)
    → relock_volumes activations trace ≡ relock_volumes activations [] ++ trace
unfolding relock_volumes
relock_volumes-append [] trace = refl
relock_volumes-append (act ∷ activations) trace =
    relock_volumes-append activations (then_relocked (relock_argv act) trace)
    ∙ ap (λ t. relock_volumes activations [] ++ t) (then_relocked-append (relock_argv act) trace)
    ∙ sym (append_assoc (relock_volumes activations []) (then_relocked (relock_argv act) []) trace)
    ∙ ap (λ done. done ++ trace)
        (sym (relock_volumes-append activations (then_relocked (relock_argv act) [])))

written_at-guard :
    (o : Option Bytes) (writes : Bool) (machine : Machine)
    → (written_at o writes machine).guard ≡ machine.guard
written_at-guard none writes machine = refl
written_at-guard (some path) true machine = refl
written_at-guard (some path) false machine = refl

-- What a refusal leaves behind where the sentinel's path is `p`.
pub record IsRefused (paths : Paths) (os : Os) (config : RefuseConfig) (p : Bytes)
    (before after : Machine) : Type 0 where
  pub left_open :
      (m : MapperEntry)
      → Mem m after.guard.store.mappers
      → Mem m before.guard.store.mappers × CloseFailed os m
  pub ordered :
      after.trace ≡ relock_volumes config.activations [] ++ (sentinel_written p ∷ before.trace)
  pub forced : (external : Bool) → should_force_rescue paths external config after.files ≡ true
  pub released :
      should_force_rescue paths false config
        (consume_after_rescue_booted paths config removed after.files).1
      ≡ false
  pub retained :
      should_force_rescue paths false config
        (consume_after_rescue_booted paths config refused after.files).1
      ≡ true

guard-left_open :
    (os : Os) (require_tpm : Bool) (guard : Guard) (m : MapperEntry)
    → Mem m (seal_for_refuse os require_tpm guard).store.mappers
    → Mem m guard.store.mappers × CloseFailed os m
unfolding seal_for_refuse
guard-left_open os require_tpm guard m k =
    let (there, failed) =
      close_best_effort-Left os (snapshot os.load guard.store) guard.store m k in
    (there, failed m (snapshot-Mem os.load guard.store there) (bytes_eq_refl m.name))

or_true : (b : Bool) → (b || true) ≡ true
or_true true = refl
or_true false = refl

-- Where the sentinel's path resolves and its write succeeds, relock_and_refuse leaves a mapper in
-- memory only if it was there before and its close failed; it writes the sentinel before it runs the
-- relock commands; should_force_rescue of the files left is true; and, without an external reason,
-- it is false after consume_after_rescue_booted has removed the sentinel, and still true where the
-- removal was refused.
pub relock_and_refuse-IsRefused :
    (paths : Paths) (os : Os) (config : RefuseConfig) (machine : Machine) (p : Bytes)
    → resolve_sentinel_path paths config ≡ some p
    → IsRefused paths os config p machine (relock_and_refuse paths os config true machine)
unfolding relock_and_refuse should_force_rescue sentinel_present write_sentinel
    consume_after_rescue_booted
relock_and_refuse-IsRefused paths os config machine p resolved = record {
  left_open = λ m k. guard-left_open os (refuse_require_tpm config) machine.guard m (
      subst (λ g. Mem m g.store.mappers)
        (written_at-guard (resolve_sentinel_path paths config) true
          (record machine { guard = seal_for_refuse os (refuse_require_tpm config) machine.guard }))
        k);
  ordered =
      rw (resolved, relock_volumes-append config.activations (sentinel_written p ∷ machine.trace))
        refl;
  forced = λ external. rw (resolved, bytes_eq_refl p, or_true external) refl;
  released = rw resolved (remove_path-gone p (p ∷ machine.files));
  retained = rw (resolved, bytes_eq_refl p) refl;
}
