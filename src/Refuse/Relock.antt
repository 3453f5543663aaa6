-- ===== src/Refuse/Relock.antt =====
-- policy/relock.rs and policy/sentinel.rs: the end of a refused boot, and the marker that the next one
-- finds; resolve_boot_mountpoint of config/mod.rs and resolve_mountpoint of devices/mod.rs. The paths
-- of std are a parameter; of the files only which paths exist is kept. The async and the blocking form
-- of an operation are one definition, and what a relock command gives, which is only logged, is left out.
use siratis_nmbl_bootloader.Prelude.{
  Bool, true, false, not, ◌&&◌, ◌||◌, Option, none, some, List, [], ◌∷◌, if◌then◌else◌, any, Bytes,
  bytes_eq, codes,
}
use siratis_nmbl_bootloader.Seal.Guard.{Os, Guard, seal_for_refuse}
use siratis_nmbl_bootloader.Refuse.Argv.{Activation, RelockCommand, relock_argv}

-- `is_absolute`, `strip_prefix`, `starts_with` and `join` of a path, and equality.
pub record Paths : Type 0 where
  pub is_absolute : Bytes → Bool
  pub strip : Bytes → Bytes → Option Bytes
  pub starts_with_path : Bytes → Bytes → Bool
  pub join : Bytes → Bytes → Bytes
  pub same : Bytes → Bytes → Bool

pub record FilesystemEntry : Type 0 where
  pub device : Bytes
  pub is_root : Bool
  pub mountpoint : Bytes

-- The fields of the configuration that are read here.
pub record RefuseConfig : Type 0 where
  pub tpm_require_tpm : Bool
  pub secure_boot_require_tpm : Bool
  pub sentinel_path : Bytes
  pub runtime_boot_mountpoint : Option Bytes
  pub system_root : Bytes
  pub filesystems : List FilesystemEntry
  pub activations : List Activation

-- What was done to the disk: the marker written, a relock command run.
pub data Action : Type 0 where
  sentinel_written : Bytes → Action
  relocked : RelockCommand → Action

-- The latch and the registry, the paths that exist, and what was done, the last first.
pub record Machine : Type 0 where
  pub guard : Guard
  pub files : List Bytes
  pub trace : List Action

abbrev or_tail : Option Bytes → Bytes → Bytes
or_tail none path = path
or_tail (some tail) path = tail

abbrev or_else : Option Bytes → Option Bytes → Option Bytes
or_else none rest = rest
or_else (some path) rest = some path

abbrev pub exists_in : Bytes → List Bytes → Bool
exists_in path files = any (λ f. bytes_eq f path) files

unfoldable pub remove_path : Bytes → List Bytes → List Bytes
remove_path path [] = []
remove_path path (f ∷ files) =
    let rest = remove_path path files in if bytes_eq f path then rest else f ∷ rest

abbrev pub then_relocked : Option RelockCommand → List Action → List Action
then_relocked none trace = trace
then_relocked (some cmd) trace = relocked cmd ∷ trace

-- The command of each activation that has one is run, whatever the ones before gave.
unfoldable pub relock_volumes : List Activation → List Action → List Action
relock_volumes [] trace = trace
relock_volumes (act ∷ activations) trace =
    relock_volumes activations (then_relocked (relock_argv act) trace)

-- What `remove_file` gives, and after a removal the sync of the parent.
pub data Removal : Type 0 where
  removed unsynced absent refused : Removal

abbrev pub consume_pinned_sentinel : Bytes → Removal → List Bytes → Bool × List Bytes
consume_pinned_sentinel path removed files = (true, remove_path path files)
consume_pinned_sentinel path unsynced files = (false, remove_path path files)
consume_pinned_sentinel path absent files = (true, files)
consume_pinned_sentinel path refused files = (false, files)

unfoldable pub refuse_require_tpm : RefuseConfig → Bool
refuse_require_tpm config = config.tpm_require_tpm || config.secure_boot_require_tpm

abbrev pub present_at : Option Bytes → List Bytes → Bool
present_at none files = false
present_at (some path) files = exists_in path files

-- The files and the trace. `writes` tells whether `fs::write` succeeds.
abbrev pub written_at : Option Bytes → Bool → Machine → Machine
written_at none writes machine = machine
written_at (some path) writes machine =
    if writes
    then record machine {
      files = path ∷ machine.files;
      trace = sentinel_written path ∷ machine.trace;
    }
    else machine

abbrev pub consumed_at : Option Bytes → Removal → List Bytes → Bool × List Bytes
consumed_at none answer files = (true, files)
consumed_at (some path) answer files = consume_pinned_sentinel path answer files

module _ (paths : Paths) where
  unfoldable pub resolve_mountpoint : Bytes → FilesystemEntry → Bytes
  resolve_mountpoint system_root entry =
      if entry.is_root
      then system_root
      else if paths.is_absolute entry.mountpoint
          && paths.starts_with_path entry.mountpoint system_root
      then entry.mountpoint
      else if paths.is_absolute entry.mountpoint
      then paths.join system_root
          (or_tail (paths.strip (codes "/") entry.mountpoint) entry.mountpoint)
      else paths.join system_root entry.mountpoint

  unfoldable pub boot_filesystem : Bytes → List FilesystemEntry → Option Bytes
  boot_filesystem system_root [] = none
  boot_filesystem system_root (fs ∷ filesystems) =
      let rest = boot_filesystem system_root filesystems in
      if not fs.is_root && paths.same fs.mountpoint (codes "/boot")
      then some (resolve_mountpoint system_root fs)
      else rest

  unfoldable pub resolve_boot_mountpoint : RefuseConfig → Option Bytes
  resolve_boot_mountpoint config =
      or_else config.runtime_boot_mountpoint (boot_filesystem config.system_root config.filesystems)

  unfoldable pub join_boot_relative : Bytes → Bytes → Bytes
  join_boot_relative mountpoint configured = paths.join mountpoint (
      or_tail
        (or_else (paths.strip (codes "/boot") configured) (paths.strip (codes "/") configured))
        configured)

  abbrev anchored : Option Bytes → Bytes → Option Bytes
  anchored (some mountpoint) configured = some (join_boot_relative mountpoint configured)
  anchored none configured = if paths.is_absolute configured then some configured else none

  unfoldable pub resolve_sentinel_path : RefuseConfig → Option Bytes
  resolve_sentinel_path config = anchored (resolve_boot_mountpoint config) config.sentinel_path

  unfoldable pub sentinel_present : RefuseConfig → List Bytes → Bool
  sentinel_present config files = present_at (resolve_sentinel_path config) files

  unfoldable pub should_force_rescue : Bool → RefuseConfig → List Bytes → Bool
  should_force_rescue force_external config files = force_external || sentinel_present config files

  unfoldable pub write_sentinel : RefuseConfig → Bool → Machine → Machine
  write_sentinel config writes machine = written_at (resolve_sentinel_path config) writes machine

  -- The first component is true where the result is `Ok`.
  unfoldable pub consume_after_rescue_booted :
      RefuseConfig → Removal → List Bytes → Bool × List Bytes
  consume_after_rescue_booted config answer files =
      consumed_at (resolve_sentinel_path config) answer files

  unfoldable pub relock_and_refuse : Os → RefuseConfig → Bool → Machine → Machine
  relock_and_refuse os config writes machine =
      let sealed = record machine {
        guard = seal_for_refuse os (refuse_require_tpm config) machine.guard;
      } in
      let marked = write_sentinel config writes sealed in
      record marked { trace = relock_volumes config.activations marked.trace }
