-- ===== src/Refuse/Tests.antt =====
-- The refusal modules at concrete inputs. The toy check of a signature accepts everything.
use siratis_nmbl_bootloader.Prelude.{
  ◌≡◌, refl, true, false, none, some, [], ◌∷◌, ◌++◌, arith, is_some, take, replicate, bytes_eq,
  codes,
}
use siratis_nmbl_bootloader.Sig.Verify.{Crypto}
use siratis_nmbl_bootloader.Seal.Registry.{no_file_faults}
use siratis_nmbl_bootloader.Seal.Guard.{Os, no_tpm}
use siratis_nmbl_bootloader.Refuse.Argv.{
  Activation, RelockCommand, strip_prefix, mapper_name, luks_relock, vg_from_mangled, relock_argv,
  luks_tpm,
}
use siratis_nmbl_bootloader.Refuse.Mangle.{vg_from_mangled-mangle}
use siratis_nmbl_bootloader.Refuse.Commands.{IsLock, relock_argv-IsLock}
use siratis_nmbl_bootloader.Refuse.Gate.{
  PriorityVolume, Config, System, run_priority_gate_at, post_unlock,
}
use siratis_nmbl_bootloader.Refuse.Enforced.{Ended, run_priority_gate_at-Ended}
use siratis_nmbl_bootloader.Refuse.Relock.{
  Paths, RefuseConfig, Machine, resolve_mountpoint, boot_filesystem, resolve_boot_mountpoint,
  join_boot_relative, resolve_sentinel_path, relock_and_refuse,
}
use siratis_nmbl_bootloader.Refuse.Refused.{IsRefused, relock_and_refuse-IsRefused}

abbrev root_luks : Activation
root_luks = record {
  kind = luks_tpm;
  binary = codes "/bin/cs";
  produces_devices = codes "/dev/mapper/r" ∷ [];
}

abbrev close_root : RelockCommand
close_root = record {
  binary = codes "/bin/cs";
  argv = codes "close" ∷ codes "r" ∷ [];
  absent_exit_code = 4;
}

closes_root : relock_argv root_luks ≡ some close_root
unfolding relock_argv luks_relock mapper_name strip_prefix
closes_root = refl

relock_argv-IsLock_example : IsLock luks_tpm root_luks close_root
relock_argv-IsLock_example = relock_argv-IsLock root_luks close_root closes_root

-- The group "a-" and the volume "b".
vg_from_mangled-mangle_example : vg_from_mangled (codes "a---b") ≡ some (codes "a-")
vg_from_mangled-mangle_example =
    vg_from_mangled-mangle (codes "a-") (codes "b") (λ e. cc) (omega arith)

abbrev volume : PriorityVolume
volume = record {
  inside_luks = true;
  mountpoint = codes "/p";
  device = codes "/dev/m";
  fstype = codes "ext4";
  options = [];
}

abbrev enforced : Config
enforced = record {
  enable = true;
  enforce = true;
  priority_volume = some volume;
  signed_file_path = codes "f";
  runtime_boot_mountpoint = none;
  sig_path_suffix = codes ".sig";
  allowed_key_ids = [];
}

abbrev toy_crypto : Crypto
toy_crypto = record {
  sha256 = λ b. take 32 (b ++ replicate 32 0);
  well_formed = λ alg b. true;
  hash_verify = λ alg key digest sig ctx. true;
}

-- Every read finds an empty file.
abbrev system : System
system = record {
  crypto = toy_crypto;
  baked = [];
  sha512 = λ b. b;
  join = λ a b. a ++ (b'/' ∷ b);
  read = λ mounts path. some [];
  creates = λ path. true;
  mounts = λ m. true;
  unmounts = λ path. true;
}

run_priority_gate_at-Ended_example :
    Ended system enforced post_unlock [] (run_priority_gate_at system post_unlock enforced [])
run_priority_gate_at-Ended_example = run_priority_gate_at-Ended system enforced post_unlock []

-- Prefixes as texts, and a path that is joined with a slash.
abbrev toy_paths : Paths
toy_paths = record {
  is_absolute = λ path. is_some (strip_prefix (codes "/") path);
  strip = strip_prefix;
  starts_with_path = λ path base. is_some (strip_prefix base path);
  join = λ base tail. base ++ (b'/' ∷ tail);
  same = bytes_eq;
}

-- Boot is mounted below the system root, and the root volume is locked again.
abbrev refusing : RefuseConfig
refusing = record {
  tpm_require_tpm = false;
  secure_boot_require_tpm = true;
  sentinel_path = codes "/boot/r";
  runtime_boot_mountpoint = none;
  system_root = codes "/s";
  filesystems =
      record { device = codes "/dev/sda1"; is_root = false; mountpoint = codes "/boot" } ∷ [];
  activations = root_luks ∷ [];
}

-- There is no TPM, and no close can be run.
abbrev stuck : Os
stuck = record {
  cap = no_tpm;
  close = λ e. none;
  load = no_file_faults;
  remove = λ e. no_file_faults;
}

abbrev running : Machine
running = record {
  guard = record {
    cap_latch = false;
    store = record {
      mappers = record { cryptsetup = codes "c"; name = codes "r" } ∷ [];
      file = none;
    };
  };
  files = [];
  trace = [];
}

below_boot : resolve_sentinel_path toy_paths refusing ≡ some (codes "/s/boot//r")
unfolding resolve_sentinel_path resolve_boot_mountpoint boot_filesystem resolve_mountpoint
    join_boot_relative strip_prefix
below_boot = refl

relock_and_refuse-IsRefused_example :
    IsRefused toy_paths stuck refusing
      (codes "/s/boot//r")
      running
      (relock_and_refuse toy_paths stuck refusing true running)
relock_and_refuse-IsRefused_example =
    relock_and_refuse-IsRefused toy_paths stuck refusing running (codes "/s/boot//r") below_boot
