-- ===== src/Refuse/Gate.antt =====
-- policy/gate.rs: the priority gate, on top of `verify_priority_against`. Paths are bytes. What stands
-- at a path, given what is mounted, and whether a call of the system succeeds are arguments;
-- `Path::join` and SHA-512 are parameters. A volume that is dropped is unmounted.
use siratis_nmbl_bootloader.Prelude.{
  ℕ, Bool, not, Option, none, some, List, [], ◌∷◌, ◌++◌, ◌==◌, if◌then◌else◌, any, Bytes, bytes_eq,
  Outcome, ok, err, ◌>>=◌, codes, is_empty,
}
use siratis_nmbl_bootloader.Sig.Alg.{AlgId}
use siratis_nmbl_bootloader.Sig.Verify.{
  Crypto, Stage, Verdict, parse_key_set, verify_priority_against,
}

pub data GatePhase : Type 0 where
  pre_plain_boot post_unlock : GatePhase

pub record PriorityVolume : Type 0 where
  pub inside_luks : Bool
  pub mountpoint : Bytes
  pub device : Bytes
  pub fstype : Bytes
  pub options : Bytes

-- The fields of the configuration that are read here.
pub record Config : Type 0 where
  pub enable : Bool
  pub enforce : Bool
  pub priority_volume : Option PriorityVolume
  pub signed_file_path : Bytes
  pub runtime_boot_mountpoint : Option Bytes
  pub sig_path_suffix : Bytes
  pub allowed_key_ids : List Bytes

pub record AttestedVolume : Type 0 where
  pub mountpoint : Bytes
  pub owned_mount : Option Bytes

pub data GateError : Type 0 where
  create_mountpoint mount_failed open_signed_file read_sidecar not_configured : GateError
  signature : Stage → GateError
  policy_refused : GateError → GateError

pub data GateDecision : Type 0 where
  attested audit_proceed : AttestedVolume → GateDecision
  refuse : GateError → GateDecision

pub record Mount : Type 0 where
  pub device : Bytes
  pub at : Bytes
  pub fstype : Bytes
  pub options : Bytes

-- The system, and the keys that are baked in.
pub record System : Type 0 where
  pub crypto : Crypto
  pub baked : List (Bytes × AlgId)
  pub sha512 : Bytes → Bytes
  pub join : Bytes → Bytes → Bytes
  pub read : List Mount → Bytes → Option Bytes
  pub creates : Bytes → Bool
  pub mounts : Mount → Bool
  pub unmounts : Bytes → Bool

abbrev pub Gated {ℓ} : Type ℓ → Type ℓ
Gated A = Outcome GateError A

abbrev pub matches : GatePhase → PriorityVolume → Bool
matches pre_plain_boot vol = not vol.inside_luks
matches post_unlock vol = vol.inside_luks

abbrev pub on_comma : ℕ → List Bytes → List Bytes
on_comma c [] = (c ∷ []) ∷ []
on_comma c (piece ∷ rest) = if c == b',' then [] ∷ piece ∷ rest else (c ∷ piece) ∷ rest

-- `split(',')`
unfoldable pub split_commas : Bytes → List Bytes
split_commas [] = [] ∷ []
split_commas (c ∷ text) = on_comma c (split_commas text)

abbrev pub has_ro : Bytes → Bool
has_ro options = any (λ o. bytes_eq o (codes "ro")) (split_commas options)

unfoldable pub ensure_ro : Bytes → Bytes
ensure_ro options =
    if has_ro options
    then options
    else if is_empty options
    then codes "ro"
    else codes "ro," ++ options

abbrev pub or_path : Option Bytes → Bytes → Bytes
or_path none path = path
or_path (some mountpoint) path = mountpoint

abbrev pub volume_mount : PriorityVolume → Mount
volume_mount vol = record {
  device = vol.device;
  at = vol.mountpoint;
  fstype = vol.fstype;
  options = ensure_ro vol.options;
}

abbrev pub readable : Option Bytes → GateError → Gated Bytes
readable none why = err why
readable (some bytes) why = ok bytes

abbrev pub staged_error {ℓ} : {A : Type ℓ} → Verdict A → Gated A
staged_error (ok a) = ok a
staged_error (err why) = err (signature why)

abbrev pub remove_mount : Bytes → List Mount → List Mount
remove_mount path [] = []
remove_mount path (m ∷ mounts) = if bytes_eq m.at path then mounts else m ∷ remove_mount path mounts

module _ (system : System) where
  abbrev release : Option Bytes → List Mount → List Mount
  release none mounts = mounts
  release (some path) mounts = if system.unmounts path then remove_mount path mounts else mounts

  -- `AttestedVolume::drop`
  abbrev pub drop_volume : AttestedVolume → List Mount → List Mount
  drop_volume vol mounts = release vol.owned_mount mounts

  abbrev pub mount_owned : PriorityVolume → List Mount → Gated AttestedVolume × List Mount
  mount_owned vol mounts =
      if system.creates vol.mountpoint
      then (if system.mounts (volume_mount vol)
          then (
            ok (record { mountpoint = vol.mountpoint; owned_mount = some vol.mountpoint }),
            volume_mount vol ∷ mounts,
          )
          else (err mount_failed, mounts))
      else (err create_mountpoint, mounts)

  abbrev pub mount_priority_volume :
      GatePhase → Config → PriorityVolume → List Mount → Gated AttestedVolume × List Mount
  mount_priority_volume pre_plain_boot config vol mounts = (
    ok (record {
      mountpoint = or_path config.runtime_boot_mountpoint vol.mountpoint;
      owned_mount = none;
    }),
    mounts,
  )
  mount_priority_volume post_unlock config vol mounts = mount_owned vol mounts

  unfoldable pub verify_signed_file : Config → Bytes → List Mount → Gated (Unit {0})
  verify_signed_file config path mounts = do
    contents ← readable (system.read mounts path) open_signed_file
    sig_bytes ← readable (system.read mounts (path ++ config.sig_path_suffix)) read_sidecar
    baked ← staged_error (parse_key_set system.crypto system.baked)
    staged_error (
        verify_priority_against system.crypto config.allowed_key_ids (system.sha512 contents)
          sig_bytes baked)

  abbrev pub decide_no_volume : Config → GateError → GateDecision
  decide_no_volume config cause =
      if config.enforce
      then refuse cause
      else audit_proceed (record { mountpoint = []; owned_mount = none })

  abbrev pub judged :
      Config → AttestedVolume → List Mount → Gated (Unit {0}) → GateDecision × List Mount
  judged config vol mounts (ok _) = (attested vol, mounts)
  judged config vol mounts (err cause) =
      if config.enforce then (refuse cause, drop_volume vol mounts) else (audit_proceed vol, mounts)

  abbrev pub with_volume : Config → Gated AttestedVolume × List Mount → GateDecision × List Mount
  with_volume config (err why, mounts) = (decide_no_volume config why, mounts)
  with_volume config (ok vol, mounts) =
      judged config vol mounts
        (verify_signed_file config (system.join vol.mountpoint config.signed_file_path) mounts)

  abbrev pub evaluate : GatePhase → Config → PriorityVolume → List Mount → GateDecision × List Mount
  evaluate phase config vol mounts =
      with_volume config (mount_priority_volume phase config vol mounts)

  abbrev pub outcome_of : GateDecision × List Mount → Gated (Option AttestedVolume) × List Mount
  outcome_of (attested vol, mounts) = (ok (some vol), mounts)
  outcome_of (audit_proceed vol, mounts) = (ok (some vol), mounts)
  outcome_of (refuse cause, mounts) = (err (policy_refused cause), mounts)

  abbrev pub gate_volume :
      GatePhase
      → Config
      → Option PriorityVolume
      → List Mount
      → Gated (Option AttestedVolume) × List Mount
  gate_volume phase config none mounts = (ok none, mounts)
  gate_volume phase config (some vol) mounts =
      if matches phase vol then outcome_of (evaluate phase config vol mounts) else (ok none, mounts)

  unfoldable pub run_priority_gate_at :
      GatePhase → Config → List Mount → Gated (Option AttestedVolume) × List Mount
  run_priority_gate_at phase config mounts =
      if config.enable
      then gate_volume phase config config.priority_volume mounts
      else (ok none, mounts)

  abbrev configured : Gated (Option AttestedVolume) × List Mount → Gated AttestedVolume × List Mount
  configured (ok (some vol), mounts) = (ok vol, mounts)
  configured (ok none, mounts) = (err not_configured, mounts)
  configured (err why, mounts) = (err why, mounts)

  unfoldable pub run_priority_gate : Config → List Mount → Gated AttestedVolume × List Mount
  run_priority_gate config mounts = configured (run_priority_gate_at post_unlock config mounts)
