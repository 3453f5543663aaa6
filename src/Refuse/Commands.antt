-- ===== src/Refuse/Commands.antt =====
-- Which commands a refusal can run.
use siratis_nmbl_bootloader.Prelude.{
  ◌≡◌, refl, ap, subst, ◌∙◌, ◌≢◌, inl, inr, true, false, Option, none, some, List, [], ◌∷◌, ◌++◌,
  arith, ◌==◌, Bool-cases, Option-cases, any, Bytes, Mem, first, later, codes,
}
use siratis_nmbl_bootloader.Refuse.Argv.{
  ActivationKind, Activation, RelockCommand, strip_prefix, MapperParse, name, malformed, dev_mapper,
  mapper_parse, mapper_name, find_map, luks_command, luks_relock, vg_of, lvm_relock, is_md_node,
  md_node, lvm_command, mdraid_command, mdraid_relock, relock_argv, relock_of, luks_tpm,
  luks_keyfile, luks_password, lvm, mdraid, zfs,
}

pub strip_prefix-some :
    (prefix text rest : Bytes) → strip_prefix prefix text ≡ some rest → text ≡ prefix ++ rest
unfolding strip_prefix
strip_prefix-some [] text rest h = ground arith
strip_prefix-some (p ∷ prefix) [] rest h = absurd (cc)
strip_prefix-some (p ∷ prefix) (c ∷ text) rest h =
    ground (arith, strip_prefix-some prefix text rest)

find_map-Mem :
    {A B : Type 0} (f : A → Option B) (xs : List A) (b : B)
    → find_map f xs ≡ some b
    → (x : A) × Mem x xs × (f x ≡ some b)
find_map-Mem f [] b h = absurd (cc)
find_map-Mem f (x ∷ xs) b h = elim (Option-cases (f x)) [
  | inl e ↦
      let (y, m, k) = find_map-Mem f xs b (let r : find_map f xs ≡ some b = (rw e at h) in r) in
      (y, later m, k)
  | inr (found, e) ↦ (x, first, e ∙ (let r : some found ≡ some b = (rw e at h) in r))
]

-- A mapper of the activation, with a name that can stand in a command.
pub record IsMapper (act : Activation) (n : Bytes) : Type 0 where
  pub produced : Mem (dev_mapper ++ n) act.produces_devices
  pub not_empty : n ≢ []
  pub no_slash : any (λ c. c == b'/') n ≡ false

abbrev pub IsClose : Activation → RelockCommand → Type 0
IsClose act cmd =
    (n : Bytes) × IsMapper act n
    × (cmd.binary ≡ act.binary)
    × (cmd.argv ≡ codes "close" ∷ n ∷ [])
    × (cmd.absent_exit_code ≡ 4)

-- What a relock command may be, by the kind of its activation.
abbrev pub IsLock : ActivationKind → Activation → RelockCommand → Type 0
IsLock luks_tpm act cmd = IsClose act cmd
IsLock luks_keyfile act cmd = IsClose act cmd
IsLock luks_password act cmd = IsClose act cmd
IsLock lvm act cmd =
    (path : Bytes) × (vg : Bytes) × Mem path act.produces_devices
    × (vg_of path ≡ some vg)
    × (cmd.binary ≡ codes "vgchange")
    × (cmd.argv ≡ codes "-an" ∷ vg ∷ [])
IsLock mdraid act cmd =
    (path : Bytes) × Mem path act.produces_devices
    × (is_md_node path ≡ true)
    × (cmd.binary ≡ codes "mdadm")
    × (cmd.argv ≡ codes "--stop" ∷ path ∷ [])
IsLock zfs act cmd = ⊥

mapper_name-some :
    (path n : Bytes)
    → mapper_name path ≡ some (name n)
    → (path ≡ dev_mapper ++ n) × (n ≢ []) × (any (λ c. c == b'/') n ≡ false)
unfolding mapper_name
mapper_name-some path n h = elim (Option-cases (strip_prefix dev_mapper path)) [
  | inl e ↦ absurd (let k : mapper_parse none ≡ some (name n) = (rw e at h) in cc)
  | inr (rest, e) ↦
      let k : mapper_parse (some rest) ≡ some (name n) = (rw e at h) in
      let (same, filled, plain) = parsed rest n k in
      (
        strip_prefix-some dev_mapper path rest e ∙ ap (λ r. dev_mapper ++ r) same,
        subst (λ r. r ≢ []) same filled,
        subst (λ r. any (λ c. c == b'/') r ≡ false) same plain,
      )
]
  where
    parsed :
        (rest n : Bytes)
        → mapper_parse (some rest) ≡ some (name n)
        → (rest ≡ n) × (rest ≢ []) × (any (λ c. c == b'/') rest ≡ false)
    parsed [] n h = absurd (cc)
    parsed (c ∷ rest) n h = ground arith

luks_relock-IsClose :
    (act : Activation) (cmd : RelockCommand) → luks_relock act ≡ some cmd → IsClose act cmd
unfolding luks_relock
luks_relock-IsClose act cmd h = go (find_map mapper_name act.produces_devices) refl h
  where
    go :
        (found : Option MapperParse)
        → find_map mapper_name act.produces_devices ≡ found
        → luks_command act.binary found ≡ some cmd
        → IsClose act cmd
    go none is k = absurd (cc)
    go (some malformed) is k = absurd (cc)
    go (some (name n)) is k =
        let (path, m, e) = find_map-Mem mapper_name act.produces_devices (name n) is in
        let (same, filled, plain) = mapper_name-some path n e in
        (
          n,
          record {
            produced = subst (λ q. Mem q act.produces_devices) same m;
            not_empty = filled;
            no_slash = plain;
          },
          ground arith,
          ground arith,
          ground arith,
        )

lvm_relock-IsLock :
    (act : Activation) (cmd : RelockCommand) → lvm_relock act ≡ some cmd → IsLock lvm act cmd
unfolding lvm_relock
lvm_relock-IsLock act cmd h = go (find_map vg_of act.produces_devices) refl h
  where
    go :
        (found : Option Bytes)
        → find_map vg_of act.produces_devices ≡ found
        → lvm_command found ≡ some cmd
        → IsLock lvm act cmd
    go none is k = absurd (cc)
    go (some vg) is k =
        let (path, m, e) = find_map-Mem vg_of act.produces_devices vg is in
        (path, vg, m, e, ground arith, ground arith)

mdraid_relock-IsLock :
    (act : Activation) (cmd : RelockCommand) → mdraid_relock act ≡ some cmd → IsLock mdraid act cmd
unfolding mdraid_relock
mdraid_relock-IsLock act cmd h = go (find_map md_node act.produces_devices) refl h
  where
    node : (path md : Bytes) → md_node path ≡ some md → (path ≡ md) × (is_md_node path ≡ true)
    node path md e = elim (Bool-cases (is_md_node path)) [
      | inl yes_md ↦ ((let k : some path ≡ some md = (rw yes_md at e) in cc), yes_md)
      | inr no_md ↦ absurd (let k : none ≡ some md = (rw no_md at e) in cc)
    ]

    go :
        (found : Option Bytes)
        → find_map md_node act.produces_devices ≡ found
        → mdraid_command found ≡ some cmd
        → IsLock mdraid act cmd
    go none is k = absurd (cc)
    go (some md) is k =
        let (path, m, e) = find_map-Mem md_node act.produces_devices md is in
        let (same, node_of) = node path md e in (path, m, node_of, ground arith, ground arith)

-- A command that a refusal runs for an activation is of its kind and on a device that the activation
-- produced: `cryptsetup close` with the name of a mapper of it, not empty and without a slash;
-- `vgchange -an` with the group read from a device of it; `mdadm --stop` on an md node of it; and none
-- for ZFS.
pub relock_argv-IsLock :
    (act : Activation) (cmd : RelockCommand) → relock_argv act ≡ some cmd → IsLock act.kind act cmd
unfolding relock_argv
relock_argv-IsLock act cmd h = go act.kind h
  where
    go : (kind : ActivationKind) → relock_of kind act ≡ some cmd → IsLock kind act cmd
    go luks_tpm k = luks_relock-IsClose act cmd k
    go luks_keyfile k = luks_relock-IsClose act cmd k
    go luks_password k = luks_relock-IsClose act cmd k
    go lvm k = lvm_relock-IsLock act cmd k
    go mdraid k = mdraid_relock-IsLock act cmd k
    go zfs k = cc
