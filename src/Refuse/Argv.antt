-- ===== src/Refuse/Argv.antt =====
-- policy/relock/argv.rs: the command that locks what an activation has opened. Paths and names are
-- bytes, and a path that is not UTF-8 (`to_str` gives none) counts as of another shape.
use siratis_nmbl_bootloader.Prelude.{
  ℕ, Bool, ◌||◌, Option, none, some, List, [], ◌∷◌, ◌++◌, ◌==◌, if◌then◌else◌, is_some, any, Bytes,
  bytes_eq, codes, is_empty,
}

-- `ActivationKind` of the configuration, and the fields of an activation that are read here.
pub data ActivationKind : Type 0 where
  luks_tpm luks_keyfile luks_password lvm mdraid zfs : ActivationKind

pub record Activation : Type 0 where
  pub kind : ActivationKind
  pub binary : Bytes
  pub produces_devices : List Bytes

-- The label, which only messages show, is left out.
pub record RelockCommand : Type 0 where
  pub binary : Bytes
  pub argv : List Bytes
  pub absent_exit_code : ℕ

-- `strip_prefix`
unfoldable pub strip_prefix : Bytes → Bytes → Option Bytes
strip_prefix [] text = some text
strip_prefix (p ∷ prefix) [] = none
strip_prefix (p ∷ prefix) (c ∷ text) =
    let rest = strip_prefix prefix text in if p == c then rest else none

abbrev pub before_rest : ℕ → Option (Bytes × Bytes) → Option (Bytes × Bytes)
before_rest c none = none
before_rest c (some (front, back)) = some (c ∷ front, back)

-- `split_once('/')`
unfoldable pub split_slash : Bytes → Option (Bytes × Bytes)
split_slash [] = none
split_slash (c ∷ text) =
    let rest = split_slash text in if c == b'/' then some ([], text) else before_rest c rest

pub data MapperParse : Type 0 where
  name : Bytes → MapperParse
  malformed : MapperParse

abbrev pub dev_mapper : Bytes
dev_mapper = codes "/dev/mapper/"

abbrev pub mapper_parse : Option Bytes → Option MapperParse
mapper_parse none = none
mapper_parse (some n) =
    if is_empty n || any (λ c. c == b'/') n then some malformed else some (name n)

unfoldable pub mapper_name : Bytes → Option MapperParse
mapper_name path = mapper_parse (strip_prefix dev_mapper path)

abbrev pub or_find : {A : Type 0} → Option A → Option A → Option A
or_find none rest = rest
or_find (some a) rest = some a

-- `find_map`
abbrev pub find_map : {A B : Type 0} → (A → Option B) → List A → Option B
find_map f [] = none
find_map f (x ∷ xs) = or_find (f x) (find_map f xs)

abbrev pub luks_command : Bytes → Option MapperParse → Option RelockCommand
luks_command binary none = none
luks_command binary (some malformed) = none
luks_command binary (some (name n)) =
    some (record { binary = binary; argv = codes "close" ∷ n ∷ []; absent_exit_code = 4 })

unfoldable pub luks_relock : Activation → Option RelockCommand
luks_relock act = luks_command act.binary (find_map mapper_name act.produces_devices)

abbrev vg_end : Bytes → Option Bytes
vg_end vg = if is_empty vg then none else some vg

-- The loop over the characters, with those of the group so far. A dash is looked at with the next one.
unfoldable pub vg_loop : Bytes → Bytes → Option Bytes
vg_loop [] vg = none
vg_loop (c ∷ []) vg = if c == b'-' then vg_end vg else none
vg_loop (c ∷ d ∷ chars) vg =
    let escaped = vg_loop chars (vg ++ (b'-' ∷ [])) in
    let plain = vg_loop (d ∷ chars) (vg ++ (c ∷ [])) in
    if c == b'-' then (if d == b'-' then escaped else vg_end vg) else plain

unfoldable pub vg_from_mangled : Bytes → Option Bytes
vg_from_mangled text = vg_loop text []

abbrev slashed : Option (Bytes × Bytes) → Option Bytes
slashed none = none
slashed (some (vg, lv)) =
    if is_empty vg || (is_empty lv || bytes_eq vg (codes "mapper")) then none else some vg

abbrev after_dev : Option Bytes → Option Bytes
after_dev none = none
after_dev (some rest) = slashed (split_slash rest)

abbrev mangled : Option Bytes → Option Bytes
mangled none = none
mangled (some text) = vg_from_mangled text

unfoldable pub vg_of : Bytes → Option Bytes
vg_of path =
    or_find (after_dev (strip_prefix (codes "/dev/") path)) (mangled (strip_prefix dev_mapper path))

abbrev pub lvm_command : Option Bytes → Option RelockCommand
lvm_command none = none
lvm_command (some vg) =
    some (record { binary = codes "vgchange"; argv = codes "-an" ∷ vg ∷ []; absent_exit_code = 0 })

unfoldable pub lvm_relock : Activation → Option RelockCommand
lvm_relock act = lvm_command (find_map vg_of act.produces_devices)

abbrev pub is_md_node : Bytes → Bool
is_md_node path = is_some (strip_prefix (codes "/dev/md") path)

abbrev pub md_node : Bytes → Option Bytes
md_node path = if is_md_node path then some path else none

abbrev pub mdraid_command : Option Bytes → Option RelockCommand
mdraid_command none = none
mdraid_command (some md) =
    some (record { binary = codes "mdadm"; argv = codes "--stop" ∷ md ∷ []; absent_exit_code = 0 })

unfoldable pub mdraid_relock : Activation → Option RelockCommand
mdraid_relock act = mdraid_command (find_map md_node act.produces_devices)

abbrev pub relock_of : ActivationKind → Activation → Option RelockCommand
relock_of luks_tpm act = luks_relock act
relock_of luks_keyfile act = luks_relock act
relock_of luks_password act = luks_relock act
relock_of lvm act = lvm_relock act
relock_of mdraid act = mdraid_relock act
relock_of zfs act = none

unfoldable pub relock_argv : Activation → Option RelockCommand
relock_argv act = relock_of act.kind act
