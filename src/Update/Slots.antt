-- ===== src/Update/Slots.antt =====
-- nmbl-boot-update/src/transaction.rs: the selector, the slots' directories and the space for a new one.
use siratis_nmbl_bootloader.Prelude.{
  ℕ, ◌*◌, Option, none, some, [], ◌∷◌, ◌++◌, leb, if◌then◌else◌, u64_max, saturating_add, take,
  drop, Bytes, bytes_eq, Outcome, ok, err, codes,
}
use siratis_nmbl_bootloader.Update.Manifest.{
  Error, invalid, io, Slot, slot_a, slot_b, low_space, non_file_in_slot, not_a_directory,
  malformed_selector,
}
use siratis_nmbl_bootloader.Update.Bundle.{Item, plain, special, Files, Node, folder, not_folder}
use siratis_nmbl_bootloader.Update.Disk.{
  Root, M, ◌>>=◌, ◌>>◌, lift, pure, look, call, atomic, inspect, put_slot, put_stage,
}

-- `Limits`, with what `statvfs` gives and the blocks that a file takes.
pub record Limits : Type 0 where
  pub available_bytes : Option ℕ
  pub fail_after_files : Option ℕ
  pub free_blocks : ℕ
  pub fragment_size : ℕ
  pub blocks : Bytes → ℕ

abbrev pub selector_text : Slot → Bytes
selector_text slot_a = codes "set nmbl_slot=A" ++ (10 ∷ [])
selector_text slot_b = codes "set nmbl_slot=B" ++ (10 ∷ [])

abbrev pub selected : Option Bytes → Outcome Error (Option Slot)
selected none = ok none
selected (some text) =
    if bytes_eq text (selector_text slot_a)
    then ok (some slot_a)
    else if bytes_eq text (selector_text slot_b)
    then ok (some slot_b)
    else err (invalid malformed_selector)

unfoldable pub read_active : M (Option Slot)
read_active = do inspect; root ← look; lift (selected root.selector)

-- The three steps of `write_bytes` on active.new.
abbrev pub write_selector_new : Bytes → M (Unit {0})
write_selector_new bytes = do
  atomic (λ root. record root { selector_new = some [] })
  call (λ root. record root { selector_new = some bytes })
      (λ n root. record root { selector_new = some (take n bytes) })
  inspect

abbrev pub remove_stale : Option Bytes → M (Unit {0})
remove_stale none = pure tt
remove_stale (some text) = atomic (λ root. record root { selector_new = none })

unfoldable pub write_selector : Slot → M (Unit {0})
write_selector s = do
  root ← look
  remove_stale root.selector_new
  write_selector_new (selector_text s)
  atomic (λ root. record root { selector = root.selector_new; selector_new = none })
  inspect

abbrev and_blocks : Limits → Item → Outcome Error ℕ → Outcome Error ℕ
and_blocks limits special rest = err (invalid non_file_in_slot)
and_blocks limits (plain bytes) (err why) = err why
and_blocks limits (plain bytes) (ok total) = ok (
    saturating_add u64_max total
      (if leb (limits.blocks bytes * 512) u64_max then limits.blocks bytes * 512 else u64_max))

unfoldable pub sum_blocks : Limits → Files → Outcome Error ℕ
sum_blocks limits [] = ok 0
sum_blocks limits ((name, item) ∷ files) = and_blocks limits item (sum_blocks limits files)

abbrev pub allocated_tree : Limits → Option Node → Outcome Error ℕ
allocated_tree limits none = ok 0
allocated_tree limits (some not_folder) = err io
allocated_tree limits (some (folder files)) = sum_blocks limits files

-- The two directories of a slot.
pub data Place : Type 0 where
  installed staging : Slot → Place

abbrev pub node_at : Place → Root → Option Node
node_at (installed s) root = root.slot s
node_at (staging s) root = root.stage s

abbrev pub set_at : Place → Option Node → Root → Root
set_at (installed s) node root = put_slot s node root
set_at (staging s) node root = put_stage s node root

abbrev pub remove_node : Place → Node → M (Unit {0})
remove_node p not_folder = lift (err (invalid not_a_directory))
remove_node p (folder files) = call (set_at p none) (λ n. set_at p (some (folder (drop n files))))

abbrev pub remove_existing : Place → Option Node → M (Unit {0})
remove_existing p none = pure tt
remove_existing p (some node) = inspect >> remove_node p node

unfoldable pub remove_confined : Place → M (Unit {0})
remove_confined p = do root ← look; remove_existing p (node_at p root)

abbrev pub free_space : Limits → ℕ
free_space limits = elim limits.available_bytes [
  | some n ↦ n
  | none ↦
      if leb (limits.free_blocks * limits.fragment_size) u64_max
      then limits.free_blocks * limits.fragment_size
      else u64_max
]

abbrev pub reclaim : Limits → Slot → ℕ → M (Unit {0})
reclaim limits s need = do
  inspect
  root ← look
  reclaimable ← lift (allocated_tree limits (root.slot s))
  lift (
      if leb need (saturating_add u64_max (free_space limits) reclaimable)
      then ok tt
      else err (invalid low_space))
  remove_confined (installed s)

unfoldable pub preflight : Limits → Slot → ℕ → M (Unit {0})
preflight limits s need = do
  inspect
  if leb need (free_space limits) then pure tt else reclaim limits s need
