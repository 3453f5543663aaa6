-- ===== src/Update/Disk.antt =====
-- The calls that nmbl-boot-update/src/transaction.rs makes of the file system, and what each may do.
-- The state is the boot-set directory and the calls still to be answered. A call is done, or it
-- fails and may have done a part of its work; where no answers are left the machine has stopped.
-- A call that is done is on the disk: the writes that a lost page cache would undo are not modelled.
use siratis_nmbl_bootloader.Prelude.{
  Outcome, ok, err, ℕ, Bool, true, false, Option, List, [], ◌∷◌, Bytes, if◌then◌else◌,
}
use siratis_nmbl_bootloader.Update.Manifest.{Error, io, Slot, slot_a, slot_b}
use siratis_nmbl_bootloader.Update.Bundle.{Node}

pub data Fate : Type 0 where
  done : Fate
  torn : ℕ → Fate

-- `nmbl-boot-sets`: A and B, A.new and B.new, active and active.new.
pub record Root : Type 0 where
  pub slot : Slot → Option Node
  pub stage : Slot → Option Node
  pub selector : Option Bytes
  pub selector_new : Option Bytes

pub record World : Type 0 where
  pub root : Root
  pub fates : List Fate

abbrev pub M {ℓ} : Type ℓ → Type ℓ
M A = World → Outcome Error A × World

abbrev pub continue {ℓ κ} :
    {A : Type ℓ} {B : Type κ} → (A → M B) → Outcome Error A × World → Outcome Error B × World
continue next (ok a, w) = next a w
continue next (err why, w) = (err why, w)

infixl 5 ◌>>=◌ ◌>>◌
unfoldable pub ◌>>=◌ {ℓ κ} : {A : Type ℓ} {B : Type κ} → M A → (A → M B) → M B
◌>>=◌ m next w = continue next (m w)

abbrev pub ◌>>◌ {κ} : {B : Type κ} → M (Unit {0}) → M B → M B
m >> rest = m >>= λ _. rest

unfoldable pub lift {ℓ} : {A : Type ℓ} → Outcome Error A → M A
lift outcome w = (outcome, w)

abbrev pub pure {ℓ} : {A : Type ℓ} → A → M A
pure a = lift (ok a)

unfoldable pub look : M Root
look w = (ok w.root, w)

abbrev answered :
    (Root → Root) → (ℕ → Root → Root) → List Fate → Root → Outcome Error (Unit {0}) × World
answered all part [] root = (err io, record { root = root; fates = [] })
answered all part (done ∷ fates) root = (ok tt, record { root = all root; fates = fates })
answered all part (torn n ∷ fates) root = (err io, record { root = part n root; fates = fates })

-- A call: what it does, and what it leaves when it fails after `n` of its steps.
unfoldable pub call : (Root → Root) → (ℕ → Root → Root) → M (Unit {0})
call all part w = answered all part w.fates w.root

-- A call that fails as a whole.
abbrev pub atomic : (Root → Root) → M (Unit {0})
atomic all = call all (λ n root. root)

-- A call that changes none of this.
abbrev pub inspect : M (Unit {0})
inspect = atomic (λ root. root)

abbrev pub slot_eq : Slot → Slot → Bool
slot_eq slot_a slot_a = true
slot_eq slot_b slot_b = true
slot_eq _ _ = false

abbrev pub other_slot : Slot → Slot
other_slot slot_a = slot_b
other_slot slot_b = slot_a

abbrev pub place : Slot → Option Node → (Slot → Option Node) → Slot → Option Node
place s node nodes t = if slot_eq s t then node else nodes t

abbrev pub put_slot : Slot → Option Node → Root → Root
put_slot s node root = record root { slot = place s node root.slot }

abbrev pub put_stage : Slot → Option Node → Root → Root
put_stage s node root = record root { stage = place s node root.stage }
