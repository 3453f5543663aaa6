-- ===== src/Update/Entries.antt =====
-- Files put into a directory and looked up in it.
use siratis_nmbl_bootloader.Prelude.{
  ◌≡◌, refl, inl, inr, Bool, true, false, Option, none, some, [], ◌∷◌, arith, Bool-cases,
  Option-cases, Bytes, bytes_eq, bytes_eq_refl, bytes_eq→eq, ok,
}
use siratis_nmbl_bootloader.Update.Manifest.{Slot, slot_a, slot_b}
use siratis_nmbl_bootloader.Update.Bundle.{Item, Files, lookup, Node, folder, not_folder}
use siratis_nmbl_bootloader.Update.Disk.{place}
use siratis_nmbl_bootloader.Update.Staging.{put_file, in_folder, creatable}

pub lookup-put_file_same :
    (name : Bytes) (item : Item) (files : Files)
    → lookup name (put_file name item files) ≡ some item
unfolding lookup put_file
lookup-put_file_same name item [] = ground (arith, bytes_eq_refl name)
lookup-put_file_same name item ((n, old) ∷ files) =
    ground (arith, lookup-put_file_same name item files)

pub lookup-put_file_other :
    (name n : Bytes) (item : Item) (files : Files)
    → bytes_eq name n ≡ false
    → lookup n (put_file name item files) ≡ lookup n files
unfolding lookup put_file
lookup-put_file_other name n item [] differ = ground arith
lookup-put_file_other name n item ((m, old) ∷ files) differ =
    ground (arith, lookup-put_file_other name n item files, bytes_eq→eq m name)

abbrev pub lookup_node : Bytes → Option Node → Option Item
lookup_node name none = none
lookup_node name (some not_folder) = none
lookup_node name (some (folder files)) = lookup name files

abbrev pub is_folder : Option Node → Bool
is_folder none = false
is_folder (some not_folder) = false
is_folder (some (folder files)) = true

pub place_same :
    (s : Slot) (node : Option Node) (nodes : Slot → Option Node) → place s node nodes s ≡ node
place_same slot_a found nodes = refl
place_same slot_b found nodes = refl

pub creatable-ok :
    (name : Bytes) (node : Option Node)
    → creatable name node ≡ ok tt
    → (is_folder node ≡ true) × (lookup_node name node ≡ none)
creatable-ok name none h = cc
creatable-ok name (some not_folder) h = cc
creatable-ok name (some (folder files)) h = elim (Option-cases (lookup name files)) [
  | inl e ↦ (refl, e)
  | inr (item, e) ↦ absurd (let k = rw e at h in cc)
]

pub in_folder-IsFolder :
    (change : Files → Files) (found : Option Node)
    → is_folder found ≡ true
    → is_folder (in_folder change found) ≡ true
in_folder-IsFolder change none h = h
in_folder-IsFolder change (some not_folder) h = h
in_folder-IsFolder change (some (folder files)) h = refl

pub lookup_node_same :
    (name : Bytes) (item : Item) (found : Option Node)
    → is_folder found ≡ true
    → lookup_node name (in_folder (put_file name item) found) ≡ some item
lookup_node_same name item none h = cc
lookup_node_same name item (some not_folder) h = cc
lookup_node_same name item (some (folder files)) h = lookup-put_file_same name item files

pub lookup_node_other :
    (name n : Bytes) (item : Item) (found : Option Node)
    → bytes_eq name n ≡ false
    → lookup_node n (in_folder (put_file name item) found) ≡ lookup_node n found
lookup_node_other name n item none h = refl
lookup_node_other name n item (some not_folder) h = refl
lookup_node_other name n item (some (folder files)) h = lookup-put_file_other name n item files h

pub name_differs :
    (name n : Bytes) (item : Item) (found : Option Node)
    → lookup_node name found ≡ none
    → lookup_node n found ≡ some item
    → bytes_eq name n ≡ false
name_differs name n item found absent present = elim (Bool-cases (bytes_eq name n)) [
  | inl same ↦ absurd (let e : name ≡ n = bytes_eq→eq name n same in ground arith)
  | inr differ ↦ differ
]
