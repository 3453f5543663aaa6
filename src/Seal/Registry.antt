-- ===== src/Seal/Registry.antt =====
-- policy/registry.rs: the mappers that a TPM unlocked, in memory and in a file that outlives a panic.
-- Paths and names are ASCII bytes. The file is its bytes, or absent; what the file system refuses in
-- one call is an argument.
use siratis_nmbl_bootloader.Prelude.{
  false, ℕ, Bool, not, ◌&&◌, ◌||◌, Option, none, some, List, [], ◌∷◌, ◌++◌, leb, ◌==◌,
  if◌then◌else◌, length, take, any, Bytes, bytes_eq,
}

pub record MapperEntry : Type 0 where
  pub cryptsetup : Bytes
  pub name : Bytes

-- The thread-local list, and the file.
pub record Store : Type 0 where
  pub mappers : List MapperEntry
  pub file : Option Bytes

-- A write may stop after some bytes.
pub record FileFaults : Type 0 where
  pub read_fails : Bool
  pub open_fails : Bool
  pub write_stops : Option ℕ
  pub remove_fails : Bool

abbrev pub no_file_faults : FileFaults
no_file_faults = record {
  read_fails = false;
  open_fails = false;
  write_stops = none;
  remove_fails = false;
}

abbrev pub written : Option ℕ → Bytes → Bytes
written none bytes = bytes
written (some n) bytes = take n bytes

abbrev pub contents : Option Bytes → Bytes
contents none = []
contents (some bytes) = bytes

-- `<cryptsetup>\t<name>\n`
abbrev pub row : MapperEntry → Bytes
row e = e.cryptsetup ++ (9 ∷ (e.name ++ (10 ∷ [])))

abbrev is_space : ℕ → Bool
is_space c = (leb 9 c && leb c 13) || (c == 32)

unfoldable pub trim_start : Bytes → Bytes
trim_start [] = []
trim_start (c ∷ text) = let rest = trim_start text in if is_space c then rest else c ∷ text

abbrev trim_last : ℕ → Bytes → Bytes
trim_last c [] = if is_space c then [] else c ∷ []
trim_last c (d ∷ rest) = c ∷ d ∷ rest

unfoldable pub trim_end : Bytes → Bytes
trim_end [] = []
trim_end (c ∷ text) = trim_last c (trim_end text)

abbrev pub trim : Bytes → Bytes
trim text = trim_end (trim_start text)

abbrev before_split : ℕ → Option (Bytes × Bytes) → Option (Bytes × Bytes)
before_split c none = none
before_split c (some (left, right)) = some (c ∷ left, right)

-- `split_once('\t')`
unfoldable pub split_tab : Bytes → Option (Bytes × Bytes)
split_tab [] = none
split_tab (c ∷ text) =
    let rest = before_split c (split_tab text) in if c == 9 then some ([], text) else rest

abbrev extend_first : ℕ → List Bytes → List Bytes
extend_first c [] = (c ∷ []) ∷ []
extend_first c (line ∷ lines) = (c ∷ line) ∷ lines

-- `str::lines`; a carriage return before a line's end stays in the name and is trimmed with it.
unfoldable pub lines : Bytes → List Bytes
lines [] = []
lines (c ∷ text) = let rest = lines text in if c == 10 then [] ∷ rest else extend_first c rest

abbrev pub named : Bytes → Bytes → Option MapperEntry
named cryptsetup [] = none
named cryptsetup (c ∷ name) = some (record { cryptsetup = cryptsetup; name = c ∷ name })

abbrev parse_split : Option (Bytes × Bytes) → Option MapperEntry
parse_split none = none
parse_split (some (cryptsetup, name)) = named cryptsetup (trim name)

unfoldable pub parse_persist_line : Bytes → Option MapperEntry
parse_persist_line line = parse_split (split_tab line)

-- `filter_map`
abbrev add_row : Option MapperEntry → List MapperEntry → List MapperEntry
add_row none entries = entries
add_row (some e) entries = e ∷ entries

unfoldable pub parse_rows : List Bytes → List MapperEntry
parse_rows [] = []
parse_rows (line ∷ lines) = add_row (parse_persist_line line) (parse_rows lines)

abbrev pub load_text : Option Bytes → List MapperEntry
load_text none = []
load_text (some text) = parse_rows (lines text)

unfoldable pub persist_load : FileFaults → Store → List MapperEntry
persist_load os store = if os.read_fails then [] else load_text store.file

unfoldable pub persist_append : FileFaults → MapperEntry → Option Bytes → Option Bytes
persist_append os entry file =
    if os.open_fails then file else some (contents file ++ written os.write_stops (row entry))

abbrev pub has_name : Bytes → List MapperEntry → Bool
has_name name entries = any (λ e. bytes_eq e.name name) entries

unfoldable pub register_tpm_mapper : FileFaults → MapperEntry → Store → Store
register_tpm_mapper os entry store =
    if not (has_name entry.name store.mappers)
    then record {
      mappers = store.mappers ++ (entry ∷ []);
      file = persist_append os entry store.file;
    }
    else store

-- The loop over the rows of the file.
unfoldable pub merge : List MapperEntry → List MapperEntry → List MapperEntry
merge merged [] = merged
merge merged (disk ∷ rows) =
    merge (if not (has_name disk.name merged) then merged ++ (disk ∷ []) else merged) rows

unfoldable pub snapshot : FileFaults → Store → List MapperEntry
snapshot os store = merge store.mappers (persist_load os store)

-- `retain(|e| e.name != name)`
unfoldable pub retain : Bytes → List MapperEntry → List MapperEntry
retain name [] = []
retain name (e ∷ entries) =
    let rest = retain name entries in if not (bytes_eq e.name name) then e ∷ rest else rest

unfoldable pub rows_of : List MapperEntry → Bytes
rows_of [] = []
rows_of (e ∷ entries) = row e ++ rows_of entries

unfoldable pub rewrite_persist : FileFaults → List MapperEntry → Option Bytes → Option Bytes
rewrite_persist os entries file =
    if os.open_fails then file else some (written os.write_stops (rows_of entries))

abbrev keep_rows : FileFaults → List MapperEntry → Option Bytes → Option Bytes
keep_rows os [] file = if os.remove_fails then file else none
keep_rows os (e ∷ kept) file = rewrite_persist os (e ∷ kept) file

abbrev remove_rows : FileFaults → Bytes → Option Bytes → Option Bytes
remove_rows os name none = none
remove_rows os name (some text) =
    if os.read_fails
    then some text
    else keep_rows os (retain name (parse_rows (lines text))) (some text)

unfoldable pub persist_remove : FileFaults → Bytes → Option Bytes → Option Bytes
persist_remove os name file = remove_rows os name file

unfoldable pub mark_closed : FileFaults → Bytes → Store → Store
mark_closed os name store = record {
  mappers = retain name store.mappers;
  file = persist_remove os name store.file;
}

unfoldable pub pending : FileFaults → Store → ℕ
pending os store = length (snapshot os store)
