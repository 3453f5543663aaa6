-- ===== src/Seal/Survival.antt =====
-- Writing and reading the file of policy/registry.rs.
use siratis_nmbl_bootloader.Prelude.{
  ℕ, ◌<◌, ◌≡◌, refl, sym, ap, subst, ◌∙◌, ◌⊎◌, inl, inr, true, false, not, some, List, [], ◌∷◌,
  ◌++◌, append-nil, append_assoc, arith, ◌==◌, Bool-cases, if_case, length, any, Bytes, bytes_eq,
  bytes_eq_refl, bytes_eq→eq,
}
use siratis_nmbl_bootloader.Seal.Registry.{
  no_file_faults, contents, Store, persist_load, snapshot, persist_append, merge,
  register_tpm_mapper, MapperEntry, row, trim, split_tab, lines, parse_persist_line, named,
  parse_rows, rows_of, load_text, has_name,
}

abbrev Lacks : ℕ → Bytes → Type 0
Lacks b text = any (λ c. c == b) text ≡ false

-- An entry that its row can hold: no tab in the path, no line feed, and a name without blanks around.
pub record IsRow (e : MapperEntry) : Type 0 where
  pub no_tab : Lacks 9 e.cryptsetup
  pub one_line : Lacks 10 e.cryptsetup × Lacks 10 e.name
  pub trimmed : trim e.name ≡ e.name
  pub nonempty : 0 < length e.name

lines-line : (line rest : Bytes) → Lacks 10 line → lines (line ++ (10 ∷ rest)) ≡ line ∷ lines rest
unfolding lines
lines-line [] rest h = refl
lines-line (c ∷ line) rest h =
    let other : (c == 10) ≡ false = ground arith in
    rw (other, lines-line line rest (ground arith)) refl

split-tab :
    (left right : Bytes) → Lacks 9 left → split_tab (left ++ (9 ∷ right)) ≡ some (left, right)
unfolding split_tab
split-tab [] right h = refl
split-tab (c ∷ left) right h =
    let other : (c == 9) ≡ false = ground arith in
    rw (other, split-tab left right (ground arith)) refl

Lacks-append : (b : ℕ) (xs ys : Bytes) → Lacks b xs → Lacks b ys → Lacks b (xs ++ ys)
Lacks-append b [] ys h k = k
Lacks-append b (x ∷ xs) ys h k = ground (arith, Lacks-append b xs ys (ground arith) k)

named_lem : (e : MapperEntry) → 0 < length e.name → named e.cryptsetup e.name ≡ some e
named_lem e h = go e.name refl h
  where
    go : (name : Bytes) → e.name ≡ name → 0 < length name → named e.cryptsetup e.name ≡ some e
    go [] q p = absurd (omega arith)
    go (c ∷ name) q p = rw q refl

row_line :
    (e : MapperEntry) (rest : Bytes) → row e ++ rest ≡ (e.cryptsetup ++ (9 ∷ e.name)) ++ (10 ∷ rest)
row_line e rest = simp append_assoc

parse-row : (e : MapperEntry) → IsRow e → parse_persist_line (e.cryptsetup ++ (9 ∷ e.name)) ≡ some e
unfolding parse_persist_line
parse-row e v = rw (split-tab e.cryptsetup e.name v.no_tab, v.trimmed) (named_lem e v.nonempty)

abbrev AllRows : List MapperEntry → Type 0
AllRows [] = Unit
AllRows (e ∷ entries) = IsRow e × AllRows entries

-- Entries without a tab in the path, without line feeds, and with names that are not empty and have
-- no blanks around, are read back from their rows, in order.
pub load-rows_of :
    (entries : List MapperEntry) → AllRows entries → load_text (some (rows_of entries)) ≡ entries
unfolding rows_of lines parse_rows
load-rows_of [] v = refl
load-rows_of (e ∷ entries) (v, w) =
    let one : Lacks 10 (e.cryptsetup ++ (9 ∷ e.name)) =
      Lacks-append 10 e.cryptsetup (9 ∷ e.name) v.one_line.0 (ground (arith, v.one_line.1)) in
    rw
      (
        row_line e (rows_of entries),
        lines-line (e.cryptsetup ++ (9 ∷ e.name)) (rows_of entries) one,
        parse-row e v,
        load-rows_of entries w,
      )
      refl

rows_of-append :
    (xs : List MapperEntry) (e : MapperEntry) → rows_of xs ++ row e ≡ rows_of (xs ++ (e ∷ []))
unfolding rows_of
rows_of-append [] e = sym (append-nil (row e))
rows_of-append (x ∷ xs) e =
    append_assoc (row x) (rows_of xs) (row e) ∙ ap (λ t. row x ++ t) (rows_of-append xs e)

has_name-append :
    (name : Bytes) (xs : List MapperEntry) (e : MapperEntry)
    → bytes_eq e.name name ≡ true
    → has_name name (xs ++ (e ∷ [])) ≡ true
has_name-append name [] e h = ground arith
has_name-append name (x ∷ xs) e h = ground (arith, has_name-append name xs e h)

has_name-append_left :
    (name : Bytes) (xs : List MapperEntry) (e : MapperEntry)
    → has_name name xs ≡ true
    → has_name name (xs ++ (e ∷ [])) ≡ true
has_name-append_left name [] e h = absurd (cc)
has_name-append_left name (x ∷ xs) e h = ground (arith, has_name-append_left name xs e)

-- The next row's name is in the list or its own.
appended_name :
    (name : Bytes) (merged rows : List MapperEntry) (disk : MapperEntry)
    → (has_name name merged ≡ true) ⊎ (has_name name (disk ∷ rows) ≡ true)
    → (has_name name (merged ++ (disk ∷ [])) ≡ true) ⊎ (has_name name rows ≡ true)
appended_name name merged rows disk (inl h) = inl (has_name-append_left name merged disk h)
appended_name name merged rows disk (inr h) = elim (Bool-cases (bytes_eq disk.name name)) [
  | inl same ↦ inl (has_name-append name merged disk same)
  | inr other ↦ inr (rw other at h)
]

present_name :
    (name : Bytes) (merged rows : List MapperEntry) (disk : MapperEntry)
    → has_name disk.name merged ≡ true
    → (has_name name merged ≡ true) ⊎ (has_name name (disk ∷ rows) ≡ true)
    → (has_name name merged ≡ true) ⊎ (has_name name rows ≡ true)
present_name name merged rows disk old (inl h) = inl h
present_name name merged rows disk old (inr h) = elim (Bool-cases (bytes_eq disk.name name)) [
  | inl same ↦ inl (subst (λ n. has_name n merged ≡ true) (bytes_eq→eq disk.name name same) old)
  | inr other ↦ inr (rw other at h)
]

merge-has_name :
    (name : Bytes) (merged rows : List MapperEntry)
    → (has_name name merged ≡ true) ⊎ (has_name name rows ≡ true)
    → has_name name (merge merged rows) ≡ true
unfolding merge
merge-has_name name merged [] (inl h) = h
merge-has_name name merged [] (inr h) = absurd (cc)
merge-has_name name merged (disk ∷ rows) h =
    if_case (λ next. has_name name (merge next rows) ≡ true) (not (has_name disk.name merged))
      (λ new.
        merge-has_name name (merged ++ (disk ∷ [])) rows (appended_name name merged rows disk h))
      (λ old. merge-has_name name merged rows (present_name name merged rows disk (ground arith) h))

AllRows-append :
    (xs : List MapperEntry) (e : MapperEntry) → AllRows xs → IsRow e → AllRows (xs ++ (e ∷ []))
AllRows-append [] e v w = (w, tt)
AllRows-append (x ∷ xs) e (v, vs) w = (v, AllRows-append xs e vs w)

-- Where the file system refuses nothing, the file holds the rows of entries that rows can hold, and
-- so can a row of the new entry, whose name is not yet in memory: once the entry is registered, its
-- name is in the snapshot even if the memory is wiped.
pub register-survives :
    (e : MapperEntry) (entries : List MapperEntry) (store : Store)
    → IsRow e
    → AllRows entries
    → contents store.file ≡ rows_of entries
    → has_name e.name store.mappers ≡ false
    → has_name e.name (
        snapshot no_file_faults
          (record (register_tpm_mapper no_file_faults e store) { mappers = [] }))
      ≡ true
unfolding register_tpm_mapper persist_append snapshot persist_load
register-survives e entries store v w f n =
    let known : load_text (some (rows_of (entries ++ (e ∷ [])))) ≡ entries ++ (e ∷ []) =
      load-rows_of (entries ++ (e ∷ [])) (AllRows-append entries e w v) in
    rw (n, f, rows_of-append entries e, known)
      (merge-has_name e.name [] (entries ++ (e ∷ []))
        (inr (has_name-append e.name entries e (bytes_eq_refl e.name))))
