-- ===== src/Seal/Drained.antt =====
-- What is left in the registry when every mapper of a snapshot was marked closed.
use siratis_nmbl_bootloader.Prelude.{
  ◌≡◌, refl, sym, ◌∙◌, Bool, true, false, not, List, [], ◌∷◌, ◌++◌, if◌then◌else◌, if_case, Bytes,
  bytes_eq, bytes_eq_refl, Mem, first, later, Mem-append_left,
}
use siratis_nmbl_bootloader.Seal.Registry.{
  MapperEntry, Store, FileFaults, merge, snapshot, persist_load, has_name, retain,
}

retain_step :
    {m : MapperEntry} (name : Bytes) (e : MapperEntry) (entries : List MapperEntry) (b : Bool)
    → bytes_eq e.name name ≡ b
    → (Mem m (retain name entries) → Mem m entries × (bytes_eq m.name name ≡ false))
    → Mem m (if not b then e ∷ retain name entries else retain name entries)
    → Mem m (e ∷ entries) × (bytes_eq m.name name ≡ false)
retain_step name e entries true eq ih m = let (a, b) = ih m in (later a, b)
retain_step name e entries false eq ih first = (first, eq)
retain_step name e entries false eq ih (later m) = let (a, b) = ih m in (later a, b)

-- An entry that is kept was there, under another name.
pub retain-Mem :
    {m : MapperEntry} (name : Bytes) (entries : List MapperEntry)
    → Mem m (retain name entries)
    → Mem m entries × (bytes_eq m.name name ≡ false)
unfolding retain
retain-Mem name [] m = elim m [ ]
retain-Mem name (e ∷ entries) m =
    retain_step name e entries (bytes_eq e.name name) refl (λ n. retain-Mem name entries n) m

-- The list in memory after each of the entries was marked closed.
abbrev pub retain_all : List MapperEntry → List MapperEntry → List MapperEntry
retain_all [] mappers = mappers
retain_all (e ∷ entries) mappers = retain_all entries (retain e.name mappers)

retain_all-Mem :
    {m : MapperEntry} (entries mappers : List MapperEntry)
    → Mem m (retain_all entries mappers)
    → Mem m mappers × ((e : MapperEntry) → Mem e entries → bytes_eq m.name e.name ≡ false)
retain_all-Mem [] mappers n = (n, λ e k. elim k [ ])
retain_all-Mem {m = m} (e ∷ entries) mappers n =
    let (kept, others) = retain_all-Mem entries (retain e.name mappers) n in
    let (there, other) = retain-Mem e.name mappers kept in
    (there, λ j k. elsewhere j other others k)
  where
    elsewhere :
        (j : MapperEntry)
        → bytes_eq m.name e.name ≡ false
        → ((k : MapperEntry) → Mem k entries → bytes_eq m.name k.name ≡ false)
        → Mem j (e ∷ entries)
        → bytes_eq m.name j.name ≡ false
    elsewhere j o os first = o
    elsewhere j o os (later k) = os j k

no_members :
    (entries : List MapperEntry) → ((m : MapperEntry) → Mem m entries → true ≡ false) → entries ≡ []
no_members [] h = refl
no_members (e ∷ entries) h = absurd (cc (h e first))

-- Where all entries in memory are among those marked closed, none is left.
pub retain_all-empty :
    (entries mappers : List MapperEntry)
    → ((m : MapperEntry) → Mem m mappers → Mem m entries)
    → retain_all entries mappers ≡ []
retain_all-empty entries mappers h = no_members (retain_all entries mappers) (λ m n.
    let (there, others) = retain_all-Mem entries mappers n in
    sym (bytes_eq_refl m.name) ∙ others m (h m there))

-- A merge keeps what it starts from.
merge-Mem :
    {m : MapperEntry} (merged rows : List MapperEntry) → Mem m merged → Mem m (merge merged rows)
unfolding merge
merge-Mem merged [] n = n
merge-Mem {m = m} merged (disk ∷ rows) n =
    if_case (λ next. Mem m (merge next rows)) (not (has_name disk.name merged))
      (λ _. merge-Mem (merged ++ (disk ∷ [])) rows (Mem-append_left (disk ∷ []) n))
      (λ _. merge-Mem merged rows n)

pub snapshot-Mem :
    (os : FileFaults) (store : Store) {m : MapperEntry}
    → Mem m store.mappers
    → Mem m (snapshot os store)
unfolding snapshot
snapshot-Mem os store n = merge-Mem store.mappers (persist_load os store) n
