-- ===== src/Update/Shape.antt =====
-- The test of a manifest's shape against a description of the manifests it accepts.
use siratis_nmbl_bootloader.Prelude.{
  ◌≡◌, refl, subst, ◌↔◌, ◌⊎◌, inl, inr, true, ◌||◌, List, [], ◌∷◌, arith, Bool-cases, Bytes,
  bytes_eq, bytes_eq→eq, Outcome, ok, err, ◌>>=◌, codes,
}
use siratis_nmbl_bootloader.Update.Manifest.{
  Role, Error, Entry, Manifest, Libraries, is_digest, Seen, has_role, required_roles, none_seen,
  check_required, check_entry, check_entries, validate_shape,
}
use siratis_nmbl_bootloader.Update.Names.{seen_of}
use siratis_nmbl_bootloader.Update.EntryShape.{
  AreEntries, check_entry-Passed, Passed-IsEntry, IsEntry-check_entry,
}

-- The roles seen at the end of the loop.
abbrev pub roles_after : List Entry → List Role → List Role
roles_after [] roles = roles
roles_after (e ∷ entries) roles = roles_after entries (e.role ∷ roles)

module _ (lib : Libraries) where
  check_entries-AreEntries :
      (entries : List Entry) (roles : List Role) (seen : Seen)
      → check_entries lib entries (seen_of roles) ≡ ok seen
      → AreEntries lib entries roles × (seen ≡ seen_of (roles_after entries roles))
  unfolding check_entries
  check_entries-AreEntries [] roles seen h = (tt, cc)
  check_entries-AreEntries (e ∷ entries) roles seen h =
      go (check_entry lib e (seen_of roles)) refl h
        (λ k. check_entries-AreEntries entries (e.role ∷ roles) seen k)
    where
      go :
          (first : Outcome Error Seen)
          → check_entry lib e (seen_of roles) ≡ first
          → (first >>= λ seen'. check_entries lib entries seen') ≡ ok seen
          → (check_entries lib entries (seen_of (e.role ∷ roles)) ≡ ok seen
              → AreEntries lib entries (e.role ∷ roles)
                × (seen ≡ seen_of (roles_after entries (e.role ∷ roles))))
          → AreEntries lib (e ∷ entries) roles
            × (seen ≡ seen_of (roles_after entries (e.role ∷ roles)))
      go (err why) is k rest = absurd (cc)
      go (ok seen') is k rest =
          let p = Passed-IsEntry lib e roles seen' (check_entry-Passed lib e roles seen' is) in
          let q = rest (subst (λ s. check_entries lib entries s ≡ ok seen) (p.2) k) in
          ((p.0, p.1, q.0), q.1)

  AreEntries-check_entries :
      (entries : List Entry) (roles : List Role)
      → AreEntries lib entries roles
      → check_entries lib entries (seen_of roles) ≡ ok (seen_of (roles_after entries roles))
  unfolding check_entries
  AreEntries-check_entries [] roles h = refl
  AreEntries-check_entries (e ∷ entries) roles (i, new, rest) =
      rw (IsEntry-check_entry lib e roles i new)
        (AreEntries-check_entries entries (e.role ∷ roles) rest)

-- Each of the roles is among the others.
abbrev pub AreAmong : List Role → List Role → Type 0
AreAmong [] roles = Unit
AreAmong (r ∷ required) roles = (has_role r roles ≡ true) × AreAmong required roles

check_required-AreAmong :
    (required roles : List Role) → check_required required roles ≡ ok tt → AreAmong required roles
unfolding check_required
check_required-AreAmong [] roles h = tt
check_required-AreAmong (r ∷ required) roles h =
    ground (arith, check_required-AreAmong required roles)

AreAmong-check_required :
    (required roles : List Role) → AreAmong required roles → check_required required roles ≡ ok tt
unfolding check_required
AreAmong-check_required [] roles h = refl
AreAmong-check_required (r ∷ required) roles h =
    rw (h.0) (AreAmong-check_required required roles (h.1))

module _ (lib : Libraries) where
  -- The manifests that are accepted.
  pub record IsShaped (manifest : Manifest) : Type 0 where
    pub first_version : manifest.version ≡ 1
    pub identified : is_digest manifest.set_id ≡ true
    pub targets : (manifest.target_slot ≡ codes "A") ⊎ (manifest.target_slot ≡ codes "B")
    pub entries : AreEntries lib manifest.files []
    pub complete : AreAmong required_roles (roles_after manifest.files [])

  targets_iff :
      (text : Bytes)
      → (bytes_eq text (codes "A") || bytes_eq text (codes "B") ≡ true)
        ↔ ((text ≡ codes "A") ⊎ (text ≡ codes "B"))
  targets_iff text = (forward, backward)
    where
      forward :
          bytes_eq text (codes "A") || bytes_eq text (codes "B") ≡ true
          → (text ≡ codes "A") ⊎ (text ≡ codes "B")
      forward h = elim (Bool-cases (bytes_eq text (codes "A"))) [
        | inl a ↦ inl (bytes_eq→eq text (codes "A") a)
        | inr a ↦ inr (bytes_eq→eq text (codes "B") (let k = rw a at h in k))
      ]

      backward :
          (text ≡ codes "A") ⊎ (text ≡ codes "B")
          → bytes_eq text (codes "A") || bytes_eq text (codes "B") ≡ true
      backward (inl e) = rw e refl
      backward (inr e) = rw e refl

  -- What the tests before and after the loop have found.
  record Tested (manifest : Manifest) (seen : Seen) : Type 0 where
    first_version : manifest.version ≡ 1
    set_id : is_digest manifest.set_id ≡ true
    target :
        bytes_eq manifest.target_slot (codes "A") || bytes_eq manifest.target_slot (codes "B")
        ≡ true
    required : check_required required_roles seen.roles ≡ ok tt

  validate_shape-Tested :
      (manifest : Manifest) (seen : Seen)
      → check_entries lib manifest.files none_seen ≡ ok seen
      → validate_shape lib manifest ≡ ok tt
      → Tested manifest seen
  unfolding validate_shape
  validate_shape-Tested manifest seen is h = ground arith

  validate_shape-entries :
      (manifest : Manifest)
      → validate_shape lib manifest ≡ ok tt
      → (seen : Seen) × (check_entries lib manifest.files none_seen ≡ ok seen)
  unfolding validate_shape
  validate_shape-entries manifest h = go (check_entries lib manifest.files none_seen) refl
    where
      go :
          (result : Outcome Error Seen)
          → check_entries lib manifest.files none_seen ≡ result
          → (seen : Seen) × (check_entries lib manifest.files none_seen ≡ ok seen)
      go (ok seen) is = (seen, is)
      go (err why) is = absurd (ground arith)

  IsShaped-validate_shape :
      (manifest : Manifest) → IsShaped manifest → validate_shape lib manifest ≡ ok tt
  unfolding validate_shape
  IsShaped-validate_shape manifest s =
      rw
        (
          s.first_version,
          s.identified,
          (targets_iff manifest.target_slot).1 s.targets,
          AreEntries-check_entries lib manifest.files [] s.entries,
        )
        (AreAmong-check_required required_roles (roles_after manifest.files []) s.complete)

  -- A manifest's shape is accepted exactly where its version is 1, its identity is a digest, its slot is
  -- A or B, and the five required roles are among those of its files, whose roles are all different; and
  -- where, for each file, the destination and the payload are the name of its role, the signature is that
  -- name with .sig, the domain is that of its role, sha512 is a digest, and the destination and the
  -- signature pass validate_relative.
  pub validate_shape_iff :
      (manifest : Manifest) → (validate_shape lib manifest ≡ ok tt) ↔ IsShaped manifest
  validate_shape_iff manifest = (forward, IsShaped-validate_shape manifest)
    where
      forward : validate_shape lib manifest ≡ ok tt → IsShaped manifest
      forward h =
          let (seen, is) = validate_shape-entries manifest h in
          let tested = validate_shape-Tested manifest seen is h in
          let (entries, collected) = check_entries-AreEntries lib manifest.files [] seen is in
          record {
            first_version = tested.first_version;
            identified = tested.set_id;
            targets = (targets_iff manifest.target_slot).0 tested.target;
            entries = entries;
            complete = check_required-AreAmong required_roles _ (
                subst (λ s. check_required required_roles s.roles ≡ ok tt) collected
                  tested.required);
          }
