-- ===== src/Update/EntryShape.antt =====
-- One entry of a manifest: the test of the loop against a description of what passes it.
use siratis_nmbl_bootloader.Prelude.{
  ◌≡◌, ap, ◌∙◌, true, false, List, [], ◌∷◌, map, arith, bytes_eq, bytes_eq_refl, bytes_eq→eq, ok,
}
use siratis_nmbl_bootloader.Update.Manifest.{
  Role, Entry, Libraries, role_domain, expected_destination, is_digest, dot_sig, Seen, has_role,
  validate_relative, check_entry,
}
use siratis_nmbl_bootloader.Update.Names.{
  name_not_signature, sources_of, seen_of, has_text-destination, has_text-source,
  has_text-signature,
}

module _ (lib : Libraries) where
  -- An entry that names its role's file, signature and domain.
  pub record IsEntry (entry : Entry) : Type 0 where
    pub named : entry.destination ≡ expected_destination entry.role
    pub payload_named : entry.payload ≡ expected_destination entry.role
    pub signature_named : entry.signature ≡ dot_sig (expected_destination entry.role)
    pub in_domain : entry.domain ≡ role_domain entry.role
    pub digest : is_digest entry.sha512 ≡ true
    pub relative : validate_relative lib entry.destination false ≡ ok tt
    pub relative_signature : validate_relative lib entry.signature false ≡ ok tt

  -- Each entry is one, and its role stands neither behind it nor among these.
  abbrev pub AreEntries : List Entry → List Role → Type 0
  AreEntries [] roles = Unit
  AreEntries (e ∷ entries) roles =
      IsEntry e × (has_role e.role roles ≡ false) × AreEntries entries (e.role ∷ roles)

  -- The tests that an accepted entry has passed.
  pub record Passed (e : Entry) (roles : List Role) (seen : Seen) : Type 0 where
    relative : validate_relative lib e.destination false ≡ ok tt
    relative_signature : validate_relative lib e.signature false ≡ ok tt
    same_payload : bytes_eq e.payload e.destination ≡ true
    same_signature : bytes_eq e.signature (dot_sig e.destination) ≡ true
    same_name : bytes_eq e.destination (expected_destination e.role) ≡ true
    same_domain : bytes_eq e.domain (role_domain e.role) ≡ true
    digest : is_digest e.sha512 ≡ true
    new : has_role e.role roles ≡ false
    collected : seen ≡ record {
      roles = e.role ∷ roles;
      destinations = e.destination ∷ map expected_destination roles;
      sources = e.signature ∷ e.payload ∷ sources_of roles;
    }

  pub check_entry-Passed :
      (e : Entry) (roles : List Role) (seen : Seen)
      → check_entry lib e (seen_of roles) ≡ ok seen
      → Passed e roles seen
  unfolding check_entry
  check_entry-Passed e roles seen h = ground arith

  pub Passed-IsEntry :
      (e : Entry) (roles : List Role) (seen : Seen)
      → Passed e roles seen
      → IsEntry e × (has_role e.role roles ≡ false) × (seen ≡ seen_of (e.role ∷ roles))
  Passed-IsEntry e roles seen p =
      let name : e.destination ≡ expected_destination e.role = bytes_eq→eq _ _ p.same_name in
      let payload : e.payload ≡ expected_destination e.role =
        bytes_eq→eq _ _ p.same_payload ∙ name in
      let signature : e.signature ≡ dot_sig (expected_destination e.role) =
        bytes_eq→eq _ _ p.same_signature ∙ ap dot_sig name in
      (
        record {
          named = name;
          payload_named = payload;
          signature_named = signature;
          in_domain = bytes_eq→eq _ _ p.same_domain;
          digest = p.digest;
          relative = p.relative;
          relative_signature = p.relative_signature;
        },
        p.new,
        p.collected ∙ (λ i. record {
          roles = e.role ∷ roles;
          destinations = name i ∷ map expected_destination roles;
          sources = signature i ∷ payload i ∷ sources_of roles;
        }),
      )

  pub IsEntry-check_entry :
      (e : Entry) (roles : List Role)
      → IsEntry e
      → has_role e.role roles ≡ false
      → check_entry lib e (seen_of roles) ≡ ok (seen_of (e.role ∷ roles))
  unfolding check_entry
  IsEntry-check_entry e roles i new = ground (
    arith,
    bytes_eq_refl (expected_destination e.role),
    bytes_eq_refl (dot_sig (expected_destination e.role)),
    bytes_eq_refl (role_domain e.role),
    has_text-destination e.role roles,
    has_text-source e.role roles,
    has_text-signature e.role roles,
    name_not_signature e.role e.role,
  )
