-- ===== src/Update/Names.antt =====
-- The fixed names of a slot's files: each role's is its own, and no name is another's signature.
use siratis_nmbl_bootloader.Prelude.{
  ◌≡◌, refl, ap₂, false, ◌||◌, List, [], ◌∷◌, map, Bytes, bytes_eq,
}
use siratis_nmbl_bootloader.Update.Manifest.{
  Role, role_eq, expected_destination, dot_sig, Seen, has_role, has_text, bootloader, kernel,
  initrd, rescue, network, tools, config,
}

pub same_destination :
    (s r : Role) → bytes_eq (expected_destination s) (expected_destination r) ≡ role_eq s r
unfolding expected_destination
same_destination bootloader bootloader = refl
same_destination kernel kernel = refl
same_destination initrd initrd = refl
same_destination rescue rescue = refl
same_destination network network = refl
same_destination tools tools = refl
same_destination config config = refl
same_destination _ _ = refl

pub same_signature :
    (s r : Role)
    → bytes_eq (dot_sig (expected_destination s)) (dot_sig (expected_destination r)) ≡ role_eq s r
unfolding expected_destination
same_signature bootloader bootloader = refl
same_signature kernel kernel = refl
same_signature initrd initrd = refl
same_signature rescue rescue = refl
same_signature network network = refl
same_signature tools tools = refl
same_signature config config = refl
same_signature _ _ = refl

pub name_not_signature :
    (s r : Role) → bytes_eq (expected_destination s) (dot_sig (expected_destination r)) ≡ false
unfolding expected_destination
name_not_signature bootloader bootloader = refl
name_not_signature kernel kernel = refl
name_not_signature initrd initrd = refl
name_not_signature rescue rescue = refl
name_not_signature network network = refl
name_not_signature tools tools = refl
name_not_signature config config = refl
name_not_signature _ _ = refl

pub signature_not_name :
    (s r : Role) → bytes_eq (dot_sig (expected_destination s)) (expected_destination r) ≡ false
unfolding expected_destination
signature_not_name bootloader bootloader = refl
signature_not_name kernel kernel = refl
signature_not_name initrd initrd = refl
signature_not_name rescue rescue = refl
signature_not_name network network = refl
signature_not_name tools tools = refl
signature_not_name config config = refl
signature_not_name _ _ = refl

-- What the loop has seen once it is past entries with these roles.
abbrev pub sources_of : List Role → List Bytes
sources_of [] = []
sources_of (r ∷ roles) =
    dot_sig (expected_destination r) ∷ expected_destination r ∷ sources_of roles

abbrev pub seen_of : List Role → Seen
seen_of roles = record {
  roles = roles;
  destinations = map expected_destination roles;
  sources = sources_of roles;
}

pub has_text-destination :
    (r : Role) (roles : List Role)
    → has_text (expected_destination r) (map expected_destination roles) ≡ has_role r roles
has_text-destination r [] = refl
has_text-destination r (s ∷ roles) =
    ap₂ (λ a b. a || b) (same_destination s r) (has_text-destination r roles)

pub has_text-source :
    (r : Role) (roles : List Role)
    → has_text (expected_destination r) (sources_of roles) ≡ has_role r roles
has_text-source r [] = refl
has_text-source r (s ∷ roles) =
    rw (signature_not_name s r)
      (ap₂ (λ a b. a || b) (same_destination s r) (has_text-source r roles))

pub has_text-signature :
    (r : Role) (roles : List Role)
    → has_text (dot_sig (expected_destination r)) (sources_of roles) ≡ has_role r roles
has_text-signature r [] = refl
has_text-signature r (s ∷ roles) =
    ap₂ (λ a b. a || b) (same_signature s r)
      (rw (name_not_signature s r) (has_text-signature r roles))
