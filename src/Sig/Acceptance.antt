-- ===== src/Sig/Acceptance.antt =====
-- When a signature is accepted: sig/keys.rs, sig/verify.rs and the narrowing of policy/gate.rs.
use siratis_nmbl_bootloader.Prelude.{
  Mem, first, later, ◌≡◌, refl, subst, ◌≢◌, ◌↔◌, Bool, true, false, not, List, [], ◌∷◌, arith,
  if◌then◌else◌, length, Bytes, bytes_eq, bytes_eq_refl, bytes_eq→eq,
}
use siratis_nmbl_bootloader.Sig.Alg.{AlgId, alg_eq, sig_len}
use siratis_nmbl_bootloader.Sig.Sidecar.{SigSidecar, Parsed, parse}
use siratis_nmbl_bootloader.Sig.Strictness.{parse-ok}
use siratis_nmbl_bootloader.Sig.Trust.{
  Mem-order, Mem-keep_if, Mem-keep_if, order-Mem, Mem-order, IsSigner, HasSigner, try_keys-ok,
  IsSigner-accept, alg_eq_refl,
}
use siratis_nmbl_bootloader.Sig.Verify.{
  Crypto, KeyVerify, accept, reject, bad_sig_len, BakedKey, domain_mismatch, internal_siglen,
  Verdict, ok, err, ◌>>=◌, domain_tag, fingerprint, hash_verify_digest, order_by_hint,
  resolve_allowed_keys, contains_fp, try_keys, verify_digest, allowed_fingerprints, parsed_sidecar,
  verify_priority_against, domain_priority_file,
}

module _ (crypto : Crypto) where
  no_bad_len :
      (k : BakedKey) (digest sig domain : Bytes)
      → length sig ≡ sig_len k.alg
      → hash_verify_digest crypto k digest sig domain ≢ bad_sig_len
  unfolding hash_verify_digest
  no_bad_len k digest sig domain h e = ground arith

  alg_eq-same : (a b : AlgId) → alg_eq a b ≡ true → sig_len a ≡ sig_len b
  alg_eq-same AlgId.ml_dsa65 AlgId.ml_dsa65 h = refl
  alg_eq-same AlgId.ml_dsa65 AlgId.ml_dsa87 h = cc
  alg_eq-same AlgId.ml_dsa87 AlgId.ml_dsa65 h = cc
  alg_eq-same AlgId.ml_dsa87 AlgId.ml_dsa87 h = refl

  abbrev on_verdict : KeyVerify → Verdict (Unit {0}) → Verdict (Unit {0})
  on_verdict accept rest = ok tt
  on_verdict reject rest = rest
  on_verdict bad_sig_len rest = err internal_siglen

  -- Any signer in the list gets its signature accepted: the keys before it at worst reject.
  try_keys_signer :
      (alg : AlgId) (digest sig domain : Bytes) (keys : List BakedKey) {k : BakedKey}
      → length sig ≡ sig_len alg
      → Mem k keys
      → IsSigner crypto k alg digest sig domain
      → try_keys crypto alg digest sig domain keys ≡ ok tt
  unfolding try_keys
  try_keys_signer alg digest sig domain [] w m s = elim m [ ]
  try_keys_signer alg digest sig domain (j ∷ keys) w first s =
      let same : alg_eq j.alg alg ≡ true =
        subst (λ a. alg_eq j.alg a ≡ true) s.same_alg (alg_eq_refl crypto j.alg) in
      rw (same, IsSigner-accept crypto j alg digest sig domain s)
  try_keys_signer alg digest sig domain (j ∷ keys) w (later m) s =
      go (alg_eq j.alg alg) refl (hash_verify_digest crypto j digest sig domain) refl
        (try_keys_signer alg digest sig domain keys w m s)
    where
      go :
          (b : Bool)
          → alg_eq j.alg alg ≡ b
          → (v : KeyVerify) → hash_verify_digest crypto j digest sig domain ≡ v
          → try_keys crypto alg digest sig domain keys ≡ ok tt
          → (if not b then try_keys crypto alg digest sig domain keys else elim v [
            | accept ↦ ok tt
            | reject ↦ try_keys crypto alg digest sig domain keys
            | bad_sig_len ↦ err internal_siglen
          ])
            ≡ ok tt
      go false a v e ih = ih
      go true a accept e ih = refl
      go true a reject e ih = ih
      go true a bad_sig_len e ih =
          absurd (no_bad_len j digest sig domain (omega (arith, w, alg_eq-same j.alg alg a)) e)

  accepts :
      (digest domain : Bytes) (c : SigSidecar) (keys : List BakedKey) (b : Bool)
      → bytes_eq c.head.domain (domain_tag crypto domain) ≡ b
      → (if not b
          then err domain_mismatch
          else try_keys crypto c.head.alg digest c.signature domain
              (order_by_hint crypto keys c.head.key_id))
        ≡ ok tt
      → (c.head.domain ≡ domain_tag crypto domain)
        × HasSigner crypto c.head.alg digest c.signature domain keys
  accepts digest domain c keys false e h = absurd (cc)
  accepts digest domain c keys true e h =
      let (k, m, s) =
        try_keys-ok crypto c.head.alg digest c.signature domain
          (order_by_hint crypto keys c.head.key_id) h in
      (
        bytes_eq→eq c.head.domain (domain_tag crypto domain) e,
        (k, order-Mem crypto keys c.head.key_id m, s),
      )

  accepted :
      (digest domain : Bytes) (c : SigSidecar) (keys : List BakedKey)
      → length c.signature ≡ sig_len c.head.alg
      → c.head.domain ≡ domain_tag crypto domain
      → HasSigner crypto c.head.alg digest c.signature domain keys
      → verify_digest crypto digest domain c keys ≡ ok tt
  unfolding verify_digest
  accepted digest domain c keys w d (k, m, s) =
      let same : bytes_eq c.head.domain (domain_tag crypto domain) ≡ true =
        subst (λ x. bytes_eq c.head.domain x ≡ true) d (bytes_eq_refl c.head.domain) in
      rw same (
        try_keys_signer c.head.alg digest c.signature domain
          (order_by_hint crypto keys c.head.key_id) w (Mem-order crypto keys c.head.key_id m) s)

  -- For a sidecar whose signature has the width of its algorithm, a digest is accepted under a role
  -- exactly where the sidecar is tagged with that role and one of the keys, of the sidecar's
  -- algorithm, verifies the signature over the digest in that role.
  pub verify_digest_iff :
      (digest domain : Bytes) (c : SigSidecar) (keys : List BakedKey)
      → length c.signature ≡ sig_len c.head.alg
      → (verify_digest crypto digest domain c keys ≡ ok tt) ↔ (
          (c.head.domain ≡ domain_tag crypto domain)
          × HasSigner crypto c.head.alg digest c.signature domain keys)
  unfolding verify_digest
  verify_digest_iff digest domain c keys w = (
    λ h. accepts digest domain c keys (bytes_eq c.head.domain (domain_tag crypto domain)) refl h,
    λ p. accepted digest domain c keys w p.0 p.1,
  )

  -- What the operator's list of fingerprints allows: all keys if it is empty, else those listed.
  abbrev Allows : List Bytes → BakedKey → Type 0
  Allows [] k = Unit
  Allows (f ∷ allowed) k = contains_fp (f ∷ allowed) (fingerprint crypto k) ≡ true

  allowed_key :
      {k : BakedKey} (baked : List BakedKey) (allowed : List Bytes)
      → Mem k (resolve_allowed_keys crypto baked allowed)
      → Mem k baked × Allows allowed k
  unfolding resolve_allowed_keys
  allowed_key baked [] m = (m, tt)
  allowed_key baked (f ∷ allowed) m =
      Mem-keep_if (λ k. contains_fp (f ∷ allowed) (fingerprint crypto k)) baked m

  -- What stands behind an accepted priority file.
  pub record IsAttested (ids : List Bytes) (digest sig_bytes : Bytes) (baked : List BakedKey)
      : Type 0 where
    pub sidecar : SigSidecar
    pub parsed : parse sig_bytes ≡ ok sidecar
    pub allowed : List Bytes
    pub resolved : allowed_fingerprints crypto ids ≡ ok allowed
    pub role : sidecar.head.domain ≡ domain_tag crypto domain_priority_file
    pub key : BakedKey
    pub baked_in : Mem key baked
    pub listed : Allows allowed key
    pub signer : IsSigner crypto key sidecar.head.alg digest sidecar.signature domain_priority_file

  -- A priority file passes only where its sidecar parses, is tagged for that role, and a baked key
  -- whose full fingerprint the operator's list allows verifies the signature in that role.
  pub verify_priority_against-IsAttested :
      (ids : List Bytes) (digest sig_bytes : Bytes) (baked : List BakedKey)
      → verify_priority_against crypto ids digest sig_bytes baked ≡ ok tt
      → IsAttested ids digest sig_bytes baked
  unfolding verify_priority_against
  verify_priority_against-IsAttested ids digest sig_bytes baked h =
      go (parse sig_bytes) refl (allowed_fingerprints crypto ids) refl h
    where
      go :
          (p : Parsed)
          → parse sig_bytes ≡ p
          → (v : Verdict (List Bytes)) → allowed_fingerprints crypto ids ≡ v
          → (parsed_sidecar crypto p >>= λ c. v >>= λ a.
              verify_digest crypto digest domain_priority_file c
                (resolve_allowed_keys crypto baked a))
            ≡ ok tt
          → IsAttested ids digest sig_bytes baked
      go (err e) ep v ev q = absurd (cc)
      go (ok c) ep (err e) ev q = absurd (cc)
      go (ok c) ep (ok a) ev q =
          let (_, _, width, _) = parse-ok sig_bytes c ep in
          let (role, (k, m, s)) =
            (verify_digest_iff digest domain_priority_file c (resolve_allowed_keys crypto baked a)
                width).0
              q in
          let (here, listed) = allowed_key baked a m in
          record {
            sidecar = c;
            parsed = ep;
            allowed = a;
            resolved = ev;
            role = role;
            key = k;
            baked_in = here;
            listed = listed;
            signer = s;
          }
