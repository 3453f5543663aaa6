-- ===== src/Sig/Verify.antt =====
-- sig/keys.rs, `verify_digest` of sig/verify.rs and `verify_priority_against` of policy/gate.rs.
-- SHA-256 (crate sha2) and the ML-DSA check of a public key (crate fips204) are parameters.
pub use siratis_nmbl_bootloader.Prelude.{ok, err, ◌>>=◌}
use siratis_nmbl_bootloader.Prelude.{
  Outcome, ℕ, Bool, not, none, some, List, [], ◌∷◌, ◌++◌, ◌==◌, if◌then◌else◌, length, take, any,
  Bytes, bytes_eq, u32_to_le,
}
use siratis_nmbl_bootloader.Sig.Alg.{AlgId, alg_eq, sig_len, pk_len}
use siratis_nmbl_bootloader.Sig.Sidecar.{SigSidecar, SidecarError, Parsed, parse}
use siratis_nmbl_bootloader.Hex.{decode_fixed}

-- `Sha256::digest` of the concatenated updates, `PublicKey::try_from_bytes` as a test, and
-- `hash_verify` with `Ph::SHA512` of the key that those bytes are: digest, signature, context.
pub record Crypto : Type 0 where
  pub sha256 : Bytes → Bytes
  pub well_formed : AlgId → Bytes → Bool
  pub hash_verify : AlgId → Bytes → Bytes → Bytes → Bytes → Bool

pub data KeyVerify : Type 0 where
  accept reject bad_sig_len : KeyVerify

-- The parsed key is determined by its bytes, so it is not kept beside them.
pub record BakedKey : Type 0 where
  pub alg : AlgId
  pub pubkey : Bytes

-- The `stage` of an `NmblError::Signature`.
pub data Stage : Type 0 where
  domain_mismatch internal_siglen no_valid_key baked_key_length baked_key_parse : Stage
  priority_allowed_key_id : Stage
  priority_sidecar_parse : SidecarError → Stage

abbrev pub Verdict {ℓ} : Type ℓ → Type ℓ
Verdict A = Outcome Stage A

abbrev domain_tag_prefix : Bytes
domain_tag_prefix =
    b'n' ∷ b'm' ∷ b'b' ∷ b'l' ∷ b':' ∷ b's' ∷ b'i' ∷ b'g' ∷ b'd' ∷ b'o' ∷ b'm' ∷ b':' ∷ b'v' ∷ b'1'
    ∷ []

abbrev keyfp_prefix : Bytes
keyfp_prefix =
    b'n' ∷ b'm' ∷ b'b' ∷ b'l' ∷ b':' ∷ b'k' ∷ b'e' ∷ b'y' ∷ b'f' ∷ b'p' ∷ b':' ∷ b'v' ∷ b'1' ∷ []

-- "nmbl:priority-file:v1"
abbrev pub domain_priority_file : Bytes
domain_priority_file =
    b'n' ∷ b'm' ∷ b'b' ∷ b'l' ∷ b':' ∷ b'p' ∷ b'r' ∷ b'i' ∷ b'o' ∷ b'r' ∷ b'i' ∷ b't' ∷ b'y' ∷ b'-'
    ∷ b'f' ∷ b'i' ∷ b'l' ∷ b'e' ∷ b':' ∷ b'v' ∷ b'1' ∷ []

abbrev pub contains_fp : List Bytes → Bytes → Bool
contains_fp allowed f = any (λ a. bytes_eq a f) allowed

-- `iter().filter(p)`
abbrev pub keep_if : (BakedKey → Bool) → List BakedKey → List BakedKey
keep_if p [] = []
keep_if p (k ∷ keys) = let rest = keep_if p keys in if p k then k ∷ rest else rest

module _ (crypto : Crypto) where
  open crypto use {sha256, well_formed, hash_verify}

  abbrev pub domain_tag : Bytes → Bytes
  domain_tag domain = sha256 (domain_tag_prefix ++ domain)

  abbrev fp : Bytes → Bytes
  fp pubkey = sha256 (keyfp_prefix ++ pubkey)

  abbrev pub fingerprint : BakedKey → Bytes
  fingerprint k = fp k.pubkey

  unfoldable pub hash_verify_digest : BakedKey → Bytes → Bytes → Bytes → KeyVerify
  hash_verify_digest k digest sig ctx =
      if length sig == sig_len k.alg
      then (if hash_verify k.alg k.pubkey digest sig ctx then accept else reject)
      else bad_sig_len

  unfoldable pub parse_key : Bytes → AlgId → Verdict BakedKey
  parse_key bytes alg =
      if length bytes == pk_len alg
      then (if well_formed alg bytes
          then ok (record { alg = alg; pubkey = bytes })
          else err baked_key_parse)
      else err baked_key_length

  -- The loop with `?`.
  unfoldable pub parse_key_set : List (Bytes × AlgId) → Verdict (List BakedKey)
  parse_key_set [] = ok []
  parse_key_set ((bytes, alg) ∷ pairs) =
      let rest = parse_key_set pairs in parse_key bytes alg >>= λ k. rest >>= λ ks. ok (k ∷ ks)

  abbrev pub hinted : ℕ → BakedKey → Bool
  hinted key_id k = bytes_eq (take 4 (fingerprint k)) (u32_to_le key_id)

  -- A stable sort by a key of two values.
  unfoldable pub order_by_hint : List BakedKey → ℕ → List BakedKey
  order_by_hint keys key_id =
      keep_if (hinted key_id) keys ++ keep_if (λ k. not (hinted key_id k)) keys

  unfoldable pub resolve_allowed_keys : List BakedKey → List Bytes → List BakedKey
  resolve_allowed_keys baked [] = baked
  resolve_allowed_keys baked (f ∷ allowed) =
      keep_if (λ k. contains_fp (f ∷ allowed) (fingerprint k)) baked

  -- The loop over the ordered keys.
  unfoldable pub try_keys : AlgId → Bytes → Bytes → Bytes → List BakedKey → Verdict (Unit {0})
  try_keys alg digest sig domain [] = err no_valid_key
  try_keys alg digest sig domain (k ∷ keys) =
      let rest = try_keys alg digest sig domain keys in
      if not (alg_eq k.alg alg) then rest else elim (hash_verify_digest k digest sig domain) [
        | accept ↦ ok tt
        | reject ↦ rest
        | bad_sig_len ↦ err internal_siglen
      ]

  unfoldable pub verify_digest : Bytes → Bytes → SigSidecar → List BakedKey → Verdict (Unit {0})
  verify_digest digest domain sidecar keys =
      if not (bytes_eq sidecar.head.domain (domain_tag domain))
      then err domain_mismatch
      else try_keys sidecar.head.alg digest sidecar.signature domain
          (order_by_hint keys sidecar.head.key_id)

  -- `allowed_key_ids`, each as its bytes.
  unfoldable pub allowed_fingerprints : List Bytes → Verdict (List Bytes)
  allowed_fingerprints [] = ok []
  allowed_fingerprints (id ∷ ids) =
      let rest = allowed_fingerprints ids in
      elim (decode_fixed 32 id) [
        | none ↦ err priority_allowed_key_id
        | some f ↦ rest >>= λ fs. ok (f ∷ fs)
      ]

  abbrev pub parsed_sidecar : Parsed → Verdict SigSidecar
  parsed_sidecar (ok c) = ok c
  parsed_sidecar (err e) = err (priority_sidecar_parse e)

  unfoldable pub verify_priority_against :
      List Bytes → Bytes → Bytes → List BakedKey → Verdict (Unit {0})
  verify_priority_against allowed_key_ids digest sig_bytes baked = do
    sidecar ← parsed_sidecar (parse sig_bytes)
    allowed ← allowed_fingerprints allowed_key_ids
    verify_digest digest domain_priority_file sidecar (resolve_allowed_keys baked allowed)
