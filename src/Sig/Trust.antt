-- ===== src/Sig/Trust.antt =====
-- The keys that the loop of sig/verify.rs goes through, and a key that accepts.
use siratis_nmbl_bootloader.Prelude.{
  Mem, first, later, Mem-append, Mem-append_left, Mem-append_right, ℕ, ◌≡◌, refl, ap, inl, inr,
  Bool, true, false, not, List, [], ◌∷◌, arith, if◌then◌else◌, Bool-cases, length, Bytes,
}
use siratis_nmbl_bootloader.Sig.Alg.{AlgId, alg_eq, sig_len, ml_dsa65, ml_dsa87}
use siratis_nmbl_bootloader.Sig.Verify.{
  Crypto, KeyVerify, accept, reject, bad_sig_len, BakedKey, internal_siglen, ok, err,
  hash_verify_digest, hinted, keep_if, order_by_hint, try_keys,
}

mem_kept :
    {k : BakedKey} (p : BakedKey → Bool) (keys rest : List BakedKey) (j : BakedKey)
    → p j ≡ true
    → (Mem k rest → Mem k keys × (p k ≡ true))
    → Mem k (j ∷ rest)
    → Mem k (j ∷ keys) × (p k ≡ true)
mem_kept p keys rest j e ih first = (first, e)
mem_kept p keys rest j e ih (later n) = let (a, b) = ih n in (later a, b)

pub Mem-keep_if :
    {k : BakedKey} (p : BakedKey → Bool) (keys : List BakedKey)
    → Mem k (keep_if p keys)
    → Mem k keys × (p k ≡ true)
Mem-keep_if p [] m = elim m [ ]
Mem-keep_if {k = k} p (j ∷ keys) m = go (p j) refl (λ n. Mem-keep_if p keys n) m
  where
    go :
        (b : Bool)
        → p j ≡ b
        → (Mem k (keep_if p keys) → Mem k keys × (p k ≡ true))
        → Mem k (if b then j ∷ keep_if p keys else keep_if p keys)
        → Mem k (j ∷ keys) × (p k ≡ true)
    go true e ih n = mem_kept p keys (keep_if p keys) j e ih n
    go false e ih n = let (a, b) = ih n in (later a, b)

keep_if-Mem :
    {k : BakedKey} (p : BakedKey → Bool) {keys : List BakedKey}
    → p k ≡ true
    → Mem k keys
    → Mem k (keep_if p keys)
keep_if-Mem p e (first {xs = keys}) = rw e first
keep_if-Mem {k = k} p e (later {x = j} {xs = keys} m) = go (p j) (keep_if-Mem p e m)
  where
    go :
        (b : Bool)
        → Mem k (keep_if p keys)
        → Mem k (if b then j ∷ keep_if p keys else keep_if p keys)
    go true n = later n
    go false n = n

module _ (crypto : Crypto) where
  pub order-Mem :
      {k : BakedKey} (keys : List BakedKey) (key_id : ℕ)
      → Mem k (order_by_hint crypto keys key_id)
      → Mem k keys
  unfolding order_by_hint
  order-Mem keys key_id m =
      elim (Mem-append (keep_if (hinted crypto key_id) keys)
        (keep_if (λ j. not (hinted crypto key_id j)) keys) m) [
          | inl a ↦ (Mem-keep_if (hinted crypto key_id) keys a).0
          | inr b ↦ (Mem-keep_if (λ j. not (hinted crypto key_id j)) keys b).0
        ]

  pub Mem-order :
      {k : BakedKey} (keys : List BakedKey) (key_id : ℕ)
      → Mem k keys
      → Mem k (order_by_hint crypto keys key_id)
  unfolding order_by_hint
  Mem-order {k = k} keys key_id m = elim (Bool-cases (hinted crypto key_id k)) [
    | inl h ↦
        Mem-append_left (keep_if (λ j. not (hinted crypto key_id j)) keys)
          (keep_if-Mem (hinted crypto key_id) h m)
    | inr h ↦
        Mem-append_right (keep_if (hinted crypto key_id) keys)
          (keep_if-Mem (λ j. not (hinted crypto key_id j)) (ap not h) m)
  ]

  -- A key that accepts the signature under the domain.
  pub record IsSigner (k : BakedKey) (alg : AlgId) (digest sig domain : Bytes) : Type 0 where
    pub same_alg : k.alg ≡ alg
    pub width : length sig ≡ sig_len k.alg
    pub verifies : crypto.hash_verify k.alg k.pubkey digest sig domain ≡ true

  alg_eq→eq : (a b : AlgId) → alg_eq a b ≡ true → a ≡ b
  alg_eq→eq ml_dsa65 ml_dsa65 h = refl
  alg_eq→eq ml_dsa65 ml_dsa87 h = cc
  alg_eq→eq ml_dsa87 ml_dsa65 h = cc
  alg_eq→eq ml_dsa87 ml_dsa87 h = refl

  pub alg_eq_refl : (a : AlgId) → alg_eq a a ≡ true
  alg_eq_refl ml_dsa65 = refl
  alg_eq_refl ml_dsa87 = refl

  accept-IsSigner :
      (k : BakedKey) (alg : AlgId) (digest sig domain : Bytes)
      → alg_eq k.alg alg ≡ true
      → hash_verify_digest crypto k digest sig domain ≡ accept
      → IsSigner k alg digest sig domain
  unfolding hash_verify_digest
  accept-IsSigner k alg digest sig domain a h = record {
    same_alg = alg_eq→eq k.alg alg a;
    width = ground arith;
    verifies = ground arith;
  }

  pub IsSigner-accept :
      (k : BakedKey) (alg : AlgId) (digest sig domain : Bytes)
      → IsSigner k alg digest sig domain
      → hash_verify_digest crypto k digest sig domain ≡ accept
  unfolding hash_verify_digest
  IsSigner-accept k alg digest sig domain s = ground (arith, s.width, s.verifies)

  abbrev pub HasSigner : AlgId → Bytes → Bytes → Bytes → List BakedKey → Type 0
  HasSigner alg digest sig domain keys =
      (k : BakedKey) × Mem k keys × IsSigner k alg digest sig domain

  pub try_keys-ok :
      (alg : AlgId) (digest sig domain : Bytes) (keys : List BakedKey)
      → try_keys crypto alg digest sig domain keys ≡ ok tt
      → HasSigner alg digest sig domain keys
  unfolding try_keys
  try_keys-ok alg digest sig domain [] h = absurd (cc)
  try_keys-ok alg digest sig domain (k ∷ keys) h =
      go (alg_eq k.alg alg) refl (hash_verify_digest crypto k digest sig domain) refl
        (λ e. try_keys-ok alg digest sig domain keys e) h
    where
      go :
          (b : Bool)
          → alg_eq k.alg alg ≡ b
          → (v : KeyVerify) → hash_verify_digest crypto k digest sig domain ≡ v
          → (try_keys crypto alg digest sig domain keys ≡ ok tt
              → HasSigner alg digest sig domain keys)
          → (if not b then try_keys crypto alg digest sig domain keys else elim v [
            | accept ↦ ok tt
            | reject ↦ try_keys crypto alg digest sig domain keys
            | bad_sig_len ↦ err internal_siglen
          ])
            ≡ ok tt
          → HasSigner alg digest sig domain (k ∷ keys)
      go false a v e ih p = let (j, m, s) = ih p in (j, later m, s)
      go true a accept e ih p = (k, first, accept-IsSigner k alg digest sig domain a e)
      go true a reject e ih p = let (j, m, s) = ih p in (j, later m, s)
      go true a bad_sig_len e ih p = absurd (cc)
