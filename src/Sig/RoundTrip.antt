-- ===== src/Sig/RoundTrip.antt =====
-- The signer's side and the verifier's side of sig/wire.rs and sig/sidecar.rs together.
use siratis_nmbl_bootloader.Prelude.{
  ok, ℕ, ◌/◌, ◌%◌, ◌<◌, ◌≡◌, refl, sym, ap, true, some, [], ◌∷◌, ◌++◌, append-nil, arith, leb,
  length, take, drop, length-append, take_all, take-length-append, drop-length-append, Bytes,
  split_at_checked,
}
use siratis_nmbl_bootloader.Sig.Alg.{
  AlgId, HashId, ml_dsa65, ml_dsa87, sha512, sig_len, alg_to_u8, alg_from_u8, hash_to_u8,
  hash_from_u8,
}
use siratis_nmbl_bootloader.Sig.Wire.{Header, decode, encode, header_len, domain_len}
use siratis_nmbl_bootloader.Sig.Sidecar.{parse}

-- The widths of the header's fields.
pub record IsHeader (h : Header) : Type 0 where
  pub key_id_fits : h.key_id < 4294967296
  pub domain_size : length h.domain ≡ domain_len

-- The first sixteen bytes, which the fixed fields determine.
abbrev fixed_part : Header → Bytes → Bytes
fixed_part h rest =
    b'N'
    ∷ b'M'
    ∷ b'B'
    ∷ b'L'
    ∷ b'S'
    ∷ b'I'
    ∷ b'G'
    ∷ b'1'
    ∷ 1
    ∷ alg_to_u8 h.alg
    ∷ hash_to_u8 h.hash
    ∷ 0
    ∷ h.key_id % 256
    ∷ h.key_id / 256 % 256
    ∷ h.key_id / 65536 % 256
    ∷ h.key_id / 16777216 % 256
    ∷ rest

encode_lem : (h : Header) → encode h ≡ fixed_part h (h.domain ++ [])
unfolding encode
encode_lem h = refl

alg_round : (a : AlgId) → alg_from_u8 (alg_to_u8 a) ≡ some a
alg_round ml_dsa65 = refl
alg_round ml_dsa87 = refl

hash_round : (a : HashId) → hash_from_u8 (hash_to_u8 a) ≡ some a
hash_round sha512 = refl

take_domain : (domain rest : Bytes) → length domain ≡ domain_len → take 32 (domain ++ rest) ≡ domain
take_domain domain rest h = rw (← h) (take-length-append domain rest)

abbrev header_of : AlgId → ℕ → Bytes → Header
header_of alg key_id domain = record { alg = alg; hash = sha512; key_id = key_id; domain = domain }

long_enough :
    (h : Header) (rest : Bytes)
    → length h.domain ≡ domain_len
    → leb header_len (length (fixed_part h (h.domain ++ rest))) ≡ true
long_enough h rest d = ground (arith, length-append h.domain rest)

-- The header's fields read back, one algorithm at a time.
decode_parts :
    (alg : AlgId) (key_id : ℕ) (domain rest : Bytes)
    → key_id < 4294967296
    → length domain ≡ domain_len
    → decode (fixed_part (header_of alg key_id domain) (domain ++ rest))
      ≡ ok (header_of alg key_id domain)
unfolding decode
decode_parts ml_dsa65 key_id domain rest k d =
    rw (long_enough (header_of ml_dsa65 key_id domain) rest d, take_domain domain rest d, d)
      (rw (take_all 32 domain (omega (arith, d)))
        (ap (λ n. ok (header_of ml_dsa65 n domain)) (omega arith)))
decode_parts ml_dsa87 key_id domain rest k d =
    rw (long_enough (header_of ml_dsa87 key_id domain) rest d, take_domain domain rest d, d)
      (rw (take_all 32 domain (omega (arith, d)))
        (ap (λ n. ok (header_of ml_dsa87 n domain)) (omega arith)))

decode-fixed_part :
    (h : Header) (rest : Bytes) → IsHeader h → decode (fixed_part h (h.domain ++ rest)) ≡ ok h
decode-fixed_part h rest v = with_hash h.hash refl
  where
    with_hash : (x : HashId) → h.hash ≡ x → decode (fixed_part h (h.domain ++ rest)) ≡ ok h
    with_hash sha512 e =
        rw e (decode_parts h.alg h.key_id h.domain rest v.key_id_fits v.domain_size)

encode-append : (h : Header) (rest : Bytes) → encode h ++ rest ≡ fixed_part h (h.domain ++ rest)
encode-append h rest = rw (encode_lem h, append-nil h.domain) refl

-- A header with fields of the right width is decoded from its encoding, whatever follows it.
pub decode-encode : (h : Header) (rest : Bytes) → IsHeader h → decode (encode h ++ rest) ≡ ok h
decode-encode h rest v = rw (encode-append h rest) (decode-fixed_part h rest v)

drop_domain : (domain rest : Bytes) → length domain ≡ domain_len → drop 32 (domain ++ rest) ≡ rest
drop_domain domain rest h = rw (← h) (drop-length-append domain rest)

drop_all : (sig : Bytes) → drop (length sig) sig ≡ []
drop_all [] = refl
drop_all (x ∷ sig) = drop_all sig

split_rest :
    (h : Header) (rest : Bytes)
    → length h.domain ≡ domain_len
    → split_at_checked header_len (fixed_part h (h.domain ++ rest))
      ≡ some (fixed_part h h.domain, rest)
split_rest h rest d =
    rw (long_enough h rest d, take_domain h.domain rest d)
      (ap (λ r. some (fixed_part h h.domain, r)) (drop_domain h.domain rest d))

split_exact : (n : ℕ) (sig : Bytes) → length sig ≡ n → split_at_checked n sig ≡ some (sig, [])
split_exact n sig h =
    rw (take_all n sig (omega (arith, h)), sym h) (rw (drop_all sig) (ground arith))

-- A header with fields of the right width and one signature of the algorithm's width, one after the
-- other, parse to both.
pub parse-encode :
    (h : Header) (sig : Bytes)
    → IsHeader h
    → length sig ≡ sig_len h.alg
    → parse (encode h ++ sig) ≡ ok (record { head = h; signature = sig })
unfolding parse
parse-encode h sig v size = rw (
  decode-encode h sig v,
  encode-append h sig,
  split_rest h sig v.domain_size,
  split_exact (sig_len h.alg) sig size,
)
