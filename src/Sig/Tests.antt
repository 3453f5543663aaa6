-- ===== src/Sig/Tests.antt =====
-- The signature modules at concrete inputs. The toy hash keeps the first bytes and the toy check of
-- a signature wants the key's first byte in front of it.
use siratis_nmbl_bootloader.Prelude.{
  first, later, ℕ, ◌≡◌, refl, ◌↔◌, true, [], ◌∷◌, ◌++◌, arith, ◌==◌, length, get_or, set, take,
  drop, replicate, length-replicate, Bytes,
}
use siratis_nmbl_bootloader.Sig.Alg.{ml_dsa65, sha512, sig_len}
use siratis_nmbl_bootloader.Sig.Wire.{Header, decode, encode, off_reserved, header_len, sidecar_len}
use siratis_nmbl_bootloader.Sig.Sidecar.{SigSidecar, parse}
use siratis_nmbl_bootloader.Sig.RoundTrip.{IsHeader, parse-encode}
use siratis_nmbl_bootloader.Sig.Strictness.{parse-ok, decode-set_reserved}
use siratis_nmbl_bootloader.Sig.Verify.{
  resolve_allowed_keys, allowed_fingerprints, Crypto, BakedKey, ok, domain_tag,
  domain_priority_file, verify_digest, verify_priority_against,
}
use siratis_nmbl_bootloader.Sig.Trust.{HasSigner}
use siratis_nmbl_bootloader.Sig.Acceptance.{
  verify_digest_iff, verify_priority_against-IsAttested, IsAttested,
}

abbrev toy_crypto : Crypto
toy_crypto = record {
  sha256 = λ b. take 32 (b ++ replicate 32 0);
  well_formed = λ alg b. true;
  hash_verify = λ alg key digest sig ctx. get_or key 0 0 == get_or sig 0 1;
}

abbrev toy_signature : Bytes
toy_signature = replicate 3309 9

abbrev head : Header
head = record {
  alg = ml_dsa65;
  hash = sha512;
  key_id = 1000;
  domain = domain_tag toy_crypto domain_priority_file;
}

head-IsHeader : IsHeader head
head-IsHeader = record { key_id_fits = omega arith; domain_size = refl }

abbrev toy_sidecar : SigSidecar
toy_sidecar = record { head = head; signature = toy_signature }

abbrev toy_file : Bytes
toy_file = encode head ++ toy_signature

abbrev trusted : BakedKey
trusted = record { alg = ml_dsa65; pubkey = 9 ∷ 1 ∷ [] }

abbrev other : BakedKey
other = record { alg = ml_dsa65; pubkey = 8 ∷ [] }

parse-encode_example : parse (encode head ++ toy_signature) ≡ ok toy_sidecar
parse-encode_example =
    parse-encode head toy_signature head-IsHeader (length-replicate {A = ℕ} 3309 9)

parse-ok_example :
    (decode toy_file ≡ ok head)
    × (length toy_file ≡ sidecar_len ml_dsa65)
    × (length toy_signature ≡ sig_len ml_dsa65)
    × (drop header_len toy_file ≡ toy_signature)
parse-ok_example = parse-ok toy_file toy_sidecar parse-encode_example

decode-set_reserved_example : decode (set toy_file off_reserved 255) ≡ decode toy_file
decode-set_reserved_example = decode-set_reserved toy_file 255

verify_digest_iff_example :
    (verify_digest toy_crypto (1 ∷ []) domain_priority_file toy_sidecar (other ∷ trusted ∷ [])
      ≡ ok tt)
    ↔ ((head.domain ≡ domain_tag toy_crypto domain_priority_file)
        × HasSigner toy_crypto ml_dsa65
            (1 ∷ [])
            toy_signature
            domain_priority_file
            (other ∷ trusted ∷ []))
verify_digest_iff_example =
    verify_digest_iff toy_crypto (1 ∷ []) domain_priority_file toy_sidecar (other ∷ trusted ∷ [])
      (length-replicate {A = ℕ} 3309 9)

passes : verify_priority_against toy_crypto [] (1 ∷ []) toy_file (other ∷ trusted ∷ []) ≡ ok tt
unfolding verify_priority_against allowed_fingerprints resolve_allowed_keys
passes = rw parse-encode_example (
    verify_digest_iff_example.1 (
      refl,
      (
        trusted,
        later first,
        record { same_alg = refl; width = length-replicate {A = ℕ} 3309 9; verifies = refl },
      ),
    ))

verify_priority_against-IsAttested_example :
    IsAttested toy_crypto [] (1 ∷ []) toy_file (other ∷ trusted ∷ [])
verify_priority_against-IsAttested_example =
    verify_priority_against-IsAttested toy_crypto [] (1 ∷ []) toy_file (other ∷ trusted ∷ []) passes
