-- ===== src/Sig/Sidecar.antt =====
-- sig/sidecar.rs: a parsed sidecar, its header and exactly one signature.
use siratis_nmbl_bootloader.Prelude.{
  Outcome, ok, err, ℕ, Option, none, some, [], ◌∷◌, length, Bytes, split_at_checked,
}
use siratis_nmbl_bootloader.Sig.Alg.{sig_len}
use siratis_nmbl_bootloader.Sig.Wire.{Header, DecodeError, Decoded, decode, header_len, sidecar_len}

pub data SidecarError : Type 0 where
  header : DecodeError → SidecarError
  signature_truncated : ℕ → ℕ → SidecarError
  trailing_bytes : ℕ → ℕ → SidecarError

pub record SigSidecar : Type 0 where
  pub head : Header
  pub signature : Bytes

abbrev pub Parsed : Type 0
Parsed = Outcome SidecarError SigSidecar

-- The `match rest.split_at_checked(sig_len)`.
abbrev pub carve : Header → ℕ → Option (Bytes × Bytes) → Parsed
carve h actual none = err (signature_truncated (sidecar_len h.alg) actual)
carve h actual (some (sig, [])) = ok (record { head = h; signature = sig })
carve h actual (some (sig, x ∷ rest)) = err (trailing_bytes (sidecar_len h.alg) actual)

abbrev parse_rest : Bytes → Header → Option (Bytes × Bytes) → Parsed
parse_rest buf h none = err (signature_truncated (sidecar_len h.alg) (length buf))
parse_rest buf h (some (front, rest)) = carve h (length buf) (split_at_checked (sig_len h.alg) rest)

abbrev pub parse_header : Bytes → Decoded Header → Parsed
parse_header buf (err e) = err (header e)
parse_header buf (ok h) = parse_rest buf h (split_at_checked header_len buf)

unfoldable pub parse : Bytes → Parsed
parse buf = parse_header buf (decode buf)
