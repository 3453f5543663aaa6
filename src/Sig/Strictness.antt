-- ===== src/Sig/Strictness.antt =====
-- What a parsed sidecar is known to be, and the one byte that sig/wire.rs does not look at.
use siratis_nmbl_bootloader.Prelude.{
  ok, err, ℕ, ◌≤◌, ◌<◌, ◌≡◌, refl, sym, ap, inl, inr, Bool, true, false, none, some, [], ◌∷◌, arith,
  leb, if◌then◌else◌, Bool-cases, length, set, take, drop, length-drop, take_all, Bytes,
}
use siratis_nmbl_bootloader.Sig.Alg.{sig_len}
use siratis_nmbl_bootloader.Sig.Wire.{
  Header, Decoded, too_short, decode, header_len, sidecar_len, off_reserved,
}
use siratis_nmbl_bootloader.Sig.Sidecar.{SigSidecar, parse, parse_header, carve}

-- What `carve` accepted: one signature and nothing behind it.
record Carved (buf : Bytes) (c : SigSidecar) : Type 0 where
  whole : length buf ≡ sidecar_len c.head.alg
  width : length c.signature ≡ sig_len c.head.alg
  tail : drop header_len buf ≡ c.signature

rest_nil : (n : ℕ) (rest : Bytes) → drop n rest ≡ [] → n ≤ length rest → length rest ≡ n
rest_nil n rest h le = omega (arith, length-drop n rest, ap (length {0}) h)

carve-Carved :
    (buf : Bytes) (h : Header) (c : SigSidecar) (front rest tail : Bytes)
    → rest ≡ drop header_len buf
    → header_len ≤ length buf
    → sig_len h.alg ≤ length rest
    → drop (sig_len h.alg) rest ≡ tail
    → carve h (length buf) (some (take (sig_len h.alg) rest, tail)) ≡ ok c
    → Carved buf c × (c.head ≡ h)
carve-Carved buf h c front rest (x ∷ tail) e le w t p = absurd (cc)
carve-Carved buf h c front rest [] e le w t p =
    let size : length rest ≡ sig_len h.alg = rest_nil (sig_len h.alg) rest t w in
    let same : c ≡ record { head = h; signature = take (sig_len h.alg) rest } = ground arith in
    rw same (
      record {
        whole = omega (arith, size, length-drop header_len buf, ap (length {0}) e);
        width = rw (take_all (sig_len h.alg) rest (omega (arith, size))) size;
        tail = rw (take_all (sig_len h.alg) rest (omega (arith, size))) (sym e);
      },
      refl,
    )

parse_long :
    (buf : Bytes) (h : Header) (c : SigSidecar)
    → header_len ≤ length buf
    → (fits : Bool) → leb (sig_len h.alg) (length (drop header_len buf)) ≡ fits
    → carve h (length buf) (
        if fits
        then some
            (take (sig_len h.alg) (drop header_len buf), drop (sig_len h.alg) (drop header_len buf))
        else none)
      ≡ ok c
    → Carved buf c × (c.head ≡ h)
parse_long buf h c le false b p = absurd (cc)
parse_long buf h c le true b p =
    carve-Carved buf h c [] (drop header_len buf) (drop (sig_len h.alg) (drop header_len buf)) refl
      le (ground arith) refl p

parse_decoded :
    (buf : Bytes) (r : Decoded Header) (c : SigSidecar)
    → (long : Bool) → leb header_len (length buf) ≡ long
    → parse_header buf r ≡ ok c
    → Carved buf c × (r ≡ ok c.head)
parse_decoded buf (err e) c long b p = absurd (cc)
parse_decoded buf (ok h) c false b p = absurd (ground arith)
parse_decoded buf (ok h) c true b p =
    let (carved, same) =
      parse_long buf h c (ground arith) (leb (sig_len h.alg) (length (drop header_len buf))) refl
        (rw b at p) in
    (carved, ap ok (sym same))

-- A buffer that parses is exactly one header, which decodes, and one signature of the width of that
-- header's algorithm, which is all that follows the header.
pub parse-ok :
    (buf : Bytes) (c : SigSidecar)
    → parse buf ≡ ok c
    → (decode buf ≡ ok c.head)
      × (length buf ≡ sidecar_len c.head.alg)
      × (length c.signature ≡ sig_len c.head.alg)
      × (drop header_len buf ≡ c.signature)
unfolding parse
parse-ok buf c p =
    let (carved, same) = parse_decoded buf (decode buf) c (leb header_len (length buf)) refl p in
    (same, carved.whole, carved.width, carved.tail)

-- The reserved byte of a header is not looked at: any value there gives the same result.
pub decode-set_reserved : (buf : Bytes) (r : ℕ) → decode (set buf off_reserved r) ≡ decode buf
unfolding decode
decode-set_reserved [] r = refl
decode-set_reserved (b0 ∷ b1 ∷ b2 ∷ b3 ∷ b4 ∷ b5 ∷ b6 ∷ b7 ∷ b8 ∷ b9 ∷ b10 ∷ b11 ∷ rest) r =
    elim (Bool-cases (
      leb header_len
        (length (b0 ∷ b1 ∷ b2 ∷ b3 ∷ b4 ∷ b5 ∷ b6 ∷ b7 ∷ b8 ∷ b9 ∷ b10 ∷ b11 ∷ rest)))) [
          | inl long ↦ rw long refl
          | inr short ↦ rw short refl
        ]
decode-set_reserved buf r = refl

-- A buffer shorter than a header is refused as such.
decode_short : (buf : Bytes) → length buf < header_len → decode buf ≡ err too_short
unfolding decode
decode_short buf h = ground arith
