-- ===== src/Log/Tests.antt =====
-- The log modules at concrete inputs.
use siratis_nmbl_bootloader.Prelude.{
  ◌≡◌, refl, true, false, none, some, List, [], ◌∷◌, ◌++◌, arith, Bytes, codes,
}
use siratis_nmbl_bootloader.Log.Ring.{ring_snapshot, push_ring, snapshot_tail}
use siratis_nmbl_bootloader.Log.ByteRing.{
  new_byte_log, push_byte_ring, split_lines, pop_empty, flush_header, flush_contents,
  decode_snapshot_lines, snapshot_full,
}
use siratis_nmbl_bootloader.Log.Suffix.{Views, transcript_of, append_lines, append_lines-Views_new}
use siratis_nmbl_bootloader.Log.Lines.{
  AreLines, snapshot_full-append_lines, push_all, ring_snapshot-push_all,
}

abbrev two_lines : List Bytes
two_lines = codes "mount" ∷ [] ∷ []

two_lines-AreLines : AreLines two_lines
two_lines-AreLines = omega arith

append_lines-Views_new_example :
    Views (append_lines new_byte_log two_lines) (transcript_of two_lines)
append_lines-Views_new_example = append_lines-Views_new two_lines

snapshot_full-append_lines_example :
    snapshot_full (λ n. codes "1") (λ text. text) false (some (append_lines new_byte_log two_lines))
    ≡ two_lines
snapshot_full-append_lines_example =
    snapshot_full-append_lines (λ n. codes "1") (λ text. text) two_lines two_lines-AreLines
      (omega arith) refl

ring_snapshot-push_all_example : ring_snapshot (push_all [] two_lines) 1 ≡ [] ∷ []
ring_snapshot-push_all_example = ring_snapshot-push_all two_lines 1

-- A line that was cut at the front of the ring is given back without its beginning.
half_line :
    decode_snapshot_lines (λ n. codes "4") (λ text. text) 4 (codes "nt" ++ (10 ∷ b'x' ∷ 10 ∷ []))
    ≡ (226
        ∷ 128
        ∷ 166
        ∷ 32
        ∷ (codes "4" ++ (codes " earlier bytes truncated " ++ (226 ∷ 128 ∷ 166 ∷ []))))
      ∷ codes "nt"
      ∷ (b'x' ∷ [])
      ∷ []
unfolding decode_snapshot_lines pop_empty split_lines
half_line = refl

flushed :
    flush_contents (λ n. codes "4") (some (record { buf = codes "x"; dropped_bytes = 4 }))
    ≡ codes "=== nmbl-init: log truncated, earlier 4 bytes dropped ===" ++ (10 ∷ b'x' ∷ [])
unfolding flush_contents flush_header
flushed = refl

-- A push that finds the lock taken changes nothing.
lost_pushes :
    (push_byte_ring true none (codes "a") ≡ none)
    × (push_ring true (some two_lines) (codes "a") ≡ some two_lines)
    × (snapshot_tail true (some two_lines) 3 ≡ [])
unfolding push_byte_ring push_ring snapshot_tail
lost_pushes = (refl, refl, refl)
