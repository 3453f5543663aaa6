-- ===== src/Log/Lines.antt =====
-- The lines that the two rings give back.
use siratis_nmbl_bootloader.Prelude.{
  ℕ, ◌+◌, ◌-◌, ◌≤◌, ◌<◌, min, ◌≡◌, refl, sym, ap, ◌∙◌, ◌≢◌, false, some, List, [], ◌∷◌, ◌++◌,
  append-nil, append_assoc, arith, ◌==◌, if_case, length, drop, length-append, length-drop, Bytes,
  drop_all,
}
use siratis_nmbl_bootloader.Log.Ring.{ring_capacity, ring_push, ring_snapshot}
use siratis_nmbl_bootloader.Log.ByteRing.{
  byte_ring_capacity, new_byte_log, on_split, split_lines, pop_empty, decode_snapshot_lines,
  snapshot_full,
}
use siratis_nmbl_bootloader.Log.Suffix.{
  drop-drop, drop-append, transcript_of, append_lines, append_lines-Views_new,
}

-- A line without an end of line in it.
abbrev pub IsLine : Bytes → Type 0
IsLine [] = Unit
IsLine (c ∷ line) = (c ≢ 10) × IsLine line

abbrev pub AreLines : List Bytes → Type 0
AreLines [] = Unit
AreLines (line ∷ lines) = IsLine line × AreLines lines

split_lines-ne-nil : (text : Bytes) → split_lines text ≢ []
unfolding split_lines
split_lines-ne-nil [] h = cc h
split_lines-ne-nil (c ∷ text) h = on_split-ne-nil c (split_lines text) h
  where
    on_split-ne-nil : (c : ℕ) (pieces : List Bytes) → on_split c pieces ≢ []
    on_split-ne-nil c [] k = ground arith
    on_split-ne-nil c (piece ∷ rest) k = ground arith

split_other :
    (c : ℕ) (line : Bytes) (pieces : List Bytes)
    → c ≢ 10
    → on_split c (line ∷ pieces) ≡ (c ∷ line) ∷ pieces
split_other c line pieces other = ground arith

split_lines-line :
    (line text : Bytes)
    → IsLine line
    → split_lines ((line ++ (10 ∷ [])) ++ text) ≡ line ∷ split_lines text
unfolding split_lines
split_lines-line [] text h = go (split_lines text) refl
  where
    go :
        (pieces : List Bytes)
        → split_lines text ≡ pieces
        → on_split 10 (split_lines text) ≡ [] ∷ split_lines text
    go [] is = absurd (split_lines-ne-nil text is)
    go (piece ∷ rest) is = rw is refl
split_lines-line (c ∷ line) text (other, h) =
    rw (split_lines-line line text h) (split_other c line (split_lines text) other)

pub split_lines-transcript_of :
    (lines : List Bytes) → AreLines lines → split_lines (transcript_of lines) ≡ lines ++ ([] ∷ [])
unfolding split_lines
split_lines-transcript_of [] h = refl
split_lines-transcript_of (line ∷ lines) (h, rest) =
    split_lines-line line (transcript_of lines) h
    ∙ ap (λ l. line ∷ l) (split_lines-transcript_of lines rest)

pop_empty-append : (lines : List Bytes) → pop_empty (lines ++ ([] ∷ [])) ≡ lines
unfolding pop_empty
pop_empty-append [] = refl
pop_empty-append (line ∷ []) = refl
pop_empty-append (line ∷ next ∷ lines) = ap (λ l. line ∷ l) (pop_empty-append (next ∷ lines))

module _ (show : ℕ → Bytes) (from_utf8_lossy : Bytes → Bytes) where
  -- The lines of a boot come back from a new log in their order and unchanged, with no note, if their
  -- text is UTF-8, no line holds an end of line and they fit in the ring.
  pub snapshot_full-append_lines :
      (lines : List Bytes)
      → AreLines lines
      → length (transcript_of lines) ≤ byte_ring_capacity
      → from_utf8_lossy (transcript_of lines) ≡ transcript_of lines
      → snapshot_full show from_utf8_lossy false (some (append_lines new_byte_log lines)) ≡ lines
  unfolding snapshot_full decode_snapshot_lines
  snapshot_full-append_lines lines are fits utf8 =
      let v = append_lines-Views_new lines in
      let whole : (append_lines new_byte_log lines).buf ≡ transcript_of lines =
        v.last_bytes
        ∙ ap (λ n. drop n (transcript_of lines))
            (let e : length (transcript_of lines) - byte_ring_capacity ≡ 0 = omega arith in e) in
      let none_dropped : (append_lines new_byte_log lines).dropped_bytes ≡ 0 = omega arith in
      rw (none_dropped, whole, utf8, split_lines-transcript_of lines are) (pop_empty-append lines)

-- The pushes of some lines.
abbrev pub push_all : List Bytes → List Bytes → List Bytes
push_all ring [] = ring
push_all ring (line ∷ lines) = push_all (ring_push ring line) lines

ring_push-drop :
    (before : List Bytes) (line : Bytes)
    → ring_push (drop (length before - ring_capacity) before) line
      ≡ drop (length (before ++ (line ∷ [])) - ring_capacity) (before ++ (line ∷ []))
unfolding ring_push
ring_push-drop before line =
    let ring = drop (length before - ring_capacity) before in
    let size : length ring ≡ min (length before) ring_capacity =
      omega (arith, length-drop {0} (length before - ring_capacity) before) in
    let grown : length (before ++ (line ∷ [])) ≡ length before + 1 =
      omega (arith, length-append {0} before (line ∷ [])) in
    if_case
      (λ (result : List Bytes).
        result ≡ drop (length (before ++ (line ∷ [])) - ring_capacity) (before ++ (line ∷ [])))
      (length ring == ring_capacity)
      (λ full.
        let many : ring_capacity ≤ length before = ground (arith, size) in
        ap (λ r. r ++ (line ∷ [])) (drop-drop 1 (length before - ring_capacity) before)
        ∙ drop-append (length before - ring_capacity + 1) before (line ∷ []) (omega arith)
        ∙ ap (λ n. drop n (before ++ (line ∷ []))) (omega (arith, grown)))
      (λ room.
        let few : length before < ring_capacity = ground (arith, size) in
        drop-append (length before - ring_capacity) before (line ∷ []) (omega arith)
        ∙ ap (λ n. drop n (before ++ (line ∷ []))) (omega (arith, grown)))

push_all-drop :
    (before lines : List Bytes)
    → push_all (drop (length before - ring_capacity) before) lines
      ≡ drop (length (before ++ lines) - ring_capacity) (before ++ lines)
push_all-drop before [] =
    ap (λ (l : List Bytes). drop (length l - ring_capacity) l) (sym (append-nil before))
push_all-drop before (line ∷ lines) =
    ap (λ ring. push_all ring lines) (ring_push-drop before line)
    ∙ push_all-drop (before ++ (line ∷ [])) lines
    ∙ ap (λ (l : List Bytes). drop (length l - ring_capacity) l)
        (append_assoc before (line ∷ []) lines)

-- A snapshot of n lines, after any lines were pushed to a new ring, is the last n of them in their
-- order; the last 256 if n is larger, and all if there are fewer.
pub ring_snapshot-push_all :
    (lines : List Bytes) (n : ℕ)
    → ring_snapshot (push_all [] lines) n ≡ drop (length lines - min n ring_capacity) lines
unfolding ring_snapshot
ring_snapshot-push_all lines n =
    let ring = drop (length lines - ring_capacity) lines in
    let size : length ring ≡ min (length lines) ring_capacity =
      omega (arith, length-drop {0} (length lines - ring_capacity) lines) in
    ap (λ r. ring_snapshot r n) (push_all-drop [] lines)
    ∙ if_case (λ (result : List Bytes). result ≡ drop (length lines - min n ring_capacity) lines)
        (n == 0)
        (λ none_wanted. sym (drop_all (length lines - min n ring_capacity) lines (ground arith)))
        (λ wanted.
          drop-drop (length ring - min n (length ring)) (length lines - ring_capacity) lines
          ∙ ap (λ k. drop k lines) (omega (arith, size)))
