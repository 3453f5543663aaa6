-- ===== src/Log/Suffix.antt =====
-- The two rings against the whole of what was logged.
use siratis_nmbl_bootloader.Prelude.{
  ℕ, zero, suc, ◌+◌, ◌-◌, ◌≤◌, min, ◌≡◌, refl, sym, ap, subst, ◌∙◌, List, [], ◌∷◌, ◌++◌, append-nil,
  append_assoc, arith, ltb, if_case, u64_max, length, drop, length-append, length-drop, Bytes,
}
use siratis_nmbl_bootloader.Log.ByteRing.{
  byte_ring_capacity, ByteLog, new_byte_log, cut, append, append_line,
}

module _ {A : Type 0} where
  drop-nil : (n : ℕ) → drop {A = A} n [] ≡ []
  drop-nil zero = refl
  drop-nil (suc n) = refl

  pub drop-drop : (m k : ℕ) (xs : List A) → drop m (drop k xs) ≡ drop (k + m) xs
  drop-drop m zero xs = ap (λ n. drop n xs) (omega arith)
  drop-drop m (suc k) [] = drop-nil m ∙ sym (drop-nil (suc k + m))
  drop-drop m (suc k) (x ∷ xs) =
      drop-drop m k xs
      ∙ ap (λ n. drop n (x ∷ xs)) (let e : suc (k + m) ≡ suc k + m = omega arith in e)

  pub drop-append : (k : ℕ) (xs ys : List A) → k ≤ length xs → drop k xs ++ ys ≡ drop k (xs ++ ys)
  drop-append zero xs ys h = refl
  drop-append (suc k) [] ys h = absurd (omega arith)
  drop-append (suc k) (x ∷ xs) ys h = drop-append k xs ys (omega arith)

  -- What is beyond the capacity, dropped in two steps or in one.
  pub drop_window :
      (cap d : ℕ) (xs ys : List A)
      → (length xs - cap) + d ≡ length xs + length ys - cap
      → drop d (drop (length xs - cap) xs ++ ys) ≡ drop (length (xs ++ ys) - cap) (xs ++ ys)
  drop_window cap d xs ys e =
      ap (drop d) (drop-append (length xs - cap) xs ys (omega arith))
      ∙ drop-drop d (length xs - cap) (xs ++ ys)
      ∙ ap (λ n. drop n (xs ++ ys)) (omega (arith, length-append {0} xs ys))

-- The log of a transcript: its last bytes, and how many there were before them.
pub record Views (log : ByteLog) (transcript : Bytes) : Type 0 where
  pub last_bytes : log.buf ≡ drop (length transcript - byte_ring_capacity) transcript
  pub counted : log.dropped_bytes ≡ min (length transcript - byte_ring_capacity) u64_max

length_kept :
    (transcript bytes : Bytes)
    → length (drop (length transcript - byte_ring_capacity) transcript ++ bytes)
      ≡ min (length transcript) byte_ring_capacity + length bytes
length_kept transcript bytes = omega (
  arith,
  length-append {0} (drop (length transcript - byte_ring_capacity) transcript) bytes,
  length-drop {0} (length transcript - byte_ring_capacity) transcript,
)

-- Both branches of the cut.
cut_buf :
    (buf : Bytes) (dropped : ℕ) → (cut buf dropped).buf ≡ drop (length buf - byte_ring_capacity) buf
unfolding cut
cut_buf buf dropped =
    if_case (λ (log : ByteLog). log.buf ≡ drop (length buf - byte_ring_capacity) buf)
      (ltb byte_ring_capacity (length buf)) (λ long. refl)
      (λ short.
        ap (λ n. drop n buf) (let e : 0 ≡ length buf - byte_ring_capacity = ground arith in e))

cut_dropped :
    (buf : Bytes) (dropped : ℕ)
    → dropped ≤ u64_max
    → (cut buf dropped).dropped_bytes ≡ min (dropped + (length buf - byte_ring_capacity)) u64_max
unfolding cut
cut_dropped buf dropped h = ground arith

-- Appending to the log is appending to the transcript.
append-Views :
    (log : ByteLog) (transcript bytes : Bytes)
    → Views log transcript
    → Views (append log bytes) (transcript ++ bytes)
unfolding append
append-Views log transcript bytes v =
    let buf = drop (length transcript - byte_ring_capacity) transcript ++ bytes in
    let same : log.buf ++ bytes ≡ buf = ap (λ b. b ++ bytes) v.last_bytes in
    let d = length buf - byte_ring_capacity in
    record {
      last_bytes =
          cut_buf (log.buf ++ bytes) log.dropped_bytes
          ∙ ap (λ b. drop (length b - byte_ring_capacity) b) same
          ∙ drop_window byte_ring_capacity d transcript bytes
              (omega (arith, length_kept transcript bytes));
      counted =
          cut_dropped (log.buf ++ bytes) log.dropped_bytes (omega arith)
          ∙ ap (λ b. min (log.dropped_bytes + (length b - byte_ring_capacity)) u64_max) same
          ∙ omega (arith, length_kept transcript bytes, length-append {0} transcript bytes);
    }

-- The lines of a boot as bytes, each with its end.
abbrev pub transcript_of : List Bytes → Bytes
transcript_of [] = []
transcript_of (line ∷ lines) = (line ++ (10 ∷ [])) ++ transcript_of lines

abbrev pub append_lines : ByteLog → List Bytes → ByteLog
append_lines log [] = log
append_lines log (line ∷ lines) = append_lines (append_line log line) lines

append_lines-Views :
    (lines : List Bytes) (log : ByteLog) (transcript : Bytes)
    → Views log transcript
    → Views (append_lines log lines) (transcript ++ transcript_of lines)
unfolding append_line
append_lines-Views [] log transcript v = subst (Views log) (sym (append-nil transcript)) v
append_lines-Views (line ∷ lines) log transcript v =
    subst (Views (append_lines (append_line log line) lines))
      (append_assoc transcript (line ++ (10 ∷ [])) (transcript_of lines))
      (append_lines-Views lines (append_line log line) (transcript ++ (line ++ (10 ∷ [])))
        (append-Views log transcript (line ++ (10 ∷ [])) v))

-- After any lines are appended to a new log it holds the last bytes of the whole transcript, as many
-- as the capacity has room for, and counts those before them, up to the end of a u64's range.
pub append_lines-Views_new :
    (lines : List Bytes) → Views (append_lines new_byte_log lines) (transcript_of lines)
append_lines-Views_new lines =
    append_lines-Views lines new_byte_log [] (record { last_bytes = refl; counted = refl })
