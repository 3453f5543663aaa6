-- ===== src/Log/ByteRing.antt =====
-- log/byte_ring.rs: the transcript as bytes, of which the last mebibyte is kept. Rust's formatting of a
-- number and `String::from_utf8_lossy` are parameters; text is its UTF-8 bytes.
use siratis_nmbl_bootloader.Prelude.{
  ℕ, ◌-◌, Bool, Option, none, some, List, [], ◌∷◌, ◌++◌, ltb, ◌==◌, if◌then◌else◌, u64_max,
  saturating_add, length, drop, Bytes, codes,
}

abbrev pub byte_ring_capacity : ℕ
byte_ring_capacity = 1048576

pub record ByteLog : Type 0 where
  pub buf : Bytes
  pub dropped_bytes : ℕ

abbrev pub new_byte_log : ByteLog
new_byte_log = record { buf = []; dropped_bytes = 0 }

-- The buffer after `extend`, cut at the front if it is too long.
unfoldable pub cut : Bytes → ℕ → ByteLog
cut buf dropped =
    if ltb byte_ring_capacity (length buf)
    then record {
      buf = drop (length buf - byte_ring_capacity) buf;
      dropped_bytes = saturating_add u64_max dropped (length buf - byte_ring_capacity);
    }
    else record { buf = buf; dropped_bytes = dropped }

unfoldable pub append : ByteLog → Bytes → ByteLog
append log bytes = cut (log.buf ++ bytes) log.dropped_bytes

unfoldable pub append_line : ByteLog → Bytes → ByteLog
append_line log line = append log (line ++ (10 ∷ []))

abbrev log_or_new : Option ByteLog → ByteLog
log_or_new none = new_byte_log
log_or_new (some log) = log

unfoldable pub push_byte_ring : Bool → Option ByteLog → Bytes → Option ByteLog
push_byte_ring locked global line =
    if locked then global else some (append_line (log_or_new global) line)

-- `split('\n')`: the first piece, and the others.
abbrev pub split_step : ℕ → Bytes → List Bytes → List Bytes
split_step c piece rest = if c == 10 then [] ∷ piece ∷ rest else (c ∷ piece) ∷ rest

abbrev pub on_split : ℕ → List Bytes → List Bytes
on_split c [] = (c ∷ []) ∷ []
on_split c (piece ∷ rest) = split_step c piece rest

unfoldable pub split_lines : Bytes → List Bytes
split_lines [] = [] ∷ []
split_lines (c ∷ text) = on_split c (split_lines text)

abbrev kept_last : Bytes → List Bytes
kept_last [] = []
kept_last (c ∷ piece) = (c ∷ piece) ∷ []

-- `pop` of a last line that is empty.
unfoldable pub pop_empty : List Bytes → List Bytes
pop_empty [] = []
pop_empty (line ∷ []) = kept_last line
pop_empty (line ∷ next ∷ lines) = line ∷ pop_empty (next ∷ lines)

module _ (show : ℕ → Bytes) where
  unfoldable pub flush_header : ByteLog → Option Bytes
  flush_header log =
      if ltb 0 log.dropped_bytes
      then some (
          codes "=== nmbl-init: log truncated, earlier "
          ++ (show log.dropped_bytes ++ (codes " bytes dropped ===" ++ (10 ∷ []))))
      else none

  abbrev pub header_text : Option Bytes → Bytes
  header_text none = []
  header_text (some header) = header

  -- What `flush_to` writes, where every write succeeds.
  unfoldable pub flush_contents : Option ByteLog → Bytes
  flush_contents none = []
  flush_contents (some log) = header_text (flush_header log) ++ log.buf

  module _ (from_utf8_lossy : Bytes → Bytes) where
    -- The note starts and ends with the three bytes of an ellipsis.
    abbrev note : ℕ → Bytes
    note dropped =
        226
        ∷ 128
        ∷ 166
        ∷ 32
        ∷ (show dropped ++ (codes " earlier bytes truncated " ++ (226 ∷ 128 ∷ 166 ∷ [])))

    unfoldable pub decode_snapshot_lines : ℕ → Bytes → List Bytes
    decode_snapshot_lines dropped body =
        let lines = pop_empty (split_lines (from_utf8_lossy body)) in
        if ltb 0 dropped then note dropped ∷ lines else lines

    abbrev of_log : Option ByteLog → List Bytes
    of_log none = []
    of_log (some log) = decode_snapshot_lines log.dropped_bytes log.buf

    unfoldable pub snapshot_full : Bool → Option ByteLog → List Bytes
    snapshot_full poisoned global = if poisoned then [] else of_log global
