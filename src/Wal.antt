-- ===== src/Wal.antt =====
-- src/wal.rs: the write-ahead log. A log file is its bytes and how many of them are durable.
-- Failures of the operating system are not modelled; a file that grew by `append` and was not
-- synced may lose any tail of the unsynced part in a crash.
pub mod Read
pub mod Replay
pub mod Recovery
pub mod Repair
pub mod Examples
use nutdb.Prelude.{
  ℕ, zero, suc, ◌+◌, ◌-◌, ◌*◌, ◌^◌, ◌≤◌, ◌<◌, ◌≡◌, refl, Bool, true, false, Option, none, some,
  List, [], ◌∷◌, ◌++◌, arith, ltb, leb, ◌==◌, if◌then◌else◌, length, take, drop, replicate,
}
use nutdb.Prelude.Io.{Result, ok, input}
use nutdb.Bytes.{Bytes, to_le_bytes, from_le_bytes}
use nutdb.Crc.{crc32}

abbrev pub header_len : ℕ
header_len = 8

pub record Wal : Type 0 where
  pub file : Bytes
  pub synced : ℕ

-- The record that `append` writes: length, checksum, payload.
unfoldable pub frame : Bytes → Bytes
frame payload = to_le_bytes 4 (length payload) ++ (to_le_bytes 4 (crc32 payload) ++ payload)

unfoldable pub append : Bytes → Wal → Result Wal
append payload wal =
    if ltb (length payload) (2 ^ 32)
    then ok (record wal { file = wal.file ++ frame payload })
    else input "wal: record exceeds 4 GiB"

unfoldable pub sync : Wal → Wal
sync wal = record wal { synced = length wal.file }

unfoldable pub reset : Wal → Wal
reset wal = record { file = []; synced = 0 }

-- `set_len` cuts a file, or fills it up with zeros; `sync_all` follows.
unfoldable pub truncate_path : ℕ → Wal → Wal
truncate_path valid_bytes wal =
    let file = take valid_bytes wal.file ++ replicate (valid_bytes - length wal.file) 0 in
    record { file = file; synced = length file }

unfoldable pub size : Wal → ℕ
size wal = length wal.file

-- One call of `Read::read`: how many bytes it delivers, by the room in the buffer and the bytes
-- that are left. It may deliver fewer than asked, and delivers none only if there is no room or
-- nothing left.
pub record Source : Type 0 where
  pub grant : ℕ → ℕ → ℕ
  pub grant_pos : (room left : ℕ) → 0 < room → 0 < left → 0 < grant room left
  pub grant_room : (room left : ℕ) → grant room left ≤ room
  pub grant_left : (room left : ℕ) → grant room left ≤ left

pub data ReadOutcome : Type 0 where
  full partial eof : ReadOutcome

-- The loop of `read_exact_or_eof`: the bytes read so far, and what is left of the file. Each
-- round but the last reads a byte, so `want` rounds are enough.
unfoldable pub fill : Source → ℕ → ℕ → Bytes → Bytes → Bytes × Bytes
fill src zero want filled left = (filled, left)
fill src (suc fuel) want filled left =
    let n = src.grant (want - length filled) (length left) in
    let more = fill src fuel want (filled ++ take n left) (drop n left) in
    if ltb (length filled) want then (if n == 0 then (filled, left) else more) else (filled, left)

-- The outcome, the filled part of the buffer, and what is left of the file.
unfoldable pub read_exact_or_eof : Source → ℕ → Bytes → ReadOutcome × Bytes × Bytes
read_exact_or_eof src want left =
    if want == 0
    then (full, [], left)
    else let (buf, left') = fill src want want [] left in
      (if length buf == 0 then eof else if length buf == want then full else partial, buf, left')

pub record ReplayResult : Type 0 where
  pub records : List Bytes
  pub truncated : Bool
  pub valid_bytes : ℕ

-- What one round of the loop of `replay` finds: the end, with the flag `truncated`, or a record.
pub data Round : Type 0 where
  stop : Bool → Round
  intact : Bytes → Bytes → Round

payload_round : ReadOutcome × Bytes × Bytes → ℕ → Round
payload_round (full, payload, left) expected_crc =
    if crc32 payload == expected_crc then intact payload left else stop true
payload_round (partial, payload, left) expected_crc = stop true
payload_round (eof, payload, left) expected_crc = stop true

header_round : Source → ℕ → ReadOutcome × Bytes × Bytes → Round
unfolding payload_round
header_round src room (eof, header, left) = stop false
header_round src room (partial, header, left) = stop true
header_round src room (full, header, left) =
    let len = from_le_bytes (take 4 header) in
    if ltb room len
    then stop true
    else payload_round (read_exact_or_eof src len left) (from_le_bytes (drop 4 header))

-- `room` is `file_len.saturating_sub(valid_bytes + HEADER_LEN)`.
unfoldable pub round : Source → ℕ → ℕ → Bytes → Round
unfolding header_round
round src file_len valid_bytes left =
    header_round src (file_len - (valid_bytes + header_len)) (read_exact_or_eof src header_len left)

unfoldable pub replay_loop : Source → ℕ → ℕ → Bytes → List Bytes → ℕ → ReplayResult
replay_loop src zero file_len left records valid_bytes = record {
  records = records;
  truncated = false;
  valid_bytes = valid_bytes;
}
replay_loop src (suc fuel) file_len left records valid_bytes =
    elim (round src file_len valid_bytes left) [
      | stop truncated ↦ record {
        records = records;
        truncated = truncated;
        valid_bytes = valid_bytes;
      }
      | intact payload left' ↦
          replay_loop src fuel file_len left' (records ++ payload ∷ [])
            (valid_bytes + (header_len + length payload))
    ]

-- A missing file replays as an empty log. Each round but the last reads a header, so as many
-- rounds as bytes, and one more, are enough.
unfoldable pub replay : Source → Option Bytes → ReplayResult
unfolding replay_loop
replay src none = record { records = []; truncated = false; valid_bytes = 0 }
replay src (some file) = replay_loop src (suc (length file)) (length file) file [] 0
