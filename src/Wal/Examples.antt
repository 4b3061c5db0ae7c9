-- ===== src/Wal/Examples.antt =====
-- Two concrete ways to read a file, and runs of the log on them.
use nutdb.Prelude.{◌≡◌, refl, ◌++◌, true, false, some, List, [], ◌∷◌, arith, min, length, take}
use nutdb.Bytes.{Bytes, to_le_bytes}
use nutdb.Wal.{Wal, Source, frame, append, full, read_exact_or_eof, replay}
use nutdb.Wal.Read.{read_exact_or_eof_lem}
use nutdb.Wal.Replay.{log, replay-log}
use nutdb.Wal.Recovery.{Recovered, replay-Recovered}
use nutdb.Wal.Repair.{replay_after_crash, replay-append-repaired, repaired, whole, cut-IsTorn}

-- Every read delivers all that it can.
abbrev pub whole_reads : Source
whole_reads = record {
  grant = λ room left. min room left;
  grant_pos = λ room left h k. omega (arith, h, k);
  grant_room = λ room left. omega arith;
  grant_left = λ room left. omega arith;
}

-- Every read delivers one byte.
abbrev byte_reads : Source
byte_reads = record {
  grant = λ room left. min 1 (min room left);
  grant_pos = λ room left h k. omega (arith, h, k);
  grant_room = λ room left. omega arith;
  grant_left = λ room left. omega arith;
}

abbrev two_records : List Bytes
two_records = (97 ∷ 98 ∷ []) ∷ (99 ∷ []) ∷ []

read_exact_or_eof_lem_example :
    read_exact_or_eof byte_reads 2 (7 ∷ 8 ∷ 9 ∷ []) ≡ (full, 7 ∷ 8 ∷ [], 9 ∷ [])
read_exact_or_eof_lem_example = read_exact_or_eof_lem byte_reads 2 (7 ∷ 8 ∷ 9 ∷ [])

-- The second record is cut.
replay_after_crash_example :
    replay byte_reads (some (take 13 (log two_records)))
    ≡ record { records = (97 ∷ 98 ∷ []) ∷ []; truncated = true; valid_bytes = 10 }
unfolding log frame whole to_le_bytes
replay_after_crash_example =
    replay_after_crash byte_reads 13 two_records (omega arith, (omega arith, tt))
      ((omega arith, (omega arith, tt)), ((omega arith, tt), tt)) (omega arith)

-- The tail is read as a header that was cut.
replay-log_example :
    replay byte_reads (some (log two_records ++ 0 ∷ 0 ∷ []))
    ≡ record { records = two_records; truncated = true; valid_bytes = 19 }
unfolding log frame to_le_bytes
replay-log_example =
    replay-log byte_reads two_records (0 ∷ 0 ∷ []) (omega arith, (omega arith, tt))
      (omega arith, (omega arith, tt)) (cut-IsTorn 2 [] (omega arith) (omega arith))

-- A file that is no log.
replay-Recovered_example : Recovered (9 ∷ 0 ∷ 0 ∷ []) (replay byte_reads (some (9 ∷ 0 ∷ 0 ∷ [])))
replay-Recovered_example =
    replay-Recovered byte_reads (9 ∷ 0 ∷ 0 ∷ []) (omega arith, (omega arith, (omega arith, tt)))

abbrev damaged : Wal
damaged = record { file = 9 ∷ 0 ∷ 0 ∷ []; synced = 3 }

replay-append-repaired_example :
    replay byte_reads (some ((repaired byte_reads damaged).file ++ frame (5 ∷ []))) ≡ record {
      records = (replay byte_reads (some damaged.file)).records ++ (5 ∷ []) ∷ [];
      truncated = false;
      valid_bytes = length ((repaired byte_reads damaged).file ++ frame (5 ∷ []));
    }
unfolding append
replay-append-repaired_example =
    replay-append-repaired byte_reads damaged (5 ∷ [])
      (record (repaired byte_reads damaged) {
        file = (repaired byte_reads damaged).file ++ frame (5 ∷ []);
      })
      (omega arith, (omega arith, (omega arith, tt))) refl
