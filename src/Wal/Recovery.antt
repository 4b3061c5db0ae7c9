-- ===== src/Wal/Recovery.antt =====
-- Recovery of a log of src/wal.rs from any file, from a torn write, and after its repair.
use mathlib.Core.Path.{subst}
use nutdb.Prelude.{
  ℕ, zero, suc, ◌^◌, ◌<◌, ◌≡◌, refl, sym, some, ap, ◌∙◌, List, [], ◌∷◌, ◌++◌, arith, length, drop,
  All, drop-append, All-drop,
}
use nutdb.Bytes.{Bytes, IsByte}
use nutdb.Wal.{Source, frame, replay, ReplayResult, Round, stop, intact}
use nutdb.Wal.Replay.{
  plain_round, plain_round_sound, stop-IsTorn, IsTorn, nonempty, log, replay-log,
  length-frame_append, log_split,
}

abbrev pub Fits : Bytes → Type 0
Fits p = length p < 2 ^ 32

-- A file, taken apart into the frames that it begins with and the bytes where replay stops.
pub record Split (file : Bytes) : Type 0 where
  pub records : List Bytes
  pub tail : Bytes
  pub whole : file ≡ log records ++ tail
  pub fit : All Fits records
  pub bytes : All IsByte tail
  pub torn : IsTorn tail

rest_bytes : (file p rest : Bytes) → All IsByte file → file ≡ frame p ++ rest → All IsByte rest
rest_bytes file p rest bytes e =
    subst (All IsByte) (ap (drop (length (frame p))) e ∙ drop-append (frame p) rest)
      (All-drop IsByte (length (frame p)) file bytes)

extend : (file p rest : Bytes) → file ≡ frame p ++ rest → Fits p → Split rest → Split file
extend file p rest e fits s = record {
  records = p ∷ s.records;
  tail = s.tail;
  whole = e ∙ ap (λ t. frame p ++ t) s.whole ∙ sym (log_split p s.records s.tail);
  fit = (fits, s.fit);
  bytes = s.bytes;
  torn = s.torn;
}

Split-round :
    (file : Bytes) (r : Round)
    → All IsByte file
    → plain_round file ≡ r
    → ((rest : Bytes) → length rest < length file → All IsByte rest → Split rest)
    → Split file
Split-round file (stop t) bytes e more = record {
  records = [];
  tail = file;
  whole = unfold log in refl;
  fit = tt;
  bytes = bytes;
  torn = stop-IsTorn file t e;
}
Split-round file (intact p rest) bytes e more =
    let (whole, fits) = plain_round_sound file p rest bytes e in
    extend file p rest whole fits (
      more rest (omega (arith, ap length whole, length-frame_append p rest))
        (rest_bytes file p rest bytes whole))

Split-fuel : (fuel : ℕ) (file : Bytes) → length file < fuel → All IsByte file → Split file
Split-fuel zero file h bytes = elim h [ ]
Split-fuel (suc fuel) file h bytes =
    Split-round file (plain_round file) bytes refl
      (λ rest shorter b. Split-fuel fuel rest (omega arith) b)

split : (file : Bytes) → All IsByte file → Split file
split file bytes = Split-fuel (suc (length file)) file (omega arith) bytes

-- What replay promises of any file of bytes: what it read and the valid bytes are exactly the
-- frames of the records that it returns, it stopped where no frame begins, and it reports a
-- truncation exactly if it left bytes behind.
pub record Recovered (file : Bytes) (r : ReplayResult) : Type 0 where
  pub tail : Bytes
  pub prefix : file ≡ log r.records ++ tail
  pub fit : All Fits r.records
  pub valid : r.valid_bytes ≡ length (log r.records)
  pub torn : IsTorn tail
  pub flag : r.truncated ≡ nonempty tail

-- On any file of bytes `replay` satisfies `Recovered`.
pub replay-Recovered :
    (src : Source) (file : Bytes) → All IsByte file → Recovered file (replay src (some file))
replay-Recovered src file bytes =
    let s = split file bytes in
    let run : replay src (some file) ≡ record {
      records = s.records;
      truncated = nonempty s.tail;
      valid_bytes = length (log s.records);
    } =
      ap (λ f. replay src (some f)) s.whole
      ∙ replay-log src s.records s.tail s.fit s.bytes s.torn in
    record {
      tail = s.tail;
      prefix = rw run s.whole;
      fit = rw run s.fit;
      valid = rw run;
      torn = s.torn;
      flag = rw run;
    }
