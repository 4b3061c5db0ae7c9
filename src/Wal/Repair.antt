-- ===== src/Wal/Repair.antt =====
-- Torn writes to the log of src/wal.rs, and appending after its repair.
use nutdb.Prelude.{
  ℕ, ◌+◌, ◌-◌, ◌≤◌, ◌<◌, ◌≡◌, refl, sym, some, ap, ◌∙◌, false, List, [], ◌∷◌, ◌++◌, arith, leb, ltb,
  if◌then◌else◌, length, take, drop, append_assoc, append-nil, All, length-append, length-take,
  take-append, take-append_le, take-append_add, take-nil, take-append-drop, All-take, All-append,
  replicate, inl, inr, Bool-cases,
}
use nutdb.Prelude.Io.{ok}
use nutdb.Bytes.{Bytes, IsByte, to_le_bytes-IsByte}
use nutdb.Wal.{Wal, Source, frame, append, truncate_path, replay, intact}
use nutdb.Wal.Replay.{plain_round, IsTorn, log, replay-log, length-frame, plain_round-frame}
use nutdb.Wal.Recovery.{Fits, replay-Recovered}

pub frame-IsByte : (p : Bytes) → All IsByte p → All IsByte (frame p)
unfolding frame
frame-IsByte p h =
    All-append IsByte _ _ (to_le_bytes-IsByte 4 _)
      (All-append IsByte _ _ (to_le_bytes-IsByte 4 _) h)

-- A frame that is cut short is torn.
pub cut-IsTorn : (n : ℕ) (p : Bytes) → Fits p → n < 8 + length p → IsTorn (take n (frame p))
cut-IsTorn n p fits short q rest fits' e =
    let back = drop n (frame p) in
    let both : frame p ++ [] ≡ frame q ++ (rest ++ back) =
      append-nil (frame p)
      ∙ sym (take-append-drop n (frame p))
      ∙ ap (λ t. t ++ back) e
      ∙ append_assoc (frame q) rest back in
    let one : intact p [] ≡ intact q (rest ++ back) =
      sym (plain_round-frame p [] fits) ∙ ap plain_round both ∙ plain_round-frame q _ fits' in
    let p-eq : p ≡ q = cc in
    omega (
      arith,
      ap length p-eq,
      ap length e,
      length-append (frame q) rest,
      length-frame q,
      length-take n (frame p),
    )

pub nil-IsTorn : IsTorn []
nil-IsTorn q rest fits e = omega (arith, ap length e, length-append (frame q) rest, length-frame q)

-- The records whose frames lie whole in the first `n` bytes, and the bytes behind those frames.
unfoldable pub whole : ℕ → List Bytes → List Bytes
whole n [] = []
whole n (p ∷ ps) =
    let more = p ∷ whole (n - (8 + length p)) ps in if leb (8 + length p) n then more else []

remainder : ℕ → List Bytes → Bytes
remainder n [] = []
remainder n (p ∷ ps) =
    let more = remainder (n - (8 + length p)) ps in
    if leb (8 + length p) n then more else take n (frame p)

take-log : (n : ℕ) (ps : List Bytes) → take n (log ps) ≡ log (whole n ps) ++ remainder n ps
unfolding log whole remainder
take-log n [] = take-nil n
take-log n (p ∷ ps) = elim (Bool-cases (leb (8 + length p) n)) [
  | inl e ↦ rw e (
      take-append_add n (frame p) (log ps) (ground (arith, length-frame p))
      ∙ ap (λ t. frame p ++ t)
          (ap (λ k. take (n - k) (log ps)) (length-frame p) ∙ take-log (n - (8 + length p)) ps)
      ∙ sym (append_assoc (frame p) _ _))
  | inr e ↦ rw e (take-append_le n (frame p) (log ps) (ground (arith, length-frame p)))
]

whole-Fits : (n : ℕ) (ps : List Bytes) → All Fits ps → All Fits (whole n ps)
unfolding whole
whole-Fits n [] h = tt
whole-Fits n (p ∷ ps) h = ground (arith, whole-Fits (n - (8 + length p)) ps h.1)

remainder-IsTorn : (n : ℕ) (ps : List Bytes) → All Fits ps → IsTorn (remainder n ps)
unfolding remainder
remainder-IsTorn n [] h = nil-IsTorn
remainder-IsTorn n (p ∷ ps) h = elim (Bool-cases (leb (8 + length p) n)) [
  | inl e ↦ rw e (remainder-IsTorn (n - (8 + length p)) ps h.1)
  | inr e ↦ rw e (cut-IsTorn n p h.0 (ground arith))
]

remainder-IsByte : (n : ℕ) (ps : List Bytes) → All (All IsByte) ps → All IsByte (remainder n ps)
unfolding remainder
remainder-IsByte n [] h = tt
remainder-IsByte n (p ∷ ps) h = elim (Bool-cases (leb (8 + length p) n)) [
  | inl e ↦ rw e (remainder-IsByte (n - (8 + length p)) ps h.1)
  | inr e ↦ rw e (All-take IsByte n (frame p) (frame-IsByte p h.0))
]

-- A crash cuts the file that appending `ps` wrote to its first `n` bytes. Replay returns exactly
-- the records whose frames lie whole in those bytes, the valid bytes are those frames, and a
-- truncation is reported exactly if bytes of a cut frame are left.
pub replay_after_crash :
    (src : Source) (n : ℕ) (ps : List Bytes)
    → All Fits ps
    → All (All IsByte) ps
    → n ≤ length (log ps)
    → replay src (some (take n (log ps))) ≡ record {
      records = whole n ps;
      truncated = ltb (length (log (whole n ps))) n;
      valid_bytes = length (log (whole n ps));
    }
replay_after_crash src n ps fit bytes h =
    ap (λ f. replay src (some f)) (take-log n ps)
    ∙ replay-log src (whole n ps) (remainder n ps) (whole-Fits n ps fit)
        (remainder-IsByte n ps bytes) (remainder-IsTorn n ps fit)
    ∙ ground (
      arith,
      ap length (take-log n ps),
      length-append (log (whole n ps)) (remainder n ps),
      length-take n (log ps),
    )

pub log-append : (ps qs : List Bytes) → log (ps ++ qs) ≡ log ps ++ log qs
unfolding log
log-append [] qs = refl
log-append (p ∷ ps) qs =
    ap (λ t. frame p ++ t) (log-append ps qs) ∙ sym (append_assoc (frame p) (log ps) (log qs))

pub log_one : (p : Bytes) → log (p ∷ []) ≡ frame p
unfolding log
log_one p = append-nil (frame p)

abbrev pub repaired : Source → Wal → Wal
repaired src wal = truncate_path (replay src (some wal.file)).valid_bytes wal

pub set_len_front :
    (front tail file : Bytes) (v : ℕ)
    → file ≡ front ++ tail
    → v ≡ length front
    → take v file ++ replicate (v - length file) 0 ≡ front
set_len_front front tail file v e l =
    let none_added : v - length file ≡ 0 = omega (arith, ap length e, length-append front tail) in
    rw (none_added, append-nil, e, l) (take-append front tail)

abbrev pub durable : Bytes → Wal
durable file = record { file = file; synced = length file }

-- A log that was closed cleanly replays whole.
pub replay-log_clean :
    (src : Source) (ps : List Bytes)
    → All Fits ps
    → replay src (some (log ps))
      ≡ record { records = ps; truncated = false; valid_bytes = length (log ps) }
replay-log_clean src ps fit =
    ap (λ f. replay src (some f)) (sym (append-nil (log ps)))
    ∙ replay-log src ps [] fit tt nil-IsTorn

pub append_file :
    (p : Bytes) (wal wal' : Wal)
    → append p wal ≡ ok wal'
    → Fits p × (wal'.file ≡ wal.file ++ frame p)
unfolding append
append_file p wal wal' e = ground arith

-- The repair keeps the frames of what replay returned and nothing else, and makes them durable.
repaired_lem :
    (src : Source) (wal : Wal)
    → All IsByte wal.file
    → repaired src wal ≡ durable (log (replay src (some wal.file)).records)
unfolding truncate_path
repaired_lem src wal bytes =
    let r = replay-Recovered src wal.file bytes in
    ap durable (set_len_front _ r.tail wal.file _ r.prefix r.valid)

-- After any damage to the file, opening the log (replay, then cut to the valid bytes) and
-- appending a record gives a file that replays to the records recovered before and the new one,
-- with nothing truncated and every byte valid.
pub replay-append-repaired :
    (src : Source) (wal : Wal) (p : Bytes) (wal' : Wal)
    → All IsByte wal.file
    → append p (repaired src wal) ≡ ok wal'
    → replay src (some wal'.file) ≡ record {
      records = (replay src (some wal.file)).records ++ p ∷ [];
      truncated = false;
      valid_bytes = length wal'.file;
    }
replay-append-repaired src wal p wal' bytes e =
    let r = replay-Recovered src wal.file bytes in
    let ps = (replay src (some wal.file)).records in
    let (fits, file) = append_file p (repaired src wal) wal' e in
    let file_eq : wal'.file ≡ log (ps ++ p ∷ []) =
      file
      ∙ ap (λ (w : Wal). w.file ++ frame p) (repaired_lem src wal bytes)
      ∙ ap (λ t. log ps ++ t) (sym (log_one p))
      ∙ sym (log-append ps (p ∷ [])) in
    rw file_eq (replay-log_clean src _ (All-append Fits ps (p ∷ []) r.fit (fits, tt)))
