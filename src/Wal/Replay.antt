-- ===== src/Wal/Replay.antt =====
-- `replay` of src/wal.rs: one round of its loop, and the loop.
use nutdb.Prelude.{
  ℕ, zero, suc, ◌+◌, ◌-◌, ◌^◌, ◌≤◌, ◌<◌, ◌≡◌, ◌≢◌, refl, sym, some, ap, ◌∙◌, Bool, true, false,
  List, [], ◌∷◌, ◌++◌, arith, ltb, ◌==◌, if◌then◌else◌, length, take, drop, append_assoc,
  append-nil, All, length-append, length-take, length-drop, take-append, drop-append,
  take-append-drop, All-take, All-drop,
}
use nutdb.Bytes.{
  Bytes, IsByte, to_le_bytes, from_le_bytes, from_le_bytes-to_le_bytes, to_le_bytes-from_le_bytes,
  from_le_bytes-lt,
}
use nutdb.Crc.{crc32, crc32-lt}
use nutdb.Wal.{Source, frame, Round, stop, intact, round, replay_loop, replay, ReplayResult}
use nutdb.Wal.Read.{read_exact_or_eof_lem}

-- What a round does, without the reads.
abbrev pub found : Bytes → ℕ → Bytes → Round
found payload crc rest = if crc32 payload == crc then intact payload rest else stop true

abbrev pub plain_round : Bytes → Round
plain_round left =
    let header = take 8 left in
    let len = from_le_bytes (take 4 header) in
    if length left == 0
    then stop false
    else if ltb (length left) 8
    then stop true
    else if ltb (length left - 8) len
    then stop true
    else found (take len (drop 8 left)) (from_le_bytes (drop 4 header)) (drop len (drop 8 left))

module _ (src : Source) (file_len valid : ℕ) (left : Bytes)
    (at : valid + length left ≡ file_len) where
  room_lem : file_len - (valid + 8) ≡ length left - 8
  room_lem = omega arith

  round_lem : round src file_len valid left ≡ plain_round left
  unfolding round
  round_lem =
      rw (read_exact_or_eof_lem src 8 left, room_lem)
        (ground (
          arith,
          read_exact_or_eof_lem src (from_le_bytes (take 4 (take 8 left))) (drop 8 left),
          length-drop 8 left,
        ))

-- The checksum that the header of a frame stores, and the bytes behind the header.
header-frame :
    (p rest : Bytes)
    → take 8 (frame p ++ rest) ≡ to_le_bytes 4 (length p) ++ to_le_bytes 4 (crc32 p)
unfolding frame to_le_bytes
header-frame p rest = refl

body-frame : (p rest : Bytes) → drop 8 (frame p ++ rest) ≡ p ++ rest
unfolding frame to_le_bytes
body-frame p rest = refl

pub len-frame :
    (p rest : Bytes)
    → length p < 2 ^ 32
    → from_le_bytes (take 4 (take 8 (frame p ++ rest))) ≡ length p
len-frame p rest fits =
    rw (header-frame p rest) (unfold to_le_bytes in from_le_bytes-to_le_bytes 4 (length p) fits)

crc-frame : (p rest : Bytes) → from_le_bytes (drop 4 (take 8 (frame p ++ rest))) ≡ crc32 p
crc-frame p rest =
    rw (header-frame p rest)
      (unfold to_le_bytes in from_le_bytes-to_le_bytes 4 (crc32 p) (crc32-lt p))

pub length-frame : (p : Bytes) → length (frame p) ≡ 8 + length p
unfolding frame to_le_bytes
length-frame p = omega arith

pub plain_round-frame :
    (p rest : Bytes) → length p < 2 ^ 32 → plain_round (frame p ++ rest) ≡ intact p rest
plain_round-frame p rest fits =
    rw
      (
        len-frame p rest fits,
        crc-frame p rest,
        body-frame p rest,
        take-append p rest,
        drop-append p rest,
      )
      (ground (arith, length-append (frame p) rest, length-frame p, length-append p rest))

-- A header and a payload that fit together are a frame.
frame_lem :
    (header p : Bytes)
    → All IsByte header
    → length header ≡ 8
    → from_le_bytes (take 4 header) ≡ length p
    → crc32 p ≡ from_le_bytes (drop 4 header)
    → frame p ≡ header ++ p
unfolding frame
frame_lem header p h l len crc = rw (
  ← len,
  crc,
  to_le_bytes-from_le_bytes 4 (take 4 header) (omega (arith, length-take 4 header))
      (All-take IsByte 4 header h),
  to_le_bytes-from_le_bytes 4 (drop 4 header) (omega (arith, length-drop 4 header))
      (All-drop IsByte 4 header h),
  ← append_assoc,
  take-append-drop 4 header,
)

abbrev stored_len : Bytes → ℕ
stored_len left = from_le_bytes (take 4 (take 8 left))

plain_round_parts :
    (left p rest : Bytes)
    → plain_round left ≡ intact p rest
    → (8 ≤ length left)
      × (stored_len left ≤ length left - 8)
      × (take (stored_len left) (drop 8 left) ≡ p)
      × (drop (stored_len left) (drop 8 left) ≡ rest)
      × (crc32 p ≡ from_le_bytes (drop 4 (take 8 left)))
plain_round_parts left p rest e = ground arith

module _ (left p rest : Bytes) (h : All IsByte left) (e : plain_round left ≡ intact p rest) where
  stored_len_lem : stored_len left ≡ length p
  stored_len_lem =
      let (l, k, pe, re, ce) = plain_round_parts left p rest e in
      rw (← pe) (omega (arith, length-take (stored_len left) (drop 8 left), length-drop 8 left))

  pub plain_round_sound : (left ≡ frame p ++ rest) × (length p < 2 ^ 32)
  plain_round_sound =
      let (l, k, pe, re, ce) = plain_round_parts left p rest e in
      let header = take 8 left in
      let framed : frame p ≡ header ++ p =
        frame_lem header p (All-take IsByte 8 left h) (omega (arith, length-take 8 left))
          stored_len_lem ce in
      let parts : p ++ rest ≡ drop 8 left =
        rw (← pe, ← re) (take-append-drop (stored_len left) (drop 8 left)) in
      (
        rw (framed, append_assoc, parts) (sym (take-append-drop 8 left)),
        rw (← stored_len_lem) (
            from_le_bytes-lt 4 (take 4 header) (omega (arith, length-take 4 header))
              (All-take IsByte 4 header (All-take IsByte 8 left h))),
      )

plain_round_stop :
    (left : Bytes) (t : Bool)
    → plain_round left ≡ stop t
    → t ≡ (if length left == 0 then false else true)
plain_round_stop left t e = ground arith

-- The bytes that appending the records writes.
unfoldable pub log : List Bytes → Bytes
log [] = []
log (p ∷ ps) = frame p ++ log ps

pub log_split :
    (p : Bytes) (ps : List Bytes) (tail : Bytes)
    → log (p ∷ ps) ++ tail ≡ frame p ++ (log ps ++ tail)
unfolding log
log_split p ps tail = append_assoc (frame p) (log ps) tail

pub length-frame_append : (p rest : Bytes) → length (frame p ++ rest) ≡ 8 + length p + length rest
length-frame_append p rest = omega (arith, length-append (frame p) rest, length-frame p)

pub length-log :
    (p : Bytes) (ps : List Bytes) → length (log (p ∷ ps)) ≡ 8 + length p + length (log ps)
unfolding log
length-log p ps = length-frame_append p (log ps)

-- Where replay stops: at bytes that do not begin with a frame.
abbrev pub IsTorn : Bytes → Type 0
IsTorn tail = (p rest : Bytes) → length p < 2 ^ 32 → tail ≢ frame p ++ rest

pub stop-IsTorn : (left : Bytes) (t : Bool) → plain_round left ≡ stop t → IsTorn left
stop-IsTorn left t e p rest fits split = cc (e, ap plain_round split, plain_round-frame p rest fits)

abbrev pub nonempty : Bytes → Bool
nonempty left = if length left == 0 then false else true

torn_round :
    (tail : Bytes) → All IsByte tail → IsTorn tail → plain_round tail ≡ stop (nonempty tail)
torn_round tail bytes torn = go (plain_round tail) refl
  where
    go : (r : Round) → plain_round tail ≡ r → r ≡ stop (nonempty tail)
    go (stop t) e = ap stop (plain_round_stop tail t e)
    go (intact p rest) e =
        let (split, fits) = plain_round_sound tail p rest bytes e in absurd (torn p rest fits split)

module _ (src : Source) (fuel file_len : ℕ) (left : Bytes) (out : List Bytes) (valid : ℕ) where
  loop_stop :
      (t : Bool)
      → round src file_len valid left ≡ stop t
      → replay_loop src (suc fuel) file_len left out valid
        ≡ record { records = out; truncated = t; valid_bytes = valid }
  unfolding replay_loop
  loop_stop t e = rw (e, replay_loop)

  loop_intact :
      (p rest : Bytes)
      → round src file_len valid left ≡ intact p rest
      → replay_loop src (suc fuel) file_len left out valid
        ≡ replay_loop src fuel file_len rest (out ++ p ∷ []) (valid + (8 + length p))
  unfolding replay_loop
  loop_intact p rest e = rw (e, replay_loop)

result_eq :
    {a b : List Bytes} {m n : ℕ} (t : Bool)
    → a ≡ b
    → m ≡ n
    → ◌≡◌ {A = ReplayResult}
        (record { records = a; truncated = t; valid_bytes = m })
        (record { records = b; truncated = t; valid_bytes = n })
result_eq t p q = cc

-- From bytes that are frames and a torn tail, the loop reads the payloads of the frames.
loop-log :
    (src : Source) (fuel file_len : ℕ) (ps : List Bytes) (tail : Bytes) (out : List Bytes)
    (valid : ℕ)
    → All (λ (p : Bytes). length p < 2 ^ 32) ps
    → All IsByte tail
    → IsTorn tail
    → valid + length (log ps ++ tail) ≡ file_len
    → length (log ps ++ tail) < fuel
    → replay_loop src fuel file_len (log ps ++ tail) out valid ≡ record {
      records = out ++ ps;
      truncated = nonempty tail;
      valid_bytes = valid + length (log ps);
    }
loop-log src zero file_len ps tail out valid fit bytes torn at h = elim h [ ]
loop-log src (suc fuel) file_len [] tail out valid fit bytes torn at h =
    unfold log in
    loop_stop src fuel file_len tail out valid (nonempty tail)
      (round_lem src file_len valid tail at ∙ torn_round tail bytes torn)
    ∙ result_eq _ (sym (append-nil out)) (omega arith)
loop-log src (suc fuel) file_len (p ∷ ps) tail out valid fit bytes torn at h =
    let more = log ps ++ tail in
    let split = log_split p ps tail in
    let at' : valid + length (frame p ++ more) ≡ file_len = rw (← split) at in
    rw split (
      loop_intact src fuel file_len _ out valid p more
        (round_lem src file_len valid _ at' ∙ plain_round-frame p more fit.0)
      ∙ loop-log src fuel file_len ps tail (out ++ p ∷ []) (valid + (8 + length p)) fit.1 bytes torn
          (omega (arith, at', length-frame_append p more))
          (omega (arith, ap length split, length-frame_append p more))
      ∙ result_eq _ (append_assoc out (p ∷ []) ps) (omega (arith, length-log p ps)))

-- Replay of the bytes that appending records wrote, with a torn tail behind them (the empty one
-- included), returns exactly those records, reports a truncation exactly if the tail is not
-- empty, and ends the valid bytes where the tail begins. No more is asked of the reads than that
-- they progress.
pub replay-log :
    (src : Source) (ps : List Bytes) (tail : Bytes)
    → All (λ (p : Bytes). length p < 2 ^ 32) ps
    → All IsByte tail
    → IsTorn tail
    → replay src (some (log ps ++ tail))
      ≡ record { records = ps; truncated = nonempty tail; valid_bytes = length (log ps) }
unfolding replay
replay-log src ps tail fit bytes torn =
    loop-log src (suc (length (log ps ++ tail))) (length (log ps ++ tail)) ps tail [] 0 fit bytes
      torn (omega arith) (omega arith)
    ∙ result_eq _ refl (omega arith)
