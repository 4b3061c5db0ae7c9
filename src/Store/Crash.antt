-- ===== src/Store/Crash.antt =====
-- `apply` of src/store.rs and crashes in the middle of it.
use mathlib.Core.List.{map-append}
use mathlib.Core.Path.{subst}
use nutdb.Prelude.{
  ℕ, zero, suc, ◌+◌, ◌-◌, ◌^◌, ◌≤◌, ◌<◌, ◌≡◌, refl, sym, ap, ◌∙◌, Option, none, some, List, [], ◌∷◌,
  ◌++◌, arith, length, length-append, take, All, All-append, map, append-nil, ◌⊎◌, inl, inr,
  length-take, take-append_add, take-le, All-take,
}
use native.Mathlib.Decide.{dec_lt}
use nutdb.Prelude.Io.{ok, input, ◌>>=◌}
use nutdb.Bytes.{Bytes, IsByte}
use nutdb.Wal
use nutdb.Wal.{Wal, Source, frame, append}
use nutdb.Wal.Replay.{log, length-frame}
use nutdb.Wal.Recovery.{Fits}
use nutdb.Wal.Repair.{log-append, log_one, cut-IsTorn, frame-IsByte, nil-IsTorn, durable}
use nutdb.Command.{Command, encode}
use nutdb.Command.RoundTrip.{IsText, decode-encode_short, encode-HasLengths, encode-IsByte}
use nutdb.Btree.{BtreeIndex}
use nutdb.Store.{Disk, Store, apply_memory, open_store, apply, apply_steps, run_all}
use nutdb.Store.Trees.{replay_tree, replay_tree-append, Readable}
use nutdb.Store.Durable.{Holds, IsDurable, open_store-IsDurable}

-- A command whose record is too long is refused, and changes nothing.
pub apply_refused :
    (c : Command) (s : Store)
    → 2 ^ 32 ≤ length (encode c)
    → apply c s ≡ (input "wal: record exceeds 4 GiB", s)
unfolding apply append
apply_refused c s long = ground arith

log_snoc :
    (cs : List Command) (c : Command)
    → log (map encode (cs ++ c ∷ [])) ≡ log (map encode cs) ++ frame (encode c)
log_snoc cs c =
    ap log (map-append encode cs (c ∷ []))
    ∙ log-append (map encode cs) (encode c ∷ [])
    ∙ ap (λ t. log (map encode cs) ++ t) (log_one (encode c))

early : {size : ℕ} (count n : ℕ) → n < size → (2 ≤ count → n ≡ size) → count < 2
early count n short late = elim (dec_lt count 2) [
  | yes l ↦ l
  | no l ↦ (let all = late (omega arith) in absurd (omega (arith, all, short)))
]

-- The store where `apply` has been left after so many of its statements.
abbrev pub during : ℕ → Command → Store → Store
during count c s = (run_all (take count (apply_steps c)) s).1

-- The store at a crash: `apply` has done so many of its statements, or it has returned.
abbrev pub reached : Option ℕ → Command → Store → Store
reached none c s = (apply c s).1
reached (some count) c s = during count c s

-- What a crash leaves of a store: its page files, and the synced part of its log with any number of
-- the bytes behind it, `n` bytes in all.
abbrev pub crashed : ℕ → Store → Disk
crashed n s = record {
  wal = some (record { file = take n s.wal.file; synced = n });
  pages = s.pages;
}

module _ (c : Command) (s : Store) (t : BtreeIndex) (fits : length (encode c) < 2 ^ 32)
    (changed : apply_memory c s.tree ≡ ok t) where
  abbrev grown : Bytes
  grown = s.wal.file ++ frame (encode c)

  abbrev stage : ℕ → Store
  stage zero = s
  stage (suc zero) = record s { wal = record { file = grown; synced = s.wal.synced } }
  stage (suc (suc zero)) = record s { wal = durable grown }
  stage (suc (suc (suc count))) = record s { wal = durable grown; tree = t }

  during-stage : (count : ℕ) → during count c s ≡ stage count
  unfolding run_all apply_steps append Wal.sync
  during-stage zero = refl
  during-stage (suc zero) = ground arith
  during-stage (suc (suc zero)) = ground arith
  during-stage (suc (suc (suc zero))) = ground (arith, changed)
  during-stage (suc (suc (suc (suc count)))) = ground (arith, changed)

  module _ (cs : List Command) (h : IsDurable s cs) (text : IsText c) where
    readable : Readable c
    readable = decode-encode_short c text (encode-HasLengths c fits)

    fit_snoc : All Fits (map encode (cs ++ c ∷ []))
    fit_snoc =
        subst (All Fits) (sym (map-append encode cs (c ∷ [])))
          (All-append Fits _ _ h.fit (fits, tt))

    replayed_snoc : replay_tree (cs ++ c ∷ []) h.base ≡ ok t
    replayed_snoc =
        replay_tree-append cs (c ∷ []) h.base
        ∙ ap (λ r. r >>= replay_tree (c ∷ [])) h.replayed
        ∙ ap (λ r. r >>= replay_tree []) changed

    file_lem : s.wal.file ≡ log (map encode cs)
    file_lem = ap (λ (w : Wal). w.file) h.wal

    -- What is left with `n` bytes of the log, where the frame is appended.
    abbrev cut_disk : ℕ → Disk
    cut_disk n = record { wal = some (record { file = take n grown; synced = n }); pages = s.pages }

    size_lem : length grown ≡ length s.wal.file + (8 + length (encode c))
    size_lem = omega (arith, length-append s.wal.file (frame (encode c)), length-frame (encode c))

    synced_lem : s.wal.synced ≡ length s.wal.file
    synced_lem = omega (arith, ap (λ (w : Wal). w.synced) h.wal, ap length file_lem)

    crashed_before : (n : ℕ) → n ≡ length s.wal.file → crashed n s ≡ cut_disk n
    crashed_before n e =
        let none_left : n - length s.wal.file ≡ 0 = omega (arith, e) in
        let kept : take n grown ≡ take n s.wal.file =
          take-append_add n s.wal.file (frame (encode c)) (omega (arith, e))
          ∙ ap (λ k. s.wal.file ++ take k (frame (encode c))) none_left
          ∙ append-nil s.wal.file
          ∙ sym (take-le n s.wal.file (omega (arith, e))) in
        λ i. record { wal = some (record { file = sym kept i; synced = n }); pages = s.pages }

    -- Where `apply` has been left, and what the crash has cut, at a glance.
    abbrev Cut : ℕ → ℕ → Type 0
    Cut count n =
        (crashed n (during count c s) ≡ cut_disk n)
        × (length s.wal.file ≤ n)
        × (n ≤ length grown)
        × (2 ≤ count → n ≡ length grown)

    Cut-at :
        (count n : ℕ) (d : Store)
        → during count c s ≡ d
        → d.wal.file ≡ grown
        → d.pages ≡ s.pages
        → length s.wal.file ≤ d.wal.synced
        → (2 ≤ count → d.wal.synced ≡ length grown)
        → (during count c s).wal.synced ≤ n
        → n ≤ length (during count c s).wal.file
        → Cut count n
    Cut-at count n d at file pages old new l u =
        let low : d.wal.synced ≤ n = subst (λ (d : Store). d.wal.synced ≤ n) at l in
        let high : n ≤ length grown =
          subst (λ (f : Bytes). n ≤ length f) (ap (λ (d : Store). d.wal.file) at ∙ file) u in
        (
          ap (crashed n) at ∙ (λ i. record {
            wal = some (record { file = take n (file i); synced = n });
            pages = pages i;
          }),
          omega (arith, low, old),
          high,
          λ two. (let all = new two in omega (arith, low, high, all)),
        )

    cut_lem :
        (count n : ℕ)
        → (during count c s).wal.synced ≤ n
        → n ≤ length (during count c s).wal.file
        → Cut count n
    cut_lem zero n l u =
        let low : s.wal.synced ≤ n = subst (λ (d : Store). d.wal.synced ≤ n) (during-stage 0) l in
        let high : n ≤ length s.wal.file =
          subst (λ (d : Store). n ≤ length d.wal.file) (during-stage 0) u in
        (
          ap (crashed n) (during-stage 0) ∙ crashed_before n (omega (arith, synced_lem, low, high)),
          omega (arith, synced_lem, low),
          omega (arith, size_lem, high),
          λ two. absurd (omega (arith, two)),
        )
    cut_lem (suc zero) n l u =
        Cut-at 1 n (stage 1) (during-stage 1) refl refl (omega (arith, synced_lem))
          (λ two. absurd (omega (arith, two))) l u
    cut_lem (suc (suc zero)) n l u =
        Cut-at 2 n (stage 2) (during-stage 2) refl refl (omega (arith, size_lem)) (λ two. refl) l u
    cut_lem (suc (suc (suc count))) n l u =
        Cut-at (suc (suc (suc count))) n (stage (suc (suc (suc count))))
          (during-stage (suc (suc (suc count)))) refl refl (omega (arith, size_lem)) (λ two. refl) l
          u

    module _ (n : ℕ) (synced : length s.wal.file ≤ n) (within : n ≤ length grown) where
      on_disk_lem : n ≡ length (take n grown)
      on_disk_lem = omega (arith, length-take n grown, within)

      -- A crash that cut the frame leaves the old commands.
      cut-Holds : n < length grown → Holds (cut_disk n) cs s.tree
      cut-Holds short = record {
        wal = record { file = take n grown; synced = n };
        tail = take (n - length s.wal.file) (frame (encode c));
        on_disk = on_disk_lem;
        logged = refl;
        file =
            take-append_add n s.wal.file (frame (encode c)) synced
            ∙ ap (λ f. f ++ take (n - length s.wal.file) (frame (encode c))) file_lem;
        torn = cut-IsTorn (n - length s.wal.file) (encode c) fits (omega (arith, size_lem));
        bytes = All-take IsByte _ _ (frame-IsByte (encode c) (encode-IsByte c text));
        readable = h.readable;
        fit = h.fit;
        base = h.base;
        loaded = h.loaded;
        replayed = h.replayed;
      }

      -- A crash behind the whole frame leaves the new command too.
      whole-Holds : n ≡ length grown → Holds (cut_disk n) (cs ++ c ∷ []) t
      whole-Holds e = record {
        wal = record { file = take n grown; synced = n };
        tail = [];
        on_disk = on_disk_lem;
        logged = refl;
        file =
            take-le n grown (omega arith)
            ∙ ap (λ f. f ++ frame (encode c)) file_lem
            ∙ sym (log_snoc cs c)
            ∙ sym (append-nil _);
        torn = nil-IsTorn;
        bytes = tt;
        readable = All-append Readable cs (c ∷ []) h.readable (readable, tt);
        fit = fit_snoc;
        base = h.base;
        loaded = h.loaded;
        replayed = replayed_snoc;
      }

    -- At a crash while `apply` runs the store opens with the old tree or the new one.
    open_store-during :
        (src : Source) (count n : ℕ)
        → (during count c s).wal.synced ≤ n
        → n ≤ length (during count c s).wal.file
        → (u : Store) × (open_store src (crashed n (during count c s)) ≡ ok u)
          × ((u.tree ≡ s.tree) × IsDurable u cs × (n < length grown) × (count < 2)
              ⊎ (u.tree ≡ t) × IsDurable u (cs ++ c ∷ []) × (n ≡ length grown))
    open_store-during src count n l r =
        let (left, low, high, late) = cut_lem count n l r in
        let reopened = ap (open_store src) left in
        elim (dec_lt n (length grown)) [
          | yes short ↦
              let (u, e, same, d) =
                open_store-IsDurable src (cut_disk n) cs s.tree (cut-Holds n low high short) in
              (u, reopened ∙ e, inl (same, d, short, early count n short late))
          | no long ↦
              let all : n ≡ length grown = omega arith in
              let (u, e, same, d) =
                open_store-IsDurable src (cut_disk n) (cs ++ c ∷ []) t
                  (whole-Holds n low high all) in
              (u, reopened ∙ e, inr (same, d, all))
        ]

    -- Atomicity of `apply`: wherever a crash stops its statements (write to the log, sync, change
    -- of the tree), or after it has returned, and whatever number of the unsynced bytes of the log
    -- the crash leaves, the store opens again, durable: with the tree from before the command if
    -- bytes of the record are missing, which only a crash before the sync can leave, and with the
    -- tree after it if none is. It is assumed that the tree takes the command without a panic.
    pub open_store-crashed :
        (src : Source) (point : Option ℕ) (n : ℕ)
        → (reached point c s).wal.synced ≤ n
        → n ≤ length (reached point c s).wal.file
        → (u : Store) × (open_store src (crashed n (reached point c s)) ≡ ok u)
          × ((u.tree ≡ s.tree)
                × IsDurable u cs
                × (n < length grown)
                × ((count : ℕ) × (point ≡ some count) × (count < 2))
              ⊎ (u.tree ≡ t) × IsDurable u (cs ++ c ∷ []) × (n ≡ length grown))
    unfolding apply
    open_store-crashed src none n l r =
        let (u, e, which) = open_store-during src 3 n l r in
        (
          u,
          e,
          elim which [
            | inl (same, d, short, before) ↦ absurd (omega (arith, before))
            | inr new ↦ inr new
          ],
        )
    open_store-crashed src (some count) n l r =
        let (u, e, which) = open_store-during src count n l r in
        (
          u,
          e,
          elim which [
            | inl (same, d, short, before) ↦ inl (same, d, short, (count, refl, before))
            | inr new ↦ inr new
          ],
        )
