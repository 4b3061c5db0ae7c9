-- ===== src/Txn/Chain.antt =====
-- The chain of versions of one key in src/txn.rs: its invariant, and what snapshots see of it.
use nutdb.Prelude.{
  ℕ, ◌≤◌, ◌<◌, ◌≡◌, refl, sym, ◌∙◌, ◌⊎◌, Option, none, some, [], ◌∷◌, ◌++◌, arith, if◌then◌else◌,
  All,
}
use nutdb.Bytes.{Bytes}
use nutdb.Txn.Versions.{
  Version, Chain, visible_at, find_visible, chain_change, last_modified, close_last, push_version,
  write_chain,
}

-- The value that a snapshot sees.
unfoldable pub seen : ℕ → Chain → Option Bytes
seen snapshot chain = elim (find_visible snapshot chain) [ none ↦ none | some v ↦ some v.value ]

abbrev pub shown : Version → ℕ → Option Bytes
shown v s = if visible_at v s then some v.value else none

abbrev pub or_else : Option Bytes → Option Bytes → Option Bytes
or_else (some x) y = some x
or_else none y = y

or_else-none : (o : Option Bytes) → or_else o none ≡ o
or_else-none none = refl
or_else-none (some x) = refl

pub seen_cons :
    (s : ℕ) (v : Version) (vs : Chain) → seen s (v ∷ vs) ≡ or_else (seen s vs) (shown v s)
unfolding seen find_visible
seen_cons s v vs = ground arith

pub seen_nil : (s : ℕ) → seen s [] ≡ none
unfolding seen find_visible
seen_nil s = refl

-- All timestamps are at most `bound`; a version ends after it began and before the next begins; and
-- only the last may be without an end.
abbrev pub Ends : ℕ → Version → Type 0
Ends bound v =
    (v.deleted_at ≡ none) ⊎ ((d : ℕ) × (v.deleted_at ≡ some d) × (v.created_at < d) × (d ≤ bound))

abbrev pub IsChain : ℕ → Chain → Type 0
IsChain bound [] = Unit
IsChain bound (v ∷ []) = (v.created_at ≤ bound) × Ends bound v
IsChain bound (v ∷ w ∷ vs) =
    ((d : ℕ) × (v.deleted_at ≡ some d) × (v.created_at < d) × (d ≤ w.created_at))
    × IsChain bound (w ∷ vs)

pub created-le : (c : ℕ) (v : Version) (vs : Chain) → IsChain c (v ∷ vs) → v.created_at ≤ c
created-le c v [] h = h.0
created-le c v (w ∷ vs) h = ground (arith, created-le c w vs h.1)

seen-append :
    (s : ℕ) (chain : Chain) (v : Version)
    → seen s (chain ++ v ∷ []) ≡ or_else (shown v s) (seen s chain)
seen-append s [] v = rw (seen_cons, seen_nil) (sym (or_else-none (shown v s)))
seen-append s (w ∷ chain) v =
    ground (arith, seen_cons s w (chain ++ v ∷ []), seen_cons s w chain, seen-append s chain v)

-- Ending the last version later than a snapshot changes nothing for it.
seen-close_last_before :
    (s ts : ℕ) (chain : Chain) → s < ts → seen s (close_last ts chain) ≡ seen s chain
unfolding close_last visible_at
seen-close_last_before s ts [] h = refl
seen-close_last_before s ts (v ∷ []) h =
    ground (arith, seen_cons s v [], seen_cons s (record v { deleted_at = some ts }) [], seen_nil s)
seen-close_last_before s ts (v ∷ w ∷ vs) h = ground (
  arith,
  seen_cons s v (w ∷ vs),
  seen_cons s v (close_last ts (w ∷ vs)),
  seen-close_last_before s ts (w ∷ vs) h,
)

-- A snapshot from before a write sees the chain as it was.
pub seen-write_chain_before :
    (s ts : ℕ) (value : Option Bytes) (chain : Chain)
    → s < ts
    → seen s (write_chain ts value chain) ≡ seen s chain
unfolding write_chain push_version visible_at
seen-write_chain_before s ts none chain h = seen-close_last_before s ts chain h
seen-write_chain_before s ts (some x) chain h = ground (
  arith,
  seen-append s (close_last ts chain) (record { value = x; created_at = ts; deleted_at = none }),
  seen-close_last_before s ts chain h,
)

-- From the timestamp of its end on, a chain that is closed shows nothing.
seen-close_last :
    (c ts : ℕ) (chain : Chain) → IsChain c chain → c < ts → seen ts (close_last ts chain) ≡ none
unfolding close_last visible_at
seen-close_last c ts [] h l = seen_nil ts
seen-close_last c ts (v ∷ []) h l =
    ground
      (arith, seen_cons ts v [], seen_cons ts (record v { deleted_at = some ts }) [], seen_nil ts)
seen-close_last c ts (v ∷ w ∷ vs) h l = ground (
  arith,
  seen_cons ts v (close_last ts (w ∷ vs)),
  seen-close_last c ts (w ∷ vs) h.1 l,
  created-le c w vs h.1,
)

-- A snapshot at the timestamp of a write sees what it wrote.
pub seen-write_chain :
    (c ts : ℕ) (value : Option Bytes) (chain : Chain)
    → IsChain c chain
    → c < ts
    → seen ts (write_chain ts value chain) ≡ value
unfolding write_chain push_version visible_at
seen-write_chain c ts none chain h l = seen-close_last c ts chain h l
seen-write_chain c ts (some x) chain h l = ground (
  arith,
  seen-append ts (close_last ts chain) (record { value = x; created_at = ts; deleted_at = none }),
)

-- Snapshots later than all timestamps see the same.
pub seen_late : (c s : ℕ) (chain : Chain) → IsChain c chain → c ≤ s → seen s chain ≡ seen c chain
unfolding visible_at
seen_late c s [] h l = seen_nil s ∙ sym (seen_nil c)
seen_late c s (v ∷ []) h l =
    ground (arith, seen_cons s v [], seen_cons c v [], seen_nil s, seen_nil c)
seen_late c s (v ∷ w ∷ vs) h l = ground (
  arith,
  seen_cons s v (w ∷ vs),
  seen_cons c v (w ∷ vs),
  seen_late c s (w ∷ vs) h.1 l,
  created-le c w vs h.1,
)

pub created-le-change :
    (c : ℕ) (v : Version) (vs : Chain) → IsChain c (v ∷ vs) → v.created_at ≤ chain_change (v ∷ vs)
unfolding chain_change
created-le-change c v [] h = ground arith
created-le-change c v (w ∷ vs) h = ground (arith, created-le-change c w vs h.1)

-- A snapshot no older than the last change of a chain sees what the newest one sees.
pub seen_unchanged :
    (c s : ℕ) (chain : Chain)
    → IsChain c chain
    → chain_change chain ≤ s
    → s ≤ c
    → seen s chain ≡ seen c chain
unfolding visible_at chain_change
seen_unchanged c s [] h l k = seen_nil s ∙ sym (seen_nil c)
seen_unchanged c s (v ∷ []) h l k =
    ground (arith, seen_cons s v [], seen_cons c v [], seen_nil s, seen_nil c)
seen_unchanged c s (v ∷ w ∷ vs) h l k = ground (
  arith,
  seen_cons s v (w ∷ vs),
  seen_cons c v (w ∷ vs),
  seen_unchanged c s (w ∷ vs) h.1 l k,
  created-le c w vs h.1,
  created-le-change c w vs h.1,
)

-- A version that neither began nor ended after a snapshot.
abbrev pub IsUntouched : ℕ → Version → Type 0
IsUntouched s v = (v.created_at ≤ s) × ((d : ℕ) → v.deleted_at ≡ some d → d ≤ s)

-- If a chain last changed by a snapshot, none of its versions began or ended after it.
pub chain_change-IsUntouched :
    (c s : ℕ) (chain : Chain) → IsChain c chain → chain_change chain ≤ s → All (IsUntouched s) chain
unfolding chain_change last_modified
chain_change-IsUntouched c s [] h l = tt
chain_change-IsUntouched c s (v ∷ []) h l = ((ground arith, λ d e. ground arith), tt)
chain_change-IsUntouched c s (v ∷ w ∷ vs) h l =
    let next = created-le-change c w vs h.1 in
    ((ground arith, λ d e. ground arith), chain_change-IsUntouched c s (w ∷ vs) h.1 l)
