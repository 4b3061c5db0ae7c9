-- ===== src/Txn/Gc.antt =====
-- `gc` of src/txn.rs and src/gc.rs: versions that no snapshot can see are reclaimed.
use nutdb.Prelude.{
  ℕ, ◌+◌, ◌-◌, ◌≤◌, ◌≡◌, refl, sym, ap, ◌∙◌, ◌⊎◌, inl, inr, Bool, false, not, Option, none, some,
  [], ◌∷◌, arith, ltb, ◌==◌, if◌then◌else◌, length, min, Bool-cases,
}
use nutdb.Prelude.Order.{bytes_order, nat_order, same_iff}
use nutdb.Prelude.TreeMap
use nutdb.Prelude.TreeMap.{TreeMap, IsSorted, get-Above}
use nutdb.Bytes.{Bytes}
use nutdb.Txn.Versions.{
  Version, Chain, Versions, visible_at, last_modified, chain_of, chain_change, latest_change,
}
use nutdb.Txn.Chain.{IsChain, seen, seen_cons, created-le-change}
use nutdb.Txn.Snapshot.{IsValid}
use nutdb.Txn.Commit.{get_at-seen, latest_change-chain}
use nutdb.Txn.Ops.{Inner, get_at, u64_end}

pub record GcReport : Type 0 where
  pub watermark : ℕ
  pub versions_reclaimed : ℕ

-- `active.values().copied().min()`
unfoldable pub min_snapshot : TreeMap ℕ ℕ → Option ℕ
min_snapshot [] = none
min_snapshot ((id, s) ∷ active) = elim (min_snapshot active) [
  | none ↦ some s
  | some m ↦ some (min s m)
]

-- `commit_ts.saturating_add(1)`, where nothing is active
unfoldable pub watermark_of : Inner → ℕ
unfolding min_snapshot
watermark_of inner = elim (min_snapshot inner.active) [
  | some m ↦ m
  | none ↦ min (inner.commit_ts + 1) (u64_end - 1)
]

unfoldable pub is_kept : ℕ → Version → Bool
is_kept watermark v =
    not (elim v.deleted_at [ none ↦ false | some deleted ↦ ltb deleted watermark ])

unfoldable pub retain : ℕ → Chain → Chain
retain watermark [] = []
retain watermark (v ∷ vs) =
    let rest = retain watermark vs in if is_kept watermark v then v ∷ rest else rest

-- A chain that is left empty is dropped with its key.
unfoldable pub retain_all : ℕ → Versions → Versions
retain_all watermark [] = []
retain_all watermark ((key, chain) ∷ versions) =
    let rest = retain_all watermark versions in
    let kept = retain watermark chain in if length kept == 0 then rest else (key, kept) ∷ rest

unfoldable pub reclaimed : ℕ → Versions → ℕ
reclaimed watermark [] = 0
reclaimed watermark ((key, chain) ∷ versions) =
    length chain - length (retain watermark chain) + reclaimed watermark versions

unfoldable pub gc : Inner → GcReport × Inner
gc inner =
    let watermark = watermark_of inner in
    (
      record { watermark = watermark; versions_reclaimed = reclaimed watermark inner.versions },
      record inner { versions = retain_all watermark inner.versions },
    )

-- A snapshot at or after the watermark sees of a chain what it saw.
seen-retain : (w s : ℕ) (chain : Chain) → w ≤ s + 1 → seen s (retain w chain) ≡ seen s chain
unfolding retain is_kept visible_at
seen-retain w s [] h = refl
seen-retain w s (v ∷ vs) h =
    ground (arith, seen_cons s v vs, seen_cons s v (retain w vs), seen-retain w s vs h)

get-retain_all-none :
    (w : ℕ) (vs : Versions) (key : Bytes)
    → TreeMap.get key vs ≡ none
    → TreeMap.get key (retain_all w vs) ≡ none
unfolding retain_all TreeMap.get
get-retain_all-none w [] key e = refl
get-retain_all-none w ((k, chain) ∷ vs) key e = ground (arith, get-retain_all-none w vs key)

chain_of-get-none : (vs : Versions) (key : Bytes) → TreeMap.get key vs ≡ none → chain_of key vs ≡ []
unfolding chain_of
chain_of-get-none vs key e = ground arith

length_zero : (chain : Chain) → length chain ≡ 0 → chain ≡ []
length_zero [] h = refl
length_zero (v ∷ vs) h = absurd (omega arith)

pub chain_of-retain_all :
    (w : ℕ) (vs : Versions) (key : Bytes)
    → IsSorted vs
    → chain_of key (retain_all w vs) ≡ retain w (chain_of key vs)
unfolding retain_all chain_of TreeMap.get
chain_of-retain_all w [] key h = unfold retain in refl
chain_of-retain_all w ((k, chain) ∷ vs) key h = ground (
  arith,
  same_iff k key,
  get-Above k vs h.0,
  get-retain_all-none w vs key,
  chain_of-retain_all w vs key h.1,
  length_zero (retain w chain),
)

kept-change :
    (s c : ℕ) (v x : Version) (vs rest : Chain)
    → IsChain c (v ∷ x ∷ vs)
    → ltb s (chain_change rest) ≡ ltb s (chain_change (x ∷ vs))
    → ltb s (chain_change (v ∷ rest)) ≡ ltb s (chain_change (x ∷ vs))
kept-change s c v x vs [] h e =
    let last = created-le-change c x vs h.1 in
    unfold chain_change last_modified in ground (arith, last)
kept-change s c v x vs (y ∷ ys) h e = unfold chain_change in e

chain_change-retain :
    (w s c : ℕ) (chain : Chain)
    → w ≤ s + 1
    → IsChain c chain
    → ltb s (chain_change (retain w chain)) ≡ ltb s (chain_change chain)
unfolding retain chain_change
chain_change-retain w s c [] h k = refl
chain_change-retain w s c (v ∷ []) h k = unfold last_modified is_kept in ground arith
chain_change-retain w s c (v ∷ x ∷ vs) h k = elim (Bool-cases (is_kept w v)) [
  | inl e ↦
      rw e (kept-change s c v x vs (retain w (x ∷ vs)) k (chain_change-retain w s c (x ∷ vs) h k.1))
  | inr e ↦ rw e (chain_change-retain w s c (x ∷ vs) h k.1)
]

min_snapshot-le :
    (active : TreeMap ℕ ℕ) (id s d : ℕ)
    → TreeMap.get id active ≡ some s
    → elim (min_snapshot active) as (λ _. ℕ) [ some m ↦ m | none ↦ d ] ≤ s
unfolding min_snapshot TreeMap.get
min_snapshot-le [] id s d e = cc
min_snapshot-le ((i, x) ∷ active) id s d e =
    ground (arith, min_snapshot-le active id s d, min_snapshot-le active id s (s + 1))

-- The watermark is at most the snapshot of every active transaction.
watermark_of-le :
    (inner : Inner) (id s : ℕ) → TreeMap.get id inner.active ≡ some s → watermark_of inner ≤ s
unfolding watermark_of
watermark_of-le inner id s e = min_snapshot-le inner.active id s _ e

-- The watermark is at most one more than the newest timestamp, if no active snapshot is newer.
watermark_of-newest :
    (inner : Inner)
    → ((id s : ℕ) → TreeMap.get id inner.active ≡ some s → s ≤ inner.commit_ts)
    → watermark_of inner ≤ inner.commit_ts + 1
unfolding watermark_of
watermark_of-newest inner old = go inner.active refl
  where
    go : (active : TreeMap ℕ ℕ) → inner.active ≡ active → watermark_of inner ≤ inner.commit_ts + 1
    go [] e = rw (e, watermark_of) (unfold min_snapshot in omega arith)
    go ((id, s) ∷ active) e =
        let first : TreeMap.get id inner.active ≡ some s =
          rw e (unfold TreeMap.get in ground (arith, same_iff id id)) in
        omega (arith, watermark_of-le inner id s first, old id s first)

-- A snapshot that the collection must not disturb: the newest timestamp, or that of an active
-- transaction.
abbrev pub IsLive : Inner → ℕ → Type 0
IsLive inner s = (s ≡ inner.commit_ts) ⊎ ((id : ℕ) × (TreeMap.get id inner.active ≡ some s))

module _ (inner : Inner) (s : ℕ) (sorted : IsSorted inner.versions)
    (old : (id t : ℕ) → TreeMap.get id inner.active ≡ some t → t ≤ inner.commit_ts)
    (live : IsLive inner s) where
  watermark_of-live : watermark_of inner ≤ s + 1
  watermark_of-live = elim live [
    | inl e ↦ omega (arith, watermark_of-newest inner old)
    | inr (id, e) ↦ omega (arith, watermark_of-le inner id s e)
  ]

  -- Garbage collection changes no read at a snapshot that a transaction may still use, nor at the
  -- newest timestamp.
  pub gc_keeps_reads : (key : Bytes) → get_at (gc inner).1 key s ≡ get_at inner key s
  unfolding gc
  gc_keeps_reads key =
      get_at-seen (gc inner).1 key s
      ∙ ap (seen s) (chain_of-retain_all (watermark_of inner) inner.versions key sorted)
      ∙ seen-retain (watermark_of inner) s (chain_of key inner.versions) watermark_of-live
      ∙ sym (get_at-seen inner key s)

  -- Nor does it change which keys conflict with a transaction at such a snapshot.
  pub gc_keeps_conflicts :
      (key : Bytes)
      → IsValid inner.commit_ts inner.versions
      → ltb s (latest_change (gc inner).1.versions key) ≡ ltb s (latest_change inner.versions key)
  unfolding gc
  gc_keeps_conflicts key valid =
      let w = watermark_of inner in
      rw (latest_change-chain, chain_of-retain_all w inner.versions key sorted)
        (chain_change-retain w s inner.commit_ts (chain_of key inner.versions) watermark_of-live
            (valid key)
          ∙ ap (ltb s) (sym (latest_change-chain inner.versions key)))
