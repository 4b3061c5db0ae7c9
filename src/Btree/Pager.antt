-- ===== src/Btree/Pager.antt =====
-- src/pager.rs: `Pager`, a cache of pages over a file. The file is its bytes; it grows with zeros
-- where it is written behind its end. Its directory and its handle are not modelled.
use nutdb.Prelude.{
  ℕ, ◌+◌, ◌-◌, ◌*◌, ◌%◌, ◌/◌, Bool, true, false, not, Option, none, some, [], ◌∷◌, ◌++◌, ltb, leb,
  ◌==◌, if◌then◌else◌, length, take, drop, replicate,
}
use nutdb.Prelude.Io.{Result, ok, err, ErrorKind, invalid, input, panic, ◌>>=◌}
use nutdb.Prelude.Order.{nat_order}
use nutdb.Prelude.TreeMap
use nutdb.Prelude.TreeMap.{TreeMap}
use nutdb.Bytes.{Bytes}
use nutdb.Page.{page_size}

pub record CachedPage : Type 0 where
  pub bytes : Bytes
  pub dirty : Bool
  pub touched : ℕ

pub record Pager : Type 0 where
  pub file : Bytes
  pub capacity : ℕ
  pub clock : ℕ
  pub pages : ℕ
  pub cache : TreeMap ℕ CachedPage

unfoldable pub open_inner : Bytes → ℕ → Result Pager
open_inner file capacity =
    if capacity == 0
    then input "pager: cache capacity must be positive"
    else if not (length file % page_size == 0)
    then invalid "pager: file ends in a partial page"
    else ok (record {
      file = file;
      capacity = capacity;
      clock = 0;
      pages = length file / page_size;
      cache = [];
    })

-- A new file is empty.
unfoldable pub create : ℕ → Result Pager
unfolding open_inner
create capacity = open_inner [] capacity

-- `set_len`
unfoldable pub set_len : ℕ → Bytes → Bytes
set_len size file = take size file ++ replicate (size - length file) 0

-- `seek` and `write_all`
unfoldable pub write_file : ℕ → Bytes → Bytes → Bytes
unfolding set_len
write_file offset bytes file = set_len offset file ++ bytes ++ drop (offset + length bytes) file

unfoldable pub flush_one : ℕ → Pager → Pager
unfolding write_file
flush_one id pager = elim (TreeMap.get id pager.cache) [
  | none ↦ pager
  | some page ↦
      if page.dirty
      then record pager {
        file = write_file (id * page_size) page.bytes pager.file;
        cache = TreeMap.insert id (record page { dirty = false }) pager.cache;
      }
      else pager
]

-- The page that was touched first, with the time.
unfoldable pub least_recent : TreeMap ℕ CachedPage → Option (ℕ × ℕ)
least_recent [] = none
least_recent ((id, page) ∷ cache) = elim (least_recent cache) [
  | none ↦ some (id, page.touched)
  | some (other, touched) ↦
      if leb page.touched touched then some (id, page.touched) else some (other, touched)
]

unfoldable pub evict_if_needed : Pager → Result Pager
unfolding least_recent flush_one
evict_if_needed pager =
    if ltb (length pager.cache) pager.capacity then ok pager else elim (least_recent pager.cache) [
      | none ↦ panic "non-empty cache"
      | some (victim, touched) ↦
          let flushed = flush_one victim pager in
          ok (record flushed { cache = TreeMap.remove victim flushed.cache })
    ]

unfoldable pub ensure_loaded : ℕ → Pager → Result Pager
unfolding evict_if_needed
ensure_loaded id pager =
    if not (ltb id pager.pages)
    then err (record { kind = ErrorKind.not_found; message = "pager: page not found" })
    else elim (TreeMap.get id pager.cache) [
      | some page ↦ ok pager
      | none ↦ evict_if_needed pager >>= λ pager.
          let bytes = take page_size (drop (id * page_size) pager.file) in
          if ltb (length bytes) page_size
          then err (record { kind = ErrorKind.other; message = "failed to fill whole buffer" })
          else ok (record pager {
            cache =
                TreeMap.insert id (record { bytes = bytes; dirty = false; touched = pager.clock })
                  pager.cache;
          })
    ]

unfoldable pub read : ℕ → Pager → Result (Bytes × Pager)
unfolding ensure_loaded
read id pager = ensure_loaded id pager >>= λ pager. elim (TreeMap.get id pager.cache) [
  | none ↦ panic "loaded page"
  | some page ↦ ok (
    page.bytes,
    record pager {
      clock = pager.clock + 1;
      cache = TreeMap.insert id (record page { touched = pager.clock + 1 }) pager.cache;
    },
  )
]

-- The cache with room for a page.
unfoldable pub make_room : ℕ → Pager → Result Pager
unfolding evict_if_needed
make_room id pager = elim (TreeMap.get id pager.cache) [
  | some page ↦ ok pager
  | none ↦ evict_if_needed pager
]

unfoldable pub write : ℕ → Bytes → Pager → Result Pager
unfolding make_room
write id bytes pager =
    if ltb pager.pages id
    then input "pager: page id skips allocation"
    else (let known : Pager =
          if id == pager.pages then record pager { pages = pager.pages + 1 } else pager in
        make_room id known >>= λ pager. ok (record pager {
          clock = pager.clock + 1;
          cache =
              TreeMap.insert id (record { bytes = bytes; dirty = true; touched = pager.clock + 1 })
                pager.cache;
        }))

unfoldable pub allocate : Pager → Result (ℕ × Pager)
unfolding write
allocate pager =
    write pager.pages (replicate page_size 0) (record pager { pages = pager.pages + 1 })
    >>= λ after. ok (pager.pages, after)

unfoldable pub flush_all : TreeMap ℕ CachedPage → Pager → Pager
unfolding flush_one
flush_all [] pager = pager
flush_all ((id, page) ∷ cache) pager =
    flush_all cache (if page.dirty then flush_one id pager else pager)

unfoldable pub flush : Pager → Pager
unfolding flush_all set_len
flush pager =
    let written = flush_all pager.cache pager in
    record written { file = set_len (pager.pages * page_size) written.file }
