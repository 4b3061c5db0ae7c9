-- ===== src/Btree/Pages.antt =====
-- The page file of `BTreeIndex` in src/btree.rs: `save`, `load` and their helpers. The new file is
-- written under another name and renamed; the operating system does not fail here, so the old file
-- is never renamed back, and none is left under the name of the backup.
use nutdb.Prelude.{
  ℕ, zero, suc, ◌+◌, ◌-◌, ◌^◌, Bool, true, false, not, ◌&&◌, ◌||◌, Option, none, some, List, [],
  ◌∷◌, ◌++◌, ltb, ◌==◌, if◌then◌else◌, length, take, drop,
}
use nutdb.Prelude.Io.{Result, ok, err, ErrorKind, invalid, input, ◌>>=◌, ◌>>◌}
use nutdb.Bytes.{Bytes, to_le_bytes, from_le_bytes, from_utf8}
use nutdb.Page
use nutdb.Page.{SlottedPage, PageKind, decode_kind, cells, from_bytes, finish}
use nutdb.Page.Buffer.{byte_at}
use nutdb.Btree.{Node, BtreeIndex, is_leaf, new, entries, at_index}
use nutdb.Btree.Pager
use nutdb.Btree.Pager.{Pager}

-- The files of the index, by name: the page file and its backup.
pub record PageFiles : Type 0 where
  pub path : Option Bytes
  pub backup : Option Bytes

unfoldable pub encode_pair : Bytes → Bytes → Result Bytes
encode_pair key value =
    if not (ltb (length key) (2 ^ 32))
    then input "btree: key too large"
    else if not (ltb (length value) (2 ^ 32))
    then input "btree: value too large"
    else ok (to_le_bytes 4 (length key) ++ (to_le_bytes 4 (length value) ++ (key ++ value)))

-- `page.insert(cell)?`
unfoldable pub insert_cell : Bytes → SlottedPage → Result SlottedPage
insert_cell cell page = let (inserted, after) = Page.insert cell page in inserted >> ok after

-- The page of a child, in a cell.
unfoldable pub child_cell : Node → ℕ → Result Bytes
unfolding at_index
child_cell node item = at_index node.children item >>= λ child. ok (to_le_bytes 8 (child + 1))

-- The loop over the pairs of a node, from the one at `item` on.
unfoldable pub insert_pairs : Node → ℕ → List Bytes → SlottedPage → Result SlottedPage
unfolding at_index encode_pair child_cell insert_cell is_leaf
insert_pairs node item [] page = ok page
insert_pairs node item (key ∷ keys) page = do
  value ← at_index node.values item
  pair ← encode_pair key value
  right ← elim (is_leaf node) as (λ _. Result Bytes) [
    | true ↦ ok []
    | false ↦ child_cell node (item + 1)
  ]
  page ← insert_cell (pair ++ right) page
  insert_pairs node (suc item) keys page

unfoldable pub node_page : Node → Result Bytes
unfolding insert_pairs insert_cell child_cell is_leaf
node_page node = do
  page ← elim (is_leaf node) as (λ _. Result SlottedPage) [
    | true ↦ ok (Page.new PageKind.leaf)
    | false ↦ child_cell node 0 >>= λ cell. insert_cell cell (Page.new PageKind.internal)
  ]
  page ← insert_pairs node 0 node.keys page
  ok (finish page)

unfoldable pub write_nodes : ℕ → List Node → Pager → Result Pager
unfolding node_page
write_nodes index [] pager = ok pager
write_nodes index (node ∷ nodes) pager = do
  bytes ← node_page node
  pager ← Pager.write (index + 1) bytes pager
  write_nodes (suc index) nodes pager

unfoldable pub allocate_nodes : List Node → Pager → Result Pager
allocate_nodes [] pager = ok pager
allocate_nodes (node ∷ nodes) pager =
    Pager.allocate pager >>= λ (allocated : ℕ × Pager). allocate_nodes nodes allocated.1

-- The bytes of the new page file.
unfoldable pub snapshot : BtreeIndex → Result Bytes
unfolding insert_cell write_nodes allocate_nodes
snapshot tree = do
  pager ← Pager.create 64
  (meta_id, pager) ← Pager.allocate pager
  pager ← allocate_nodes tree.nodes pager
  meta ←
      insert_cell
        (to_le_bytes 8 (tree.root + 1)
          ++ (to_le_bytes 8 (length tree.nodes) ++ to_le_bytes 8 tree.len))
        (Page.new PageKind.meta)
  pager ← Pager.write 0 (finish meta) pager
  pager ← write_nodes 0 tree.nodes pager
  ok ((Pager.flush pager).file)

unfoldable pub publish_snapshot : Bytes → PageFiles → PageFiles
publish_snapshot temp files = record { path = some temp; backup = none }

unfoldable pub save : BtreeIndex → PageFiles → Result PageFiles
unfolding snapshot publish_snapshot
save tree files = snapshot tree >>= λ temp. ok (publish_snapshot temp files)

-- The key, the value and the bytes that they take.
unfoldable pub decode_pair : Bytes → Result (Bytes × Bytes × ℕ)
decode_pair cell =
    let key_len = from_le_bytes (take 4 cell) in
    let value_len = from_le_bytes (take 4 (drop 4 cell)) in
    if ltb (length cell) 8
    then invalid "btree: short cell"
    else if ltb (length cell) (8 + key_len + value_len)
    then invalid "btree: value exceeds cell"
    else (from_utf8 "btree: key is not UTF-8" (take key_len (drop 8 cell)) >>= λ key.
        from_utf8 "btree: value is not UTF-8" (take value_len (drop (8 + key_len) cell))
        >>= λ value. ok (key, value, 8 + key_len + value_len))

unfoldable pub take_u64 : Bytes → ℕ → Result ℕ
take_u64 bytes offset =
    if ltb (length bytes) (offset + 8)
    then invalid "btree: missing u64"
    else ok (from_le_bytes (take 8 (drop offset bytes)))

unfoldable pub page_to_index : ℕ → ℕ → Result ℕ
page_to_index page count =
    if page == 0 || not (ltb (page - 1) count)
    then invalid "btree: child page out of range"
    else ok (page - 1)

-- `page.kind()`, with the test that it is internal: a kind that is no node's is an error.
unfoldable pub is_internal : PageKind → Result Bool
is_internal PageKind.internal = ok true
is_internal PageKind.leaf = ok false
is_internal PageKind.meta = invalid "btree: unexpected node page kind"

unfoldable pub is_meta : PageKind → Bool
is_meta PageKind.meta = true
is_meta PageKind.internal = false
is_meta PageKind.leaf = false

-- The right child in a cell of an internal page, and none in that of a leaf.
unfoldable pub right_child : Bool → Bytes → ℕ → ℕ → Result (List ℕ)
unfolding take_u64 page_to_index
right_child true cell used count = take_u64 cell used >>= λ page.
    page_to_index page count >>= λ child.
    if used + 8 == length cell
    then ok (child ∷ [])
    else invalid "btree: trailing internal cell bytes"
right_child false cell used count =
    if used == length cell then ok [] else invalid "btree: trailing leaf cell bytes"

unfoldable pub read_pairs : Bool → ℕ → List Bytes → Node → Result Node
unfolding decode_pair right_child
read_pairs internal count [] node = ok node
read_pairs internal count (cell ∷ rest) node = do
  (key, value, used) ← decode_pair cell
  right ← right_child internal cell used count
  read_pairs internal count rest (record {
    keys = node.keys ++ key ∷ [];
    values = node.values ++ value ∷ [];
    children = node.children ++ right;
  })

-- The leftmost child of an internal page, and the cells behind it.
unfoldable pub left_child : Bool → ℕ → List Bytes → Result (List ℕ × List Bytes)
unfolding take_u64 page_to_index
left_child false count cells = ok ([], cells)
left_child true count [] = invalid "btree: internal page has no child"
left_child true count (left ∷ rest) =
    if not (length left == 8)
    then invalid "btree: malformed left child"
    else (take_u64 left 0 >>= λ page. page_to_index page count >>= λ child. ok (child ∷ [], rest))

unfoldable pub read_node : ℕ → Bytes → Result Node
unfolding is_internal left_child read_pairs is_leaf
read_node count bytes = do
  page ← from_bytes bytes
  cells ← cells page
  kind ← decode_kind (byte_at page.bytes 5)
  internal ← is_internal kind
  (children, rest) ← left_child internal count cells
  node ← read_pairs internal count rest (record { keys = []; values = []; children = children })
  elim (not (is_leaf node) && not (length node.children == length node.keys + 1)) [
    | true ↦ invalid "btree: child/key count mismatch"
    | false ↦ ok node
  ]

-- So many nodes, from the page `page_id` on.
unfoldable pub read_nodes : ℕ → ℕ → ℕ → Pager → Result (List Node)
unfolding read_node
read_nodes count page_id zero pager = ok []
read_nodes count page_id (suc left) pager = do
  (bytes, pager) ← Pager.read page_id pager
  node ← read_node count bytes
  nodes ← read_nodes count (suc page_id) left pager
  ok (node ∷ nodes)

-- The root page, the number of nodes and the number of entries.
unfoldable pub read_meta : Bytes → Result (ℕ × ℕ × ℕ)
unfolding is_meta take_u64
read_meta bytes = do
  page ← from_bytes bytes
  kind ← decode_kind (byte_at page.bytes 5)
  found ← cells page
  elim (is_meta kind) [
    | false ↦ invalid "btree: page zero is not metadata"
    | true ↦ elim found [
      | cell ∷ [] ↦
          if length cell == 24
          then (take_u64 cell 0 >>= λ root.
              take_u64 cell 8 >>= λ count. take_u64 cell 16 >>= λ len. ok (root, count, len))
          else invalid "btree: malformed metadata"
      | _ ↦ invalid "btree: malformed metadata"
    ]
  ]

unfoldable pub read_tree : Pager → Result BtreeIndex
unfolding read_meta read_nodes page_to_index entries
read_tree pager = do
  (bytes, pager') ← Pager.read 0 pager
  (root_page, count, len) ← read_meta bytes
  _ ←
      elim (root_page == 0 || count == 0 || not (pager.pages == count + 1))
        as (λ _. Result (Unit {0})) [
          | true ↦ invalid "btree: inconsistent metadata"
          | false ↦ ok tt
        ]
  nodes ← read_nodes count 1 count pager'
  root ← page_to_index root_page count
  let tree : BtreeIndex = record { nodes = nodes; root = root; len = len }
  all ← entries tree
  elim (length all == len) [ true ↦ ok tree | false ↦ invalid "btree: entry count mismatch" ]

unfoldable pub load_exact : Bytes → Result BtreeIndex
unfolding read_tree new
load_exact file = Pager.open_inner file 64 >>= λ (pager : Pager).
    if pager.pages == 0 then ok new else read_tree pager

unfoldable pub is_panic : ErrorKind → Bool
is_panic ErrorKind.panicked = true
is_panic _ = false

-- An error on the page file is given up for the backup, but a panic is not caught.
unfoldable pub load : PageFiles → Result BtreeIndex
unfolding load_exact is_panic new
load files = elim files.path [
  | some file ↦ elim (load_exact file) [
    | ok tree ↦ ok tree
    | err e ↦
        if is_panic e.kind
        then err e
        else elim files.backup [ some backup ↦ load_exact backup | none ↦ err e ]
  ]
  | none ↦ elim files.backup [ some backup ↦ load_exact backup | none ↦ ok new ]
]
