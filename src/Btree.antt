-- ===== src/Btree.antt =====
-- src/btree.rs: `BTreeIndex`, the index of the store. Nodes refer to their children by position in
-- `nodes`. A recursion goes down one level of the tree in each call, with as many levels as there
-- are nodes: a deeper one comes back to a node, and overflows the stack.
pub mod Pager
pub mod Pages
mod Examples
use nutdb.Prelude.{
  ℕ, zero, suc, ◌+◌, ◌-◌, Bool, true, false, not, ◌&&◌, Option, none, some, List, [], ◌∷◌, ◌++◌,
  ltb, ◌==◌, if◌then◌else◌, length, take, drop, get_elem?, set, map,
}
use Prim.Native.Nat.Ordering.{lt, eq, gt}
use nutdb.Prelude.Io.{Result, ok, err, panic, ◌>>=◌, ◌>>◌}
use nutdb.Prelude.Order.{same, bytes_order, compare_bytes}
use nutdb.Bytes.{Bytes}

abbrev pub min_degree : ℕ
min_degree = 8

abbrev pub max_keys : ℕ
max_keys = 15

pub record Node : Type 0 where
  pub keys : List Bytes
  pub values : List Bytes
  pub children : List ℕ

abbrev pub empty_node : Node
empty_node = record { keys = []; values = []; children = [] }

unfoldable pub is_leaf : Node → Bool
is_leaf node = length node.children == 0

pub record BtreeIndex : Type 0 where
  pub nodes : List Node
  pub root : ℕ
  pub len : ℕ

unfoldable pub new : BtreeIndex
new = record { nodes = empty_node ∷ []; root = 0; len = 0 }

-- `list[index]`
unfoldable pub at_index {ℓ} : {A : Type ℓ} → List A → ℕ → Result A
at_index list index = elim (get_elem? list index) [
  | some a ↦ ok a
  | none ↦ panic "index out of range"
]

-- `list.insert(index, a)`
unfoldable pub insert_at {ℓ} : {A : Type ℓ} → ℕ → A → List A → Result (List A)
insert_at index a list =
    if ltb (length list) index
    then panic "insertion out of range"
    else ok (take index list ++ a ∷ drop index list)

-- What `binary_search` returns on sorted keys: where the key is, or where it belongs.
pub data Slot : Type 0 where
  found missing : ℕ → Slot

unfoldable pub search : Bytes → List Bytes → ℕ → Slot
search key [] index = missing index
search key (k ∷ ks) index = elim (compare_bytes k key) [
  | lt ↦ search key ks (suc index)
  | eq ↦ found index
  | gt ↦ missing index
]

-- `expect_err("duplicates replaced before insert")`
unfoldable pub vacant : Slot → Result ℕ
vacant (found index) = panic "duplicates replaced before insert"
vacant (missing index) = ok index

abbrev pub levels : BtreeIndex → ℕ
levels tree = length tree.nodes

unfoldable pub get_from : ℕ → BtreeIndex → ℕ → Bytes → Result (Option Bytes)
unfolding at_index search is_leaf
get_from zero tree node_id key = panic "stack overflow"
get_from (suc depth) tree node_id key = do
  node ← at_index tree.nodes node_id
  elim (search key node.keys 0) [
    | found index ↦ at_index node.values index >>= λ value. ok (some value)
    | missing index ↦ elim (is_leaf node) [
      | true ↦ ok none
      | false ↦ at_index node.children index >>= λ child. get_from depth tree child key
    ]
  ]

unfoldable pub get : BtreeIndex → Bytes → Result (Option Bytes)
unfolding get_from
get tree key = get_from (levels tree) tree tree.root key

unfoldable pub put_node : ℕ → Node → BtreeIndex → BtreeIndex
put_node node_id node tree = record tree { nodes = set tree.nodes node_id node }

-- The tree, and if the key was found and its value replaced.
unfoldable pub replace : ℕ → ℕ → Bytes → Bytes → BtreeIndex → Result (Bool × BtreeIndex)
unfolding at_index search is_leaf put_node
replace zero node_id key value tree = panic "stack overflow"
replace (suc depth) node_id key value tree = do
  node ← at_index tree.nodes node_id
  elim (search key node.keys 0) [
    | found index ↦
        at_index node.values index
        >> ok (true, put_node node_id (record node { values = set node.values index value }) tree)
    | missing index ↦ elim (is_leaf node) [
      | true ↦ ok (false, tree)
      | false ↦ at_index node.children index >>= λ child. replace depth child key value tree
    ]
  ]

-- `split_off(MIN_DEGREE)` and `pop` of the keys, the values or the children: what stays, what the
-- parent takes and what goes to the right node.
unfoldable pub split_list {ℓ} : {A : Type ℓ} → List A → Result (List A × A × List A)
unfolding at_index
split_list list = do
  median ← at_index list (min_degree - 1)
  ok (take (min_degree - 1) list, median, drop min_degree list)

unfoldable pub split_children : Node → Result (List ℕ × List ℕ)
unfolding is_leaf
split_children node =
    if is_leaf node
    then ok ([], [])
    else if ltb (length node.children) min_degree
    then panic "split out of range"
    else ok (take min_degree node.children, drop min_degree node.children)

unfoldable pub split_child : ℕ → ℕ → BtreeIndex → Result BtreeIndex
unfolding at_index split_list split_children insert_at put_node
split_child parent_id child_index tree = do
  parent ← at_index tree.nodes parent_id
  child_id ← at_index parent.children child_index
  child ← at_index tree.nodes child_id
  (left_keys, median_key, right_keys) ← split_list child.keys
  (left_values, median_value, right_values) ← split_list child.values
  (left_children, right_children) ← split_children child
  let left : Node = record { keys = left_keys; values = left_values; children = left_children }
  let right : Node = record { keys = right_keys; values = right_values; children = right_children }
  let grown : BtreeIndex = record tree { nodes = set tree.nodes child_id left ++ right ∷ [] }
  parent ← at_index grown.nodes parent_id
  keys ← insert_at child_index median_key parent.keys
  values ← insert_at child_index median_value parent.values
  children ← insert_at (child_index + 1) (length tree.nodes) parent.children
  ok (put_node parent_id (record { keys = keys; values = values; children = children }) grown)

-- The child to go to after a split: the key is compared with the median.
unfoldable pub side_of : Bytes → ℕ → Bytes → Result ℕ
side_of key child_index median = elim (compare_bytes key median) [
  | gt ↦ ok (child_index + 1)
  | eq ↦ panic "duplicate after split"
  | lt ↦ ok child_index
]

-- A full child is split before the descent.
unfoldable pub prepare_child : ℕ → ℕ → Bytes → BtreeIndex → Result (ℕ × BtreeIndex)
unfolding at_index split_child side_of
prepare_child node_id child_index key tree = do
  node ← at_index tree.nodes node_id
  child_id ← at_index node.children child_index
  child ← at_index tree.nodes child_id
  elim (length child.keys == max_keys) [
    | false ↦ ok (child_index, tree)
    | true ↦ split_child node_id child_index tree >>= λ tree.
        at_index tree.nodes node_id >>= λ node. at_index node.keys child_index >>= λ median.
        side_of key child_index median >>= λ index. ok (index, tree)
  ]

unfoldable pub insert_in_leaf : ℕ → Node → ℕ → Bytes → Bytes → BtreeIndex → Result BtreeIndex
unfolding insert_at put_node
insert_in_leaf node_id node index key value tree = do
  keys ← insert_at index key node.keys
  values ← insert_at index value node.values
  ok (put_node node_id (record node { keys = keys; values = values }) tree)

unfoldable pub insert_non_full : ℕ → ℕ → Bytes → Bytes → BtreeIndex → Result BtreeIndex
unfolding at_index search vacant is_leaf prepare_child insert_in_leaf
insert_non_full zero node_id key value tree = panic "stack overflow"
insert_non_full (suc depth) node_id key value tree = do
  node ← at_index tree.nodes node_id
  index ← vacant (search key node.keys 0)
  elim (is_leaf node) [
    | true ↦ insert_in_leaf node_id node index key value tree
    | false ↦ prepare_child node_id index key tree >>= λ (prepared : ℕ × BtreeIndex).
        at_index prepared.1.nodes node_id >>= λ node. at_index node.children prepared.0 >>= λ child.
        insert_non_full depth child key value prepared.1
  ]

-- A full root becomes the first child of a new one, and is split.
unfoldable pub grow_root : BtreeIndex → Result BtreeIndex
unfolding at_index split_child
grow_root tree = do
  root ← at_index tree.nodes tree.root
  elim (length root.keys == max_keys) [
    | false ↦ ok tree
    | true ↦ split_child (length tree.nodes) 0 (record tree {
      nodes = tree.nodes ++ record { keys = []; values = []; children = tree.root ∷ [] } ∷ [];
      root = length tree.nodes;
    })
  ]

unfoldable pub insert : Bytes → Bytes → BtreeIndex → Result BtreeIndex
unfolding replace grow_root insert_non_full
insert key value tree =
    replace (levels tree) tree.root key value tree >>= λ (replaced : Bool × BtreeIndex).
    elim replaced.0 [
      | true ↦ ok replaced.1
      | false ↦ grow_root replaced.1 >>= λ tree.
          insert_non_full (levels tree) tree.root key value tree >>= λ tree.
          ok (record tree { len = tree.len + 1 })
    ]

-- The loop of `collect` over the keys of a node, from the one at `index` on; `visit` collects a
-- child.
unfoldable pub collect_keys :
    (ℕ → Result (List (Bytes × Bytes))) → Node → ℕ → List Bytes → Result (List (Bytes × Bytes))
unfolding at_index is_leaf
collect_keys visit node index [] = elim (is_leaf node) [
  | true ↦ ok []
  | false ↦ at_index node.children index >>= visit
]
collect_keys visit node index (key ∷ keys) = do
  before ← elim (is_leaf node) as (λ _. Result (List (Bytes × Bytes))) [
    | true ↦ ok []
    | false ↦ at_index node.children index >>= visit
  ]
  value ← at_index node.values index
  rest ← collect_keys visit node (suc index) keys
  ok (before ++ (key, value) ∷ rest)

unfoldable pub collect : ℕ → BtreeIndex → ℕ → Result (List (Bytes × Bytes))
unfolding at_index collect_keys
collect zero tree node_id = panic "stack overflow"
collect (suc depth) tree node_id = do
  node ← at_index tree.nodes node_id
  collect_keys (collect depth tree) node 0 node.keys

unfoldable pub entries : BtreeIndex → Result (List (Bytes × Bytes))
unfolding collect
entries tree = collect (levels tree) tree tree.root

-- `start <= key && key < end`
unfoldable pub within : Bytes → Bytes → Bytes → Bool
within start stop key = elim (compare_bytes key start) [
  | lt ↦ false
  | _ ↦ elim (compare_bytes key stop) [ lt ↦ true | _ ↦ false ]
]

unfoldable pub keep_within : Bytes → Bytes → List (Bytes × Bytes) → List (Bytes × Bytes)
unfolding within
keep_within start stop [] = []
keep_within start stop ((key, value) ∷ rest) =
    let kept = keep_within start stop rest in
    if within start stop key then (key, value) ∷ kept else kept

unfoldable pub range : Bytes → Bytes → BtreeIndex → Result (List (Bytes × Bytes))
unfolding entries keep_within
range start stop tree = entries tree >>= λ all. ok (keep_within start stop all)

unfoldable pub without : Bytes → List (Bytes × Bytes) → List (Bytes × Bytes)
without key [] = []
without key ((candidate, value) ∷ rest) =
    let kept = without key rest in
    if same ⦃o = bytes_order⦄ candidate key then kept else (candidate, value) ∷ kept

unfoldable pub insert_all : List (Bytes × Bytes) → BtreeIndex → Result BtreeIndex
unfolding insert
insert_all [] tree = ok tree
insert_all ((key, value) ∷ rest) tree = insert key value tree >>= λ tree. insert_all rest tree

unfoldable pub delete : Bytes → BtreeIndex → Result (Bool × BtreeIndex)
unfolding get entries without insert_all new
delete key tree = get tree key >>= λ held. elim held [
  | none ↦ ok (false, tree)
  | some value ↦
      entries tree >>= λ all. insert_all (without key all) new >>= λ tree. ok (true, tree)
]
