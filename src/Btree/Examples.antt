-- ===== src/Btree/Examples.antt =====
-- A tree whose root has been split.
use nutdb.Prelude.{ℕ, zero, suc, ◌≡◌, refl, some, none, List, [], ◌∷◌, Bool, length}
use nutdb.Prelude.Io.{ok, ◌>>=◌}
use nutdb.Bytes.{Bytes}
use nutdb.Btree.{
  BtreeIndex, Node, new, insert, get, delete, replace, grow_root, insert_non_full, at_index, search,
  is_leaf, vacant, insert_in_leaf, insert_at, put_node, prepare_child, split_child, split_list,
  split_children, side_of, get_from, entries, collect, collect_keys, without, insert_all, range,
  within, keep_within,
}

-- The keys 1 to `count`, inserted from the last on.
abbrev numbers : ℕ → List (Bytes × Bytes)
numbers zero = []
numbers (suc count) = (suc count ∷ [], 7 ∷ []) ∷ numbers count

abbrev child_counts : List Node → List ℕ
child_counts [] = []
child_counts (node ∷ nodes) = length node.children ∷ child_counts nodes

-- The root, and the number of children of each node.
abbrev shape : BtreeIndex → ℕ × List ℕ
shape tree = (tree.root, child_counts tree.nodes)

tall : (insert_all (numbers 17) new >>= λ tree. ok (shape tree)) ≡ ok (1, 0 ∷ 2 ∷ 0 ∷ [])
unfolding insert_all insert new replace grow_root insert_non_full at_index search is_leaf vacant
    insert_in_leaf insert_at put_node prepare_child split_child split_list split_children side_of
tall = refl

tall_found : (insert_all (numbers 17) new >>= λ tree. get tree (16 ∷ [])) ≡ ok (some (7 ∷ []))
unfolding insert_all insert new replace grow_root insert_non_full at_index search is_leaf vacant
    insert_in_leaf insert_at put_node prepare_child split_child split_list split_children side_of
    get get_from
tall_found = refl

tall_deleted :
    (insert_all (numbers 17) new >>= λ tree.
    delete (9 ∷ []) tree >>= λ (deleted : Bool × BtreeIndex). get deleted.1 (9 ∷ []))
    ≡ ok none
unfolding insert_all insert new replace grow_root insert_non_full at_index search is_leaf vacant
    insert_in_leaf insert_at put_node prepare_child split_child split_list split_children side_of
    get get_from delete entries collect collect_keys without
tall_deleted = refl

tall_range :
    (insert_all (numbers 17) new >>= λ tree. range (9 ∷ []) (11 ∷ []) tree)
    ≡ ok ((9 ∷ [], 7 ∷ []) ∷ (10 ∷ [], 7 ∷ []) ∷ [])
unfolding insert_all insert new replace grow_root insert_non_full at_index search is_leaf vacant
    insert_in_leaf insert_at put_node prepare_child split_child split_list split_children side_of
    range within keep_within entries collect collect_keys
tall_range = refl
