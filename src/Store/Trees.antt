-- ===== src/Store/Trees.antt =====
-- What the commands of a log make of the tree of src/store.rs.
use nutdb.Prelude.{◌≡◌, refl, List, [], ◌∷◌, ◌++◌, All, map}
use nutdb.Prelude.Io.{Result, ok, err, ◌>>=◌}
use nutdb.Command.{Command, encode, decode}
use nutdb.Btree.{BtreeIndex}
use nutdb.Store.{apply_memory, apply_records}

-- The commands, applied in order.
abbrev pub replay_tree : List Command → BtreeIndex → Result BtreeIndex
replay_tree [] t = ok t
replay_tree (c ∷ cs) t = apply_memory c t >>= λ t'. replay_tree cs t'

then_replay :
    (r : Result BtreeIndex) (cs ds : List Command)
    → ((t : BtreeIndex) → replay_tree (cs ++ ds) t ≡ (replay_tree cs t >>= replay_tree ds))
    → (r >>= λ t. replay_tree (cs ++ ds) t) ≡ ((r >>= λ t. replay_tree cs t) >>= replay_tree ds)
then_replay (ok t) cs ds h = h t
then_replay (err e) cs ds h = refl

pub replay_tree-append :
    (cs ds : List Command) (t : BtreeIndex)
    → replay_tree (cs ++ ds) t ≡ (replay_tree cs t >>= replay_tree ds)
replay_tree-append [] ds t = refl
replay_tree-append (c ∷ cs) ds t = then_replay (apply_memory c t) cs ds (replay_tree-append cs ds)

abbrev pub Readable : Command → Type 0
Readable c = decode (encode c) ≡ ok c

then_records :
    (r : Result BtreeIndex) (cs : List Command)
    → ((t : BtreeIndex) → apply_records (map encode cs) t ≡ replay_tree cs t)
    → (r >>= λ t. apply_records (map encode cs) t) ≡ (r >>= λ t. replay_tree cs t)
then_records (ok t) cs h = h t
then_records (err e) cs h = refl

-- The records of commands do to a tree what the commands do.
pub apply_records-encode :
    (cs : List Command) (t : BtreeIndex)
    → All Readable cs
    → apply_records (map encode cs) t ≡ replay_tree cs t
unfolding apply_records
apply_records-encode [] t r = refl
apply_records-encode (c ∷ cs) t r =
    rw (r.0, apply_records)
      (then_records (apply_memory c t) cs (λ t'. apply_records-encode cs t' r.1))
