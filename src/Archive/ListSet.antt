-- ===== src/Archive/ListSet.antt =====
-- A set of messages as a list in order: the laws that the archive relies on can hold.
use nwaku.Base.{◌≡◌, refl, if◌then◌else◌, List, [], ◌∷◌}
use nwaku.Message.{WakuMessage}
use nwaku.Archive.SortedSet.{SortedSet, contains_key, insert_item}
use nwaku.Archive.Index.{Index, cmp, eq_index}
use nwaku.Archive.Queue.{Item}
use nwaku.Archive.Cursors.{eq_index_refl}

abbrev pub delete_item : Index → List Item → List Item
delete_item k [] = []
delete_item k ((j, w) ∷ r) = let rest = delete_item k r in if eq_index j k then r else (j, w) ∷ rest

pub delete_item_lem : (k : Index) (w : WakuMessage) (r : List Item) → delete_item k ((k, w) ∷ r) ≡ r
delete_item_lem k w r = rw eq_index_refl

-- The set of the operations on lists.
abbrev pub set : SortedSet Index WakuMessage cmp
set = record {
  contains = λ k items. contains_key cmp k items;
  insert = λ k v items. insert_item cmp k v items;
  delete = delete_item;
  contains_lem = λ k items s. refl;
  insert_lem = λ k v items s absent. refl;
  delete_lem = λ k v items s. delete_item_lem k v items;
}
