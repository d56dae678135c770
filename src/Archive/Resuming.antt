-- ===== src/Archive/Resuming.antt =====
-- waku/waku_archive: what of a cursor leads behind the item that it was made of.
use nwaku.Base.{
  ◌≢◌, ℕ, ◌≡◌, ◌∙◌, sym, ap, ap₂, arith, Bool, true, false, some, List, [], ◌∷◌, ◌++◌, All, subst,
}
use nwaku.Archive.SortedSet.{Sorted}
use nwaku.Archive.Index.{cmp}
use nwaku.Archive.Queue.{Item, QueueDriver}
use nwaku.Archive.Pages.{row_of, walk_to_cursor}
use nwaku.Archive.Find.{ArchiveCursor, to_index, cursor_of}
use nwaku.Archive.Cursors.{Distinct, walk_to_cursor-middle, walk-Distinct, walk-All, All-middle}
use nwaku.Archive.Index.{eq_index}
use nwaku.Archive.Paging.{Resumes}

-- The set is in order, and an index has the time of its message.
pub record IsStored (d : QueueDriver) : Type 0 where
  pub sorted : Sorted cmp d.items
  pub timed : All (λ e. e.0.sender_time ≡ e.1.timestamp) d.items

abbrev pub whole_cursor : ArchiveCursor → ArchiveCursor
whole_cursor c = c

-- A cursor that has only a hash.
abbrev pub hash_cursor : ℕ → ArchiveCursor
hash_cursor h = record { digest = 0; store_time = 0; sender_time = 0; pubsub_topic = []; hash = h }

pub whole_cursor-Resumes :
    (d : QueueDriver) (forward : Bool) → IsStored d → Resumes whole_cursor d forward
whole_cursor-Resumes d forward stored before behind last whole =
    let distinct : Distinct (before ++ last ∷ behind) =
      subst Distinct whole (walk-Distinct forward d.items stored.sorted) in
    let timed : last.0.sender_time ≡ last.1.timestamp =
      All-middle (λ e. e.0.sender_time ≡ e.1.timestamp) before last behind
        (subst (All (λ e. e.0.sender_time ≡ e.1.timestamp)) whole
          (walk-All (λ e. e.0.sender_time ≡ e.1.timestamp) forward d.items stored.timed)) in
    let same : to_index (cursor_of (row_of last)) ≡ last.0 =
      ap (λ t. record last.0 { sender_time = t }) (sym timed) in
    ap₂ walk_to_cursor same whole ∙ walk_to_cursor-middle before last behind distinct

-- Behind the item with this hash, where no item has the same key and the senders have set the times.
walk_to_hash :
    (xs : List Item) (e : Item) (r : List Item)
    → Distinct (xs ++ e ∷ r)
    → All (λ f. f.0.sender_time ≢ 0) (xs ++ e ∷ r)
    → walk_to_cursor (to_index (hash_cursor e.0.hash)) (xs ++ e ∷ r) ≡ some r
unfolding walk_to_cursor eq_index
walk_to_hash [] e r d h =
    let same : eq_index e.0 (to_index (hash_cursor e.0.hash)) ≡ true = ground arith in rw same
walk_to_hash (x ∷ xs) e r d h =
    let apart : eq_index x.0 e.0 ≡ false = All-middle (λ f. eq_index x.0 f.0 ≡ false) xs e r d.0 in
    let other : eq_index x.0 (to_index (hash_cursor e.0.hash)) ≡ false =
      ground (arith, apart, h.0) in
    rw other (walk_to_hash xs e r d.1 h.1)

pub hash_cursor-Resumes :
    (d : QueueDriver) (forward : Bool)
    → Sorted cmp d.items
    → All (λ e. e.0.sender_time ≢ 0) d.items
    → Resumes (λ c. hash_cursor c.hash) d forward
hash_cursor-Resumes d forward sorted timed before behind last whole =
    let distinct : Distinct (before ++ last ∷ behind) =
      subst Distinct whole (walk-Distinct forward d.items sorted) in
    let set_times : All (λ e. e.0.sender_time ≢ 0) (before ++ last ∷ behind) =
      subst (All (λ e. e.0.sender_time ≢ 0)) whole
        (walk-All (λ e. e.0.sender_time ≢ 0) forward d.items timed) in
    ap (walk_to_cursor (to_index (hash_cursor last.0.hash))) whole
    ∙ walk_to_hash before last behind distinct set_times
