-- ===== src/Archive/Handled.antt =====
-- waku/waku_archive/archive.nim: the archive behind any sequence of messages that are relayed to it.
use nwaku.Base.{
  ℕ, suc, ◌≤◌, ◌≡◌, refl, none, some, Option, List, [], ◌∷◌, All, length, map, inl, inr, ◌>>=◌, ◌∙◌,
}
use nwaku.Message.{WakuMessage}
use nwaku.Archive.SortedSet.{SortedSet}
use nwaku.Archive.Index.{Index, Key, cmp, IsRegular}
use nwaku.Archive.Queue.{QueueDriver, new, Put, index_of, puts, put, kept}
use nwaku.Archive.Unbounded.{store_all, newest}
use nwaku.Archive.Pages.{walk, keep, matches_query}
use nwaku.Archive.Find.{ArchiveQuery, ArchiveResponse}
use nwaku.Archive.Responses.{hash_of}
use nwaku.Archive.Resuming.{whole_cursor}
use nwaku.Archive.Paging.{pages, gathered}
use nwaku.Archive.Stored.{puts-pages}
use nwaku.Archive.Handle.{
  Hashes, validate, Validated-cases, validate_iff, IsAdmissible, put_of, handle_message,
}

-- A message that is relayed on a topic, with the two readings of the clock.
pub record Arrival : Type 0 where
  pub topic : List ℕ
  pub message : WakuMessage
  pub now : ℕ
  pub later : ℕ

after_same :
    {A : Type 0} {f g : A → Option A} (o : Option A) → ((a : A) → f a ≡ g a) → (o >>= f) ≡ (o >>= g)
after_same none h = refl
after_same (some a) h = h a

module _ (set : SortedSet Index WakuMessage cmp) (hashes : Hashes) where
  unfoldable pub handles : QueueDriver → List Arrival → Option QueueDriver
  handles d [] = some d
  handles d (a ∷ more) =
      handle_message set hashes d a.topic a.message a.now a.later >>= λ d'. handles d' more

  -- These are the puts of the admissible messages among the arrivals, in their order.
  pub data IsAdmitted : List Arrival → List Put → Type 0 where
    nothing : IsAdmitted [] []
    admit :
        {a : Arrival} {more : List Arrival} {ps : List Put}
        → IsAdmissible a.now a.message
        → IsAdmitted more ps
        → IsAdmitted (a ∷ more) (put_of set hashes a.topic a.message a.later ∷ ps)
    pass_over :
        {a : Arrival} {more : List Arrival} {ps : List Put}
        → ¬ IsAdmissible a.now a.message
        → IsAdmitted more ps
        → IsAdmitted (a ∷ more) ps

  handle_message-admissible :
      (d : QueueDriver) (a : Arrival)
      → IsAdmissible a.now a.message
      → handle_message set hashes d a.topic a.message a.now a.later
        ≡ kept d (put set d (put_of set hashes a.topic a.message a.later))
  unfolding handle_message
  handle_message-admissible d a h = rw ((validate_iff a.now a.message).1 h) refl

  handle_message-inadmissible :
      (d : QueueDriver) (a : Arrival)
      → ¬ IsAdmissible a.now a.message
      → handle_message set hashes d a.topic a.message a.now a.later ≡ some d
  unfolding handle_message
  handle_message-inadmissible d a h = elim (Validated-cases (validate a.now a.message)) [
    | inl valid ↦ absurd (h ((validate_iff a.now a.message).0 valid))
    | inr (e, bad) ↦ rw bad refl
  ]

  handles-puts :
      (d : QueueDriver) (arrivals : List Arrival) (ps : List Put)
      → IsAdmitted arrivals ps
      → handles d arrivals ≡ puts set d ps
  unfolding handles puts
  handles-puts d _ _ nothing = refl
  handles-puts d _ _ (admit {a} {more} {ps} h r) = rw (handle_message-admissible d a h) (
      after_same (kept d (put set d (put_of set hashes a.topic a.message a.later)))
        (λ d'. handles-puts d' more ps r))
  handles-puts d _ _ (pass_over {a} {more} {ps} h r) =
      rw (handle_message-inadmissible d a h) (handles-puts d more ps r)

  -- Of messages that are relayed one after the other to an archive with an empty queue, of a capacity
  -- that is not 0, those are admitted that are not ephemeral, and have no time or one at most 20
  -- seconds from the clock's. If those admitted have a time, and no two of them with other times,
  -- digests or topics have the same hash: a client that follows the cursors of a query with at most
  -- ten content topics gets, in as many requests as there are messages in the queue and one more, the
  -- hashes of those of the newest messages admitted, as many as the capacity, that the query matches,
  -- each once, in the order of the walk.
  pub handles-pages :
      (origin : ℕ → Key) (n : ℕ) (arrivals : List Arrival) (ps : List Put) (q : ArchiveQuery)
      → 1 ≤ n
      → IsAdmitted arrivals ps
      → All (λ p. IsRegular origin (index_of p)) ps
      → length q.criteria.content_topics ≤ 10
      → (d : QueueDriver) × (rs : List ArchiveResponse) × (handles (new n) arrivals ≡ some d)
        × (pages whole_cursor (suc (length d.items)) d (record q { cursor = none }) ≡ some rs)
        × (gathered q.ascending rs
            ≡ map hash_of
                (keep (matches_query q.criteria) (walk q.ascending (newest n (store_all [] ps)))))
  handles-pages origin n arrivals ps q positive admitted regular few =
      let (d, rs, filled, found, order) = puts-pages origin set n positive ps regular q few in
      (d, rs, handles-puts (new n) arrivals ps admitted ∙ filled, found, order)
