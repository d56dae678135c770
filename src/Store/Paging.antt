-- ===== src/Store/Paging.antt =====
-- waku/waku_store: a client that asks for page after page over the store protocol, each time with the
-- hash in the response before.
use nwaku.Base.{
  ℕ, subst, Option-cases, inl, inr, zero, suc, ◌≤◌, ◌≡◌, ◌∙◌, refl, ap, ap₂, Bool, Option, none,
  true, some, List, [], ◌∷◌, ◌++◌, All, length, map, length-map, ◌>>=◌, if◌then◌else◌, ◌==◌, arith,
}
use nwaku.Message.{WakuMessage}
use nwaku.RateLimit.{TokenBucket, check_usage}
use nwaku.Archive.SortedSet.{SortedSet}
use nwaku.Archive.Index.{Index, Key, cmp, IsRegular}
use nwaku.Archive.Queue.{QueueDriver, new, Put, index_of, puts}
use nwaku.Archive.Unbounded.{store_all, newest, length-newest_le}
use nwaku.Archive.Bounded.{puts-newest}
use nwaku.Archive.Pages.{walk, keep, matches_query}
use nwaku.Archive.Find.{
  ArchiveCursor, ArchiveResponse, ArchiveResult, response, driver_error, invalid_query,
  crashed_query, in_time, find_messages,
}
use nwaku.Archive.Responses.{hash_of}
use nwaku.Archive.Paging.{after_cursor, after_result, pages, gathered, pages-gathered}
use nwaku.Archive.Resuming.{hash_cursor, hash_cursor-Resumes}
use nwaku.Archive.Stored.{filled, filled-IsStored, filled-timed}
use nwaku.Store.{
  StoreQueryRequest, StoreQueryResponse, WakuMessageKeyValue, decoded, answer, hash_of_cursor,
  to_store_result, request_handler, handle_query_request, handler, to_archive_query, key_value,
}
use nwaku.Store.Aligned.{AlignedResult, find_messages-Aligned, with_data-hashes, map-key_value}

abbrev pub next_page :
    (ℕ → Option (List StoreQueryResponse))
    → StoreQueryResponse
    → Option ℕ
    → Option (List StoreQueryResponse)
next_page more r none = some (r ∷ [])
next_page more r (some h) = more h >>= λ rs. some (r ∷ rs)

abbrev pub next_pages :
    (ℕ → Option (List StoreQueryResponse))
    → Option StoreQueryResponse
    → Option (List StoreQueryResponse)
next_pages more none = none
next_pages more (some r) =
    if r.status_code == 200 then next_page more r r.pagination_cursor else none

-- The responses up to the first one without a cursor, in at most so many requests, which the handler
-- gets at the times of the clock; `none` if the status of one is not 200, or there is more to ask for.
unfoldable pub store_pages :
    ℕ
    → Option TokenBucket
    → (ℕ → ℕ)
    → QueueDriver
    → StoreQueryRequest
    → Option (List StoreQueryResponse)
store_pages zero limit clock d req = none
store_pages (suc n) limit clock d req =
    let (after, answered) = handler limit d (decoded req) (clock 0) in
    next_pages
      (λ h. store_pages n after (λ k. clock (suc k)) d (record req { pagination_cursor = some h }))
      answered

-- The limit on requests serves each of so many.
abbrev pub Grants : ℕ → Option TokenBucket → (ℕ → ℕ) → Type 0
Grants zero limit clock = Unit
Grants (suc n) limit clock =
    ((check_usage limit (clock 0)).1 ≡ true)
    × Grants n (check_usage limit (clock 0)).0 (λ k. clock (suc k))

Grants-le :
    (m n : ℕ) (limit : Option TokenBucket) (clock : ℕ → ℕ)
    → m ≤ n
    → Grants n limit clock
    → Grants m limit clock
Grants-le zero n limit clock h g = tt
Grants-le (suc m) zero limit clock h g = absurd (omega (arith, h))
Grants-le (suc m) (suc n) limit clock h (served, g) =
    (served, Grants-le m n _ _ (omega (arith, h)) g)

-- Without a limit all are served.
pub unlimited-Grants : (n : ℕ) (clock : ℕ → ℕ) → Grants n none clock
unfolding check_usage
unlimited-Grants zero clock = tt
unlimited-Grants (suc n) clock = (refl, unlimited-Grants n (λ k. clock (suc k)))

-- The hashes in all responses, in the order of the walk.
abbrev pub listed : Bool → List StoreQueryResponse → List ℕ
listed forward [] = []
listed forward (r ∷ rs) =
    in_time forward (map WakuMessageKeyValue.message_hash r.messages) ++ listed forward rs

module _ (forward : Bool) (more : ArchiveCursor → Option (List ArchiveResponse))
    (more' : ℕ → Option (List StoreQueryResponse)) where
  -- The translations have the hashes of the archive's responses.
  abbrev Follows : List ArchiveResponse → Option (List StoreQueryResponse) → Type 0
  Follows rs answers =
      (ss : List StoreQueryResponse) × (answers ≡ some ss)
      × (listed forward ss ≡ gathered forward rs)

  module _
      (follows : (c : ArchiveCursor) (rs : List ArchiveResponse)
        → more c ≡ some rs
        → Follows rs (more' c.hash)) where
    next_page-Follows :
        (r : ArchiveResponse) (r' : StoreQueryResponse) (rs : List ArchiveResponse)
        (cursor : Option ArchiveCursor)
        → map WakuMessageKeyValue.message_hash r'.messages ≡ r.hashes
        → after_cursor more r cursor ≡ some rs
        → Follows rs (next_page more' r' (hash_of_cursor cursor))
    next_page-Follows r r' rs none same h =
        let only : r ∷ [] ≡ rs = cc in
        (
          r' ∷ [],
          refl,
          subst (λ l. listed forward (r' ∷ []) ≡ gathered forward l) only
              (ap (λ hs. in_time forward hs ++ []) same),
        )
    next_page-Follows r r' rs (some c) same h = elim (Option-cases (more c)) [
      | inl nothing ↦ cc (rw nothing at h)
      | inr (rest, there) ↦
          let (ss, answered, hashes) = follows c rest there in
          let whole : ◌≡◌ {A = Option (List ArchiveResponse)} (some (r ∷ rest)) (some rs) =
            rw there at h in
          let both : r ∷ rest ≡ rs = cc in
          (
            r' ∷ ss,
            rw answered refl,
            subst (λ l. listed forward (r' ∷ ss) ≡ gathered forward l) both
                (ap₂ (λ xs ys. in_time forward xs ++ ys) same hashes),
          )
    ]

    next_pages-Follows :
        (id : List ℕ) (result : ArchiveResult) (rs : List ArchiveResponse)
        → AlignedResult result
        → after_result more result ≡ some rs
        → Follows rs (next_pages more' (answer id (to_store_result result)))
    unfolding to_store_result
    next_pages-Follows id (response r) rs aligned h =
        let count = length-map key_value r.hashes in
        let (kvs, written, same) =
          with_data-hashes (map key_value r.hashes) r.messages r.topics
            (omega (arith, count, aligned.0)) aligned.1 in
        rw written (next_page-Follows r _ rs r.cursor (same ∙ map-key_value r.hashes) h)
    next_pages-Follows id (driver_error e) rs aligned h = cc
    next_pages-Follows id (invalid_query e) rs aligned h = cc
    next_pages-Follows id crashed_query rs aligned h = cc

store_pages-Follows :
    (n : ℕ) (limit : Option TokenBucket) (clock : ℕ → ℕ) (d : QueueDriver) (req : StoreQueryRequest)
    (rs : List ArchiveResponse)
    → Grants n limit clock
    → pages (λ c. hash_cursor c.hash) n d (to_archive_query req) ≡ some rs
    → (ss : List StoreQueryResponse) × (store_pages n limit clock d req ≡ some ss)
      × (listed req.pagination_forward ss ≡ gathered req.pagination_forward rs)
unfolding pages store_pages handler handle_query_request request_handler
store_pages-Follows zero limit clock d req rs g h = cc
store_pages-Follows (suc n) limit clock d req rs (served, g) h = rw served (
    next_pages-Follows req.pagination_forward _ _
      (λ c rest there.
        store_pages-Follows n _ (λ k. clock (suc k)) d
          (record req { pagination_cursor = some c.hash }) rest g there)
      req.request_id (find_messages d (to_archive_query req)) rs
      (find_messages-Aligned d (to_archive_query req)) h)

module _ (origin : ℕ → Key) (set : SortedSet Index WakuMessage cmp) (n : ℕ) (positive : 1 ≤ n)
    (ps : List Put) (regular : All (λ p. IsRegular origin (index_of p)) ps) where
  -- Behind any sequence of puts into an empty queue of a capacity that is not 0, if the senders have
  -- set the times, and no two messages with other times, digests or topics have the same hash: a
  -- client of the store protocol, with nothing from others in between, repeats a query for at most ten
  -- content topics, each time with the hash that the response before has for a cursor. If the limit on
  -- requests serves as many of its requests as the capacity and one more, as it always does where none
  -- is set, then the client gets only responses with the status 200, and the last page within as many
  -- requests as there are messages in the queue and one more. The responses have the hashes of those of
  -- the newest messages, as many as the capacity, that the query matches, each once, in the order of
  -- the walk.
  pub puts-store_pages :
      (limit : Option TokenBucket) (clock : ℕ → ℕ) (req : StoreQueryRequest)
      → Grants (suc n) limit clock
      → length req.criteria.content_topics ≤ 10
      → (d : QueueDriver) × (ss : List StoreQueryResponse) × (puts set (new n) ps ≡ some d)
        × (store_pages
              (suc (length d.items))
              limit
              clock
              d
              (record req { pagination_cursor = none })
            ≡ some ss)
        × (listed req.pagination_forward ss
            ≡ map hash_of (
                keep
                  (matches_query req.criteria)
                  (walk req.pagination_forward (newest n (store_all [] ps)))))
  puts-store_pages limit clock req served few =
      let d = filled origin set n positive ps regular in
      let stored = filled-IsStored origin set n positive ps regular in
      let resumes =
        hash_cursor-Resumes d req.pagination_forward stored.sorted
          (filled-timed origin set n positive ps regular) in
      let (rs, all, found) =
        pages-gathered (λ c. hash_cursor c.hash) d (to_archive_query req) resumes few in
      let within = length-newest_le n (store_all [] ps) in
      let (ss, answered, same) =
        store_pages-Follows (suc (length d.items)) limit clock d
          (record req { pagination_cursor = none }) rs
          (Grants-le (suc (length (filled origin set n positive ps regular).items)) (suc n) limit
            clock (omega (arith, within)) served)
          all in
      (d, ss, puts-newest origin set n positive ps regular, answered, same ∙ found)
