-- ===== src/Archive/Paging.antt =====
-- waku/waku_archive/archive.nim: what a client gets that asks for page after page, each time with the
-- cursor of the response before.
use nwaku.Base.{
  ℕ, zero, suc, ◌+◌, ◌-◌, ◌≤◌, ◌<◌, ◌≡◌, ◌∙◌, refl, sym, ap, ap₂, arith, Bool, true, false, Option,
  none, some, List, [], ◌∷◌, ◌++◌, length, take, map, get_elem?, Bool-cases, inl, inr, subst,
  length-append, le→ltb, leb→le, take-all, take-take, get_elem?-take, length-take, ◌>>=◌, ltb, leb,
}
use mathlib.Core.List.{reverse, reverse-cons, append_assoc, append-nil, map-append}
use nwaku.Archive.Queue.{Item, QueueDriver}
use nwaku.Archive.Pages.{
  row_of, walk, start_of, fill_first, keep, matches_query, get_page, get_messages,
}
use nwaku.Archive.Find.{
  ArchiveCursor, ArchiveQuery, ArchiveResponse, ArchiveResult, response, driver_error,
  invalid_query, crashed_query, to_index, cursor_of, map_cursor, in_time, max_page_size,
  find_messages, respond_rows,
}
use nwaku.Archive.Responses.{hash_of, Answers, last-Answers, more-Answers}
use nwaku.Archive.Split.{IsSplit, keep-IsSplit}

abbrev pub after_cursor :
    (ArchiveCursor → Option (List ArchiveResponse))
    → ArchiveResponse
    → Option ArchiveCursor
    → Option (List ArchiveResponse)
after_cursor more r none = some (r ∷ [])
after_cursor more r (some c) = more c >>= λ rs. some (r ∷ rs)

abbrev pub after_result :
    (ArchiveCursor → Option (List ArchiveResponse)) → ArchiveResult → Option (List ArchiveResponse)
after_result more (response r) = after_cursor more r r.cursor
after_result more (driver_error e) = none
after_result more (invalid_query e) = none
after_result more crashed_query = none

-- The responses up to the first one without a cursor, in at most so many requests; `none` if there
-- is an error, or more to ask for. `resume` says what of a cursor the next request has.
unfoldable pub pages :
    (ArchiveCursor → ArchiveCursor) → ℕ → QueueDriver → ArchiveQuery → Option (List ArchiveResponse)
pages resume zero d q = none
pages resume (suc n) d q =
    after_result (λ c. pages resume n d (record q { cursor = some (resume c) })) (find_messages d q)

-- The hashes of all responses, in the order of the walk.
abbrev pub gathered : Bool → List ArchiveResponse → List ℕ
gathered forward [] = []
gathered forward (r ∷ rs) = in_time forward r.hashes ++ gathered forward rs

-- What is kept of a cursor leads behind the item that it was made of.
abbrev pub Resumes : (ArchiveCursor → ArchiveCursor) → QueueDriver → Bool → Type 0
Resumes resume d forward =
    (before behind : List Item) (last : Item)
    → walk forward d.items ≡ before ++ last ∷ behind
    → start_of forward (some (to_index (resume (cursor_of (row_of last))))) d.items ≡ some behind

length-reverse : (xs : List Item) → length (reverse xs) ≡ length xs
length-reverse [] = refl
length-reverse (x ∷ xs) =
    rw reverse-cons (omega (arith, length-append (reverse xs) (x ∷ []), length-reverse xs))

length-walk : (forward : Bool) (items : List Item) → length (walk forward items) ≡ length items
length-walk true items = refl
length-walk false items = length-reverse items

module _ (resume : ArchiveCursor → ArchiveCursor) (d : QueueDriver) (q : ArchiveQuery)
    (resumes : Resumes resume d q.ascending) where
  abbrev matches : Item → Bool
  matches = matches_query q.criteria

  -- A query with a cursor.
  abbrev query : Option ArchiveCursor → ArchiveQuery
  query c = record q { cursor = c }

  size-pos : 1 ≤ max_page_size q.page_size
  size-pos = ground arith

  find_rows :
      (few : length q.criteria.content_topics ≤ 10) (c : Option ArchiveCursor) (l : List Item)
      → start_of q.ascending (map_cursor c) d.items ≡ some l
      → find_messages d (query c)
        ≡ respond_rows
            (query c)
            (max_page_size q.page_size)
            (map row_of (take (max_page_size q.page_size + 1) (keep matches l)))
  unfolding find_messages get_messages get_page
  find_rows few c l start =
      let allowed : ltb 10 (length q.criteria.content_topics) ≡ false = le→ltb _ _ few in
      rw (allowed, start)
        (ap (respond_rows (query c) (max_page_size q.page_size))
          (fill_first (max_page_size q.page_size + 1) matches l))

  -- Within so many requests, the responses have the hashes of these items.
  abbrev Found : ℕ → Option ArchiveCursor → List Item → Type 0
  Found n c es =
      (rs : List ArchiveResponse) × (pages resume n d (query c) ≡ some rs)
      × (gathered q.ascending rs ≡ map hash_of es)

  last_page :
      (n : ℕ) (c : Option ArchiveCursor) (es : List Item) {result : ArchiveResult}
      → find_messages d (query c) ≡ result
      → Answers (query c) none es result
      → Found (suc n) c es
  unfolding pages
  last_page n c es found (r, answered, cursor, hashes) = (
    r ∷ [],
    rw (found, answered, cursor) refl,
    append-nil (in_time q.ascending r.hashes) ∙ hashes,
  )

  more_pages :
      (n : ℕ) (c : Option ArchiveCursor) (c' : ArchiveCursor) (es fs : List Item)
      {result : ArchiveResult}
      → find_messages d (query c) ≡ result
      → Answers (query c) (some c') es result
      → Found n (some (resume c')) fs
      → Found (suc n) c (es ++ fs)
  unfolding pages
  more_pages n c c' es fs found (r, answered, cursor, hashes) (rs, behind, rest) = (
    r ∷ rs,
    rw (found, answered, cursor, behind) refl,
    ap₂ (λ xs ys. xs ++ ys) hashes rest ∙ sym (map-append hash_of es fs),
  )

  -- The walk from `c` on, behind `before`.
  record IsBehind (c : Option ArchiveCursor) (before l : List Item) : Type 0 where
    start : start_of q.ascending (map_cursor c) d.items ≡ some l
    whole : walk q.ascending d.items ≡ before ++ l

  abbrev cursor_at : Item → Option ArchiveCursor
  cursor_at e = some (resume (cursor_of (row_of e)))

  split-IsBehind :
      (c : Option ArchiveCursor) (n : ℕ) (before l : List Item)
      → IsBehind c before l
      → (split : IsSplit matches n l)
      → IsBehind (cursor_at split.last) ((before ++ split.before) ++ split.last ∷ []) split.behind
  split-IsBehind c n before l b split =
      let whole : walk q.ascending d.items ≡ (before ++ split.before) ++ split.last ∷ split.behind =
        b.whole ∙ ap (λ t. before ++ t) split.whole ∙ sym (append_assoc before split.before _) in
      record {
        start = resumes (before ++ split.before) split.behind split.last whole;
        whole = whole ∙ sym (append_assoc (before ++ split.before) (split.last ∷ []) split.behind);
      }

  -- A full page, and the pages behind its last item.
  full_page :
      (few : length q.criteria.content_topics ≤ 10) (n : ℕ) (c : Option ArchiveCursor)
      (before l : List Item)
      → IsBehind c before l
      → max_page_size q.page_size < length (keep matches l)
      → (split : IsSplit matches (max_page_size q.page_size - 1) l)
      → Found n (cursor_at split.last) (keep matches split.behind)
      → Found (suc n) c (keep matches l)
  full_page few n c before l b long split rest =
      let size = max_page_size q.page_size in
      let positive : 1 ≤ size = size-pos in
      let ks = keep matches l in
      let page = take (size + 1) ks in
      let count : length page ≡ suc size = omega (arith, long, length-take (size + 1) ks) in
      let last : get_elem? page (size - 1) ≡ some split.last =
        get_elem?-take (size + 1) ks (size - 1) (omega (arith, positive)) ∙ split.place in
      let one_more : suc (size - 1) ≡ size = omega (arith, positive) in
      let kept : take size page ++ keep matches split.behind ≡ ks =
        ap (λ t. t ++ keep matches split.behind)
          (take-take size (size + 1) ks (omega arith) ∙ ap (λ n. take n ks) (sym one_more))
        ∙ sym split.rest in
      subst (Found (suc n) c) kept (
        more_pages n c (cursor_of (row_of split.last)) (take size page) (keep matches split.behind)
          (find_rows few c l b.start)
          (more-Answers (query c) size page split.last positive count last) rest)

  pages_from :
      (few : length q.criteria.content_topics ≤ 10) (n : ℕ) (c : Option ArchiveCursor)
      (before l : List Item)
      → IsBehind c before l
      → length l < n
      → Found n c (keep matches l)
  pages_from few zero c before l b enough = absurd (omega (arith, enough))
  pages_from few (suc n) c before l b enough =
      let size = max_page_size q.page_size in
      let ks = keep matches l in
      elim (Bool-cases (leb (length ks) size)) [
        | inl end ↦
            let short : length ks ≤ size = leb→le _ _ end in
            let all : take (size + 1) ks ≡ ks = take-all (size + 1) ks (omega (arith, short)) in
            last_page n c ks
              (find_rows few c l b.start
                ∙ ap (λ es. respond_rows (query c) size (map row_of es)) all)
              (last-Answers (query c) size ks short)
        | inr further ↦
            let long : size < length ks = ground (arith, further) in
            let at_end : size - 1 < length ks = omega (arith, long) in
            let split = keep-IsSplit matches (size - 1) l at_end in
            let fewer : length l ≡ length split.before + suc (length split.behind) =
              ap length split.whole ∙ length-append split.before (split.last ∷ split.behind) in
            full_page few n c before l b long split (
              pages_from few n (cursor_at split.last) ((before ++ split.before) ++ split.last ∷ [])
                split.behind (split-IsBehind c (size - 1) before l b split)
                (omega (arith, enough, fewer)))
      ]

  -- A client that follows the cursors from a query with none and with at most ten content topics
  -- comes to an end: within as many requests as there are messages, and
  -- one more. The responses have the hashes of the messages that the query matches, all of them,
  -- each once, in the order of the walk.
  pub pages-gathered :
      length q.criteria.content_topics ≤ 10
      → (rs : List ArchiveResponse) × (pages resume
            (suc (length d.items))
            d
            (record q { cursor = none })
          ≡ some rs)
        × (gathered q.ascending rs
            ≡ map hash_of (keep (matches_query q.criteria) (walk q.ascending d.items)))
  pages-gathered few =
      pages_from few (suc (length d.items)) none [] (walk q.ascending d.items)
        (record { start = refl; whole = refl }) (omega (arith, length-walk q.ascending d.items))
