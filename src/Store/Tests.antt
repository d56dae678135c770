-- ===== src/Store/Tests.antt =====
-- The store protocol on concrete messages, and its theorem at a concrete input.
use nwaku.Base.{
  ℕ, suc, ◌≡◌, refl, arith, true, false, none, some, List, [], ◌∷◌, All, length, map, codes,
}
use nwaku.Archive.ListSet.{set}
use nwaku.Archive.Index.{Key, IsRegular}
use nwaku.Archive.Queue.{QueueDriver, new, Put, index_of, puts}
use nwaku.Archive.Unbounded.{store_all, newest}
use nwaku.Archive.Pages.{walk, keep, matches_query}
use nwaku.Archive.Responses.{hash_of}
use nwaku.RateLimit.{
  TokenBucket, check_usage, try_consume, take_tokens, mark_full, update, too_early,
}
use nwaku.Base.{◌≤◌, ◌+◌}
use nwaku.Store.Limits.{Query, answered, answered-le_budget}
use nwaku.Base.{◌++◌, ◌>>=◌}
use nwaku.Store.{
  client_result, rejection, failed, too_many_requests, bad_request, handler, handle_query_request,
  undecodable,
}
use nwaku.Store.{StoreQueryRequest, StoreQueryResponse}
use nwaku.Store.Paging.{Grants, store_pages, listed, puts-store_pages}

abbrev put_at : ℕ → Put
put_at time = record {
  pubsub_topic = codes "/waku/2/rs/1/0";
  message = record {
    payload = [];
    content_topic = codes "/a/1/b/c";
    meta = [];
    version = 0;
    timestamp = time;
    ephemeral = false;
    proof = [];
  };
  digest = time;
  message_hash = time;
  received_time = time;
}

abbrev origin : ℕ → Key
origin h = (h, (h, codes "/waku/2/rs/1/0"))

abbrev sent : List Put
sent = put_at 30 ∷ put_at 10 ∷ put_at 20 ∷ []

sent-IsRegular : All (λ p. IsRegular origin (index_of p)) sent
sent-IsRegular = (
  record { timed = omega arith; known = refl },
  (
    record { timed = omega arith; known = refl },
    (record { timed = omega arith; known = refl }, tt),
  ),
)

abbrev request : StoreQueryRequest
request = record {
  request_id = codes "a";
  include_data = true;
  criteria = record {
    content_topics = codes "/a/1/b/c" ∷ [];
    pubsub_topic = none;
    start_time = some 5;
    end_time = none;
    hashes = [];
  };
  pagination_cursor = none;
  pagination_forward = true;
  pagination_limit = some 1;
}

-- Three requests in the period, and no more.
abbrev paging_bucket : TokenBucket
paging_bucket = record {
  budget = 3;
  budget_cap = 3;
  last_time_full = 5000000000;
  fill_duration = 1000000000;
}

abbrev paging_clock : ℕ → ℕ
paging_clock k = 5100000000 + k

paging-Grants : Grants 3 (some paging_bucket) paging_clock
unfolding check_usage try_consume take_tokens mark_full update too_early
paging-Grants = (refl, (refl, (refl, tt)))

puts-store_pages_example :
    (d : QueueDriver) × (ss : List StoreQueryResponse) × (puts set (new 2) sent ≡ some d)
    × (store_pages (suc (length d.items)) (some paging_bucket) paging_clock d request ≡ some ss)
    × (listed true ss
        ≡ map hash_of
            (keep (matches_query request.criteria) (walk true (newest 2 (store_all [] sent)))))
puts-store_pages_example =
    puts-store_pages origin set 2 (omega arith) sent sent-IsRegular (some paging_bucket)
      paging_clock request paging-Grants (omega arith)

-- Two requests in the period.
abbrev bucket : TokenBucket
bucket = record {
  budget = 2;
  budget_cap = 2;
  last_time_full = 5000000000;
  fill_duration = 1000000000;
}

abbrev query_at : ℕ → Query
query_at now = record { driver = new 2; request = undecodable (codes "e"); now = now }

abbrev queries : List Query
queries = query_at 5100000000 ∷ query_at 5200000000 ∷ query_at 5300000000 ∷ []

answered_two : answered (some bucket) queries ≡ 2
unfolding answered handler handle_query_request check_usage try_consume take_tokens mark_full update
    too_early
answered_two = refl

answered-le_budget_example :
    (answered (some bucket) queries ≤ 2 + 2)
    × (5000000000 ≤ bucket.last_time_full → answered (some bucket) queries ≤ 2)
answered-le_budget_example =
    answered-le_budget bucket 5000000000 queries (omega arith)
      ((omega arith, omega arith), ((omega arith, omega arith), ((omega arith, omega arith), tt)))

-- The client knows what was wrong, if the request was not decoded or there were too many.
rejection_known : client_result rejection ≡ failed too_many_requests
unfolding client_result
rejection_known = refl

undecodable_known :
    (e : List ℕ)
    → (handle_query_request (new 2) (undecodable e) >>= λ r. some (client_result r))
      ≡ some (failed (bad_request (codes "decoding rpc failed: " ++ e)))
unfolding client_result handle_query_request
undecodable_known e = refl
