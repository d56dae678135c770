-- ===== src/Store.antt =====
-- waku/waku_store: a query for messages and its answer. The translation to and from the archive is
-- in waku/node/waku_node.nim. A request is taken as its decoder gives it, and a response before its
-- encoder; generated ids, connections and metrics are left out.
pub mod Aligned
pub mod Limits
pub mod Paging
mod Tests
use nwaku.Base.{
  ℕ, ◌==◌, if◌then◌else◌, Bool, true, false, Option, none, some, List, [], ◌∷◌, ◌++◌, map, codes,
  ◌>>=◌,
}
use nwaku.Message.{WakuMessage}
use nwaku.RateLimit.{TokenBucket, check_usage}
use nwaku.Archive.Queue.{QueueDriver}
use nwaku.Archive.Pages.{Criteria}
use nwaku.Archive.Find.{
  ArchiveCursor, ArchiveQuery, ArchiveResult, response, driver_error, invalid_query, crashed_query,
  find_messages,
}
use nwaku.Archive.Resuming.{hash_cursor}

pub record StoreQueryRequest : Type 0 where
  pub request_id : List ℕ
  pub include_data : Bool
  pub criteria : Criteria
  pub pagination_cursor : Option ℕ
  pub pagination_forward : Bool
  pub pagination_limit : Option ℕ

pub record WakuMessageKeyValue : Type 0 where
  pub message_hash : ℕ
  pub message : Option WakuMessage
  pub pubsub_topic : Option (List ℕ)

pub record StoreQueryResponse : Type 0 where
  pub request_id : List ℕ
  pub status_code : ℕ
  pub status_desc : List ℕ
  pub messages : List WakuMessageKeyValue
  pub pagination_cursor : Option ℕ

abbrev pub empty_response : StoreQueryResponse
empty_response = record {
  request_id = [];
  status_code = 0;
  status_desc = [];
  messages = [];
  pagination_cursor = none;
}

pub data StoreError : Type 0 where
  unknown too_many_requests service_unavailable : StoreError
  bad_response bad_request peer_dial_failure : List ℕ → StoreError

abbrev pub code : StoreError → ℕ
code unknown = 0
code (bad_response e) = 300
code (bad_request e) = 400
code too_many_requests = 429
code service_unavailable = 503
code (peer_dial_failure a) = 504

abbrev pub describe : StoreError → List ℕ
describe unknown = codes "UNKNOWN"
describe (bad_response e) = codes "BAD_RESPONSE: " ++ e
describe (bad_request e) = codes "BAD_REQUEST: " ++ e
describe too_many_requests = codes "TOO_MANY_REQUESTS"
describe service_unavailable = codes "SERVICE_UNAVAILABLE"
describe (peer_dial_failure a) = codes "PEER_DIAL_FAILURE: " ++ a

-- `StoreError.new`: a code that is none of these is unknown.
abbrev pub new_error : ℕ → List ℕ → StoreError
new_error c desc =
    if c == 300
    then bad_response desc
    else (if c == 400
        then bad_request desc
        else (if c == 429
            then too_many_requests
            else (if c == 503
                then service_unavailable
                else (if c == 504 then peer_dial_failure desc else unknown))))

-- A response, an error, or a Defect, which ends the program.
pub data StoreQueryResult : Type 0 where
  found : StoreQueryResponse → StoreQueryResult
  failed : StoreError → StoreQueryResult
  ended : StoreQueryResult

-- The cursor of a request is only a hash.
abbrev pub archive_cursor : Option ℕ → Option ArchiveCursor
archive_cursor none = none
archive_cursor (some hash) = some (hash_cursor hash)

abbrev pub page_size : Option ℕ → ℕ
page_size none = 0
page_size (some limit) = limit

abbrev pub to_archive_query : StoreQueryRequest → ArchiveQuery
to_archive_query request = record {
  include_data = request.include_data;
  criteria = request.criteria;
  cursor = archive_cursor request.pagination_cursor;
  page_size = page_size request.pagination_limit;
  ascending = request.pagination_forward;
}

abbrev pub key_value : ℕ → WakuMessageKeyValue
key_value hash = record { message_hash = hash; message = none; pubsub_topic = none }

-- An index that is out of range is a Defect.
unfoldable pub with_data :
    List WakuMessageKeyValue → List WakuMessage → List (List ℕ) → Option (List WakuMessageKeyValue)
with_data kvs [] topics = some kvs
with_data [] (m ∷ ms) topics = none
with_data (kv ∷ kvs) (m ∷ ms) [] = none
with_data (kv ∷ kvs) (m ∷ ms) (t ∷ ts) =
    with_data kvs ms ts >>= λ r. some (record kv { message = some m; pubsub_topic = some t } ∷ r)

abbrev pub hash_of_cursor : Option ArchiveCursor → Option ℕ
hash_of_cursor none = none
hash_of_cursor (some c) = some c.hash

abbrev pub with_messages :
    Option ArchiveCursor → Option (List WakuMessageKeyValue) → StoreQueryResult
with_messages cursor none = ended
with_messages cursor (some kvs) = found (record {
  request_id = [];
  status_code = 200;
  status_desc = codes "OK";
  messages = kvs;
  pagination_cursor = hash_of_cursor cursor;
})

unfoldable pub to_store_result : ArchiveResult → StoreQueryResult
to_store_result (response r) =
    with_messages r.cursor (with_data (map key_value r.hashes) r.messages r.topics)
to_store_result (driver_error e) =
    failed (new_error 300 (codes "archive error: " ++ (codes "DIRVER_ERROR: " ++ e)))
to_store_result (invalid_query e) =
    failed (new_error 300 (codes "archive error: " ++ (codes "INVALID_QUERY: " ++ e)))
to_store_result crashed_query = ended

unfoldable pub request_handler : QueueDriver → StoreQueryRequest → StoreQueryResult
request_handler d request = to_store_result (find_messages d (to_archive_query request))

-- What the decoder makes of a request.
pub data Decoded : Type 0 where
  decoded : StoreQueryRequest → Decoded
  undecodable : List ℕ → Decoded

abbrev pub answer : List ℕ → StoreQueryResult → Option StoreQueryResponse
answer id (found r) =
    some (record r { request_id = id; status_code = 200; status_desc = codes "OK" })
answer id (failed e) =
    some (record empty_response { status_code = code e; status_desc = describe e })
answer id ended = none

unfoldable pub handle_query_request : QueueDriver → Decoded → Option StoreQueryResponse
handle_query_request d (undecodable e) =
    some (record empty_response {
      status_code = 400;
      status_desc = codes "decoding rpc failed: " ++ e;
    })
handle_query_request d (decoded request) = answer request.request_id (request_handler d request)

abbrev pub rejection : StoreQueryResponse
rejection = record empty_response {
  request_id = codes "N/A";
  status_code = 429;
  status_desc = codes "TOO_MANY_REQUESTS";
}

-- The handler of a stream: a request beyond the limit is not decoded.
unfoldable pub handler :
    Option TokenBucket → QueueDriver → Decoded → ℕ → Option TokenBucket × Option StoreQueryResponse
handler bucket d request now =
    let (bucket', served) = check_usage bucket now in
    (bucket', if served then handle_query_request d request else some rejection)

-- What the client makes of a response.
unfoldable pub client_result : StoreQueryResponse → StoreQueryResult
client_result r =
    if r.status_code == 200 then found r else failed (new_error r.status_code r.status_desc)
