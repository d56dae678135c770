-- ===== src/Archive/Responses.antt =====
-- waku/waku_archive/archive.nim: what `findMessages` makes of the rows of the driver.
use nwaku.Base.{
  ℕ, suc, ◌-◌, ◌≤◌, ◌≡◌, ◌∙◌, refl, ap, arith, Bool, true, false, Option, none, some, List, [], ◌∷◌,
  length, take, map, get_elem?, min, ltb, take-all, take-map, length-map, get_elem?-map, lt→ltb,
  le→ltb,
}
use mathlib.Core.List.{reverse-reverse}
use nwaku.Archive.Queue.{Item}
use nwaku.Archive.Pages.{ArchiveRow, row_of}
use nwaku.Archive.Find.{
  ArchiveCursor, ArchiveQuery, ArchiveResponse, ArchiveResult, response, cursor_of, in_time,
  respond_rows, respond,
}

in_time-in_time : (forward : Bool) (xs : List ℕ) → in_time forward (in_time forward xs) ≡ xs
in_time-in_time true xs = refl
in_time-in_time false xs = reverse-reverse xs

in_time-nil : (forward : Bool) → in_time {A = ℕ} forward [] ≡ []
in_time-nil true = refl
in_time-nil false = refl

abbrev pub hash_of : Item → ℕ
hash_of e = e.0.hash

map-row_of : (es : List Item) → map ArchiveRow.hash (map row_of es) ≡ map hash_of es
map-row_of [] = refl
map-row_of (e ∷ es) = ap (◌∷◌ (hash_of e)) (map-row_of es)

-- A response with the hashes of some items, in the order of the walk, and with a cursor.
abbrev pub Answers : ArchiveQuery → Option ArchiveCursor → List Item → ArchiveResult → Type 0
Answers q cursor es result =
    (r : ArchiveResponse) × (result ≡ response r)
    × (r.cursor ≡ cursor)
    × (in_time q.ascending r.hashes ≡ map hash_of es)

respond-Answers :
    (q : ArchiveQuery) (es : List Item) (cursor : Option ArchiveCursor)
    → Answers q cursor es (respond q (map row_of es) cursor)
respond-Answers q es cursor = (
  _,
  refl,
  refl,
  in_time-in_time q.ascending (map ArchiveRow.hash (map row_of es)) ∙ map-row_of es,
)

empty-Answers : (q : ArchiveQuery) (size : ℕ) → Answers q none [] (respond_rows q size [])
empty-Answers q size = (_, refl, refl, in_time-nil q.ascending)

-- No more rows than a page has.
pub last-Answers :
    (q : ArchiveQuery) (size : ℕ) (es : List Item)
    → length es ≤ size
    → Answers q none es (respond_rows q size (map row_of es))
last-Answers q size [] h = empty-Answers q size
last-Answers q size (e ∷ es) h =
    let rows = map row_of (e ∷ es) in
    let count : length rows ≡ suc (length es) = length-map row_of (e ∷ es) in
    let fits : ltb size (length rows) ≡ false = le→ltb _ _ (omega (arith, count, h)) in
    let all : take (min (length rows) size) rows ≡ rows =
      take-all _ rows (omega (arith, count, h)) in
    rw (fits, all) (respond-Answers q (e ∷ es) none)

-- One row more than a page has.
pub more-Answers :
    (q : ArchiveQuery) (size : ℕ) (es : List Item) (last : Item)
    → 1 ≤ size
    → length es ≡ suc size
    → get_elem? es (size - 1) ≡ some last
    → Answers q
        (some (cursor_of (row_of last)))
        (take size es)
        (respond_rows q size (map row_of es))
more-Answers q size [] last positive h is = absurd (omega (arith, h))
more-Answers q size (e ∷ es) last positive h is =
    let rows = map row_of (e ∷ es) in
    let count : length rows ≡ suc size = length-map row_of (e ∷ es) ∙ h in
    let more : ltb size (length rows) ≡ true = lt→ltb _ _ (omega (arith, count)) in
    let place : length rows - 2 ≡ size - 1 = omega (arith, count, positive) in
    let row : get_elem? rows (length rows - 2) ≡ some (row_of last) =
      ap (get_elem? rows) place ∙ get_elem?-map row_of (e ∷ es) (size - 1) last is in
    let short : min (length rows) size ≡ size = omega (arith, count) in
    let page : take (min (length rows) size) rows ≡ map row_of (take size (e ∷ es)) =
      ap (λ n. take n rows) short ∙ take-map row_of size (e ∷ es) in
    rw (more, row, page) (respond-Answers q (take size (e ∷ es)) (some (cursor_of (row_of last))))
