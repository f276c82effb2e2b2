-- ===== src/Hpack/Static.antt =====
-- src/xzero/http/hpack/StaticTable.cc: the table of common header fields, and its binary search.
pub mod Lookup
use Prim.Native.Nat.{compare, Ordering}
use Prim.Native.String.{String}
use x.Base.{
  ℕ, zero, suc, ◌+◌, ◌-◌, ◌/◌, ◌<◌, Bool, true, false, List, [], ◌∷◌, Bytes, codes, length,
  get_elem?, leb, ltb, if◌then◌else◌, Option, none, some, Outcome, ok, raise, undefined, ◌>>=◌,
}
use x.Hpack.Table.{TableEntry, equal}

abbrev entry : String → String → TableEntry
entry n v = record { name = codes n; value = codes v }

-- `entries_`.
unfoldable pub entries : List TableEntry
entries =
    entry ":authority" ""
    ∷ entry ":method" "GET"
    ∷ entry ":method" "POST"
    ∷ entry ":path" "/"
    ∷ entry ":path" "/index.html"
    ∷ entry ":scheme" "http"
    ∷ entry ":scheme" "https"
    ∷ entry ":status" "200"
    ∷ entry ":status" "204"
    ∷ entry ":status" "206"
    ∷ entry ":status" "304"
    ∷ entry ":status" "400"
    ∷ entry ":status" "404"
    ∷ entry ":status" "500"
    ∷ entry "accept-charset" ""
    ∷ entry "accept-encoding" "gzip, deflate"
    ∷ entry "accept-language" ""
    ∷ entry "accept-ranges" ""
    ∷ entry "accept" ""
    ∷ entry "access-control-allow-origin" ""
    ∷ entry "age" ""
    ∷ entry "allow" ""
    ∷ entry "authorization" ""
    ∷ entry "cache-control" ""
    ∷ entry "content-disposition" ""
    ∷ entry "content-encoding" ""
    ∷ entry "content-language" ""
    ∷ entry "content-length" ""
    ∷ entry "content-location" ""
    ∷ entry "content-range" ""
    ∷ entry "content-type" ""
    ∷ entry "cookie" ""
    ∷ entry "date" ""
    ∷ entry "etag" ""
    ∷ entry "expect" ""
    ∷ entry "expires" ""
    ∷ entry "from" ""
    ∷ entry "host" ""
    ∷ entry "if-match" ""
    ∷ entry "if-modified-since" ""
    ∷ entry "if-none-match" ""
    ∷ entry "if-range" ""
    ∷ entry "if-unmodified-since" ""
    ∷ entry "last-modified" ""
    ∷ entry "link" ""
    ∷ entry "location" ""
    ∷ entry "max-forwards" ""
    ∷ entry "proxy-authenticate" ""
    ∷ entry "proxy-authorization" ""
    ∷ entry "range" ""
    ∷ entry "referer" ""
    ∷ entry "refresh" ""
    ∷ entry "retry-after" ""
    ∷ entry "server" ""
    ∷ entry "set-cookie" ""
    ∷ entry "strict-transport-security" ""
    ∷ entry "transfer-encoding" ""
    ∷ entry "user-agent" ""
    ∷ entry "vary" ""
    ∷ entry "via" ""
    ∷ entry "www-authenticate" ""
    ∷ []

pub record SortedEntry : Type 0 where
  pub index : ℕ
  pub field : TableEntry

abbrev sorted_entry : ℕ → String → String → SortedEntry
sorted_entry i n v = record { index = i; field = entry n v }

-- `sortedEntries_`: the same fields, in the order of their names and values.
unfoldable pub sorted_entries : List SortedEntry
sorted_entries =
    sorted_entry 0 ":authority" ""
    ∷ sorted_entry 1 ":method" "GET"
    ∷ sorted_entry 2 ":method" "POST"
    ∷ sorted_entry 3 ":path" "/"
    ∷ sorted_entry 4 ":path" "/index.html"
    ∷ sorted_entry 5 ":scheme" "http"
    ∷ sorted_entry 6 ":scheme" "https"
    ∷ sorted_entry 7 ":status" "200"
    ∷ sorted_entry 8 ":status" "204"
    ∷ sorted_entry 9 ":status" "206"
    ∷ sorted_entry 10 ":status" "304"
    ∷ sorted_entry 11 ":status" "400"
    ∷ sorted_entry 12 ":status" "404"
    ∷ sorted_entry 13 ":status" "500"
    ∷ sorted_entry 18 "accept" ""
    ∷ sorted_entry 14 "accept-charset" ""
    ∷ sorted_entry 15 "accept-encoding" "gzip, deflate"
    ∷ sorted_entry 16 "accept-language" ""
    ∷ sorted_entry 17 "accept-ranges" ""
    ∷ sorted_entry 19 "access-control-allow-origin" ""
    ∷ sorted_entry 20 "age" ""
    ∷ sorted_entry 21 "allow" ""
    ∷ sorted_entry 22 "authorization" ""
    ∷ sorted_entry 23 "cache-control" ""
    ∷ sorted_entry 24 "content-disposition" ""
    ∷ sorted_entry 25 "content-encoding" ""
    ∷ sorted_entry 26 "content-language" ""
    ∷ sorted_entry 27 "content-length" ""
    ∷ sorted_entry 28 "content-location" ""
    ∷ sorted_entry 29 "content-range" ""
    ∷ sorted_entry 30 "content-type" ""
    ∷ sorted_entry 31 "cookie" ""
    ∷ sorted_entry 32 "date" ""
    ∷ sorted_entry 33 "etag" ""
    ∷ sorted_entry 34 "expect" ""
    ∷ sorted_entry 35 "expires" ""
    ∷ sorted_entry 36 "from" ""
    ∷ sorted_entry 37 "host" ""
    ∷ sorted_entry 38 "if-match" ""
    ∷ sorted_entry 39 "if-modified-since" ""
    ∷ sorted_entry 40 "if-none-match" ""
    ∷ sorted_entry 41 "if-range" ""
    ∷ sorted_entry 42 "if-unmodified-since" ""
    ∷ sorted_entry 43 "last-modified" ""
    ∷ sorted_entry 44 "link" ""
    ∷ sorted_entry 45 "location" ""
    ∷ sorted_entry 46 "max-forwards" ""
    ∷ sorted_entry 47 "proxy-authenticate" ""
    ∷ sorted_entry 48 "proxy-authorization" ""
    ∷ sorted_entry 49 "range" ""
    ∷ sorted_entry 50 "referer" ""
    ∷ sorted_entry 51 "refresh" ""
    ∷ sorted_entry 52 "retry-after" ""
    ∷ sorted_entry 53 "server" ""
    ∷ sorted_entry 54 "set-cookie" ""
    ∷ sorted_entry 55 "strict-transport-security" ""
    ∷ sorted_entry 56 "transfer-encoding" ""
    ∷ sorted_entry 57 "user-agent" ""
    ∷ sorted_entry 58 "vary" ""
    ∷ sorted_entry 59 "via" ""
    ∷ sorted_entry 60 "www-authenticate" ""
    ∷ []

-- `StaticTable::length`, of both tables.
abbrev pub static_length : ℕ
static_length = 61

-- `std::string::compare`: by bytes, then by length.
unfoldable pub compare_bytes : Bytes → Bytes → Ordering
compare_bytes [] [] = Ordering.eq
compare_bytes [] (y ∷ ys) = Ordering.lt
compare_bytes (x ∷ xs) [] = Ordering.gt
compare_bytes (x ∷ xs) (y ∷ ys) = elim (compare x y) [
  | Ordering.lt ↦ Ordering.lt
  | Ordering.gt ↦ Ordering.gt
  | Ordering.eq ↦ compare_bytes xs ys
]

-- The closure `compare`: the name first, then the value.
unfoldable pub compare_fields : TableEntry → TableEntry → Ordering
unfolding compare_bytes
compare_fields e d = elim (compare_bytes e.name d.name) [
  | Ordering.eq ↦ compare_bytes e.value d.value
  | Ordering.lt ↦ Ordering.lt
  | Ordering.gt ↦ Ordering.gt
]

unfoldable pub sorted_at : ℕ → Outcome SortedEntry
unfolding sorted_entries
sorted_at m = elim (get_elem? sorted_entries m) [ none ↦ raise undefined | some s ↦ ok s ]

-- How the loop of `find` ends: at a field that is equal, or with `l` and `r` next to one another.
pub data Search : Type 0 where
  hit : ℕ → Search
  window : ℕ → ℕ → Search

-- One comparison of the loop, given the search to the left and to the right.
pub branch : SortedEntry → Ordering → Outcome Search → Outcome Search → Outcome Search
branch s Ordering.lt left right = left
branch s Ordering.gt left right = right
branch s Ordering.eq left right = ok (hit s.index)

-- `while (r - l >= 2)`; the distance falls with each round, so it bounds the rounds.
unfoldable pub find_loop : ℕ → TableEntry → ℕ → ℕ → Outcome Search
unfolding branch compare_fields sorted_at
find_loop zero e l r = raise undefined
find_loop (suc fuel) e l r =
    let m = (l + r) / 2 in
    let left = find_loop fuel e l m in
    let right = find_loop fuel e m r in
    let round = (do s ← sorted_at m; branch s (compare_fields e s.field) left right) in
    if leb 2 (r - l) then round else ok (window l r)

-- The two tests behind the loop. `flag` is what `*nameValueMatch` held before the call: where only
-- the name is found, the source does not assign it.
unfoldable pub find_ends : TableEntry → Bool → SortedEntry → SortedEntry → Option (ℕ × Bool)
unfolding equal
find_ends e flag left right =
    let found_left = equal e.name left.field.name in
    let found_right = equal e.name right.field.name in
    if (if found_left then equal e.value left.field.value else false)
    then some (left.index, true)
    else if found_right
    then some (right.index, if equal e.value right.field.value then true else flag)
    else if found_left
    then some (left.index, flag)
    else none

unfoldable pub finish_find : TableEntry → Bool → Search → Outcome (Option (ℕ × Bool))
unfolding find_ends sorted_at
finish_find e flag (hit i) = ok (some (i, true))
finish_find e flag (window l r) = do
  left ← sorted_at l
  right ← sorted_at r
  ok (find_ends e flag left right)

-- `StaticTable::find`.
unfoldable pub static_find : TableEntry → Bool → Outcome (Option (ℕ × Bool))
unfolding find_loop finish_find
static_find e flag = do s ← find_loop 61 e 0 60; finish_find e flag s
