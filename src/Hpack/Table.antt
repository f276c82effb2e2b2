-- ===== src/Hpack/Table.antt =====
-- src/xzero/http/hpack/DynamicTable.cc: the table of recent header fields, newest first.
-- `size_` wraps at 64 bits as a `size_t` does. Taking the last entry of an empty deque is undefined.
pub mod Eviction
pub mod Lookup
use x.Base.{
  ℕ, zero, suc, ◌+◌, ◌-◌, ◌*◌, ◌%◌, ◌^◌, ◌<◌, ◌≤◌, ◌≡◌, Bool, true, false, ◌&&◌, List, [], ◌∷◌,
  Bytes, length, get_elem?, ltb, ◌==◌, if◌then◌else◌, Option, none, some, Outcome, ok, raise,
  undefined,
}

pub record TableEntry : Type 0 where
  pub name : Bytes
  pub value : Bytes

pub record DynamicTable : Type 0 where
  pub max_size : ℕ
  pub size : ℕ
  pub entries : List TableEntry

-- `DynamicTable::HeaderFieldOverheadSize`.
abbrev pub header_field_overhead_size : ℕ
header_field_overhead_size = 32

abbrev pub entry_size : TableEntry → ℕ
entry_size e = length e.name + length e.value + header_field_overhead_size

abbrev pub empty_table : ℕ → DynamicTable
empty_table max_size = record { max_size = max_size; size = 0; entries = [] }

-- `std::string::operator==`.
unfoldable pub equal : Bytes → Bytes → Bool
equal [] [] = true
equal (x ∷ xs) (y ∷ ys) = x == y && equal xs ys
equal _ _ = false

-- `entries_.back()` and `entries_.pop_back()`.
pub back : List TableEntry → Option TableEntry
back [] = none
back (e ∷ []) = some e
back (e ∷ d ∷ es) = back (d ∷ es)

pub pop_back : List TableEntry → List TableEntry
pop_back [] = []
pop_back (e ∷ []) = []
pop_back (e ∷ d ∷ es) = e ∷ pop_back (d ∷ es)

-- One round of the loop of `evict`.
pub evict_last : DynamicTable → Option TableEntry → Outcome DynamicTable
evict_last t none = raise undefined
evict_last t (some e) =
    ok (record t { size = (t.size + 2 ^ 64 - entry_size e) % 2 ^ 64; entries = pop_back t.entries })

-- `while (size_ > maxSize_)`. A round takes an entry, so their number bounds the rounds; the one
-- more that the fuel allows is the undefined one.
unfoldable pub evict_loop : ℕ → DynamicTable → Outcome DynamicTable
evict_loop zero t = raise undefined
evict_loop (suc fuel) t = elim (ltb t.max_size t.size) [
  | false ↦ ok t
  | true ↦ elim (evict_last t (back t.entries)) [ ok u ↦ evict_loop fuel u | raise f ↦ raise f ]
]

unfoldable pub evict : DynamicTable → Outcome DynamicTable
unfolding evict_loop
evict t = evict_loop (suc (length t.entries)) t

unfoldable pub set_max_size : DynamicTable → ℕ → Outcome DynamicTable
set_max_size t limit = evict (record t { max_size = limit })

unfoldable pub add : DynamicTable → TableEntry → Outcome DynamicTable
add t e = evict (record t { size = (t.size + entry_size e) % 2 ^ 64; entries = e ∷ t.entries })

unfoldable pub clear : DynamicTable → DynamicTable
clear t = record t { size = 0; entries = [] }

-- `find`: the first entry of that name, and whether its value is that value too.
unfoldable pub find_from : ℕ → List TableEntry → TableEntry → Option (ℕ × Bool)
unfolding equal
find_from i [] e = none
find_from i (x ∷ xs) e =
    let later = find_from (i + 1) xs e in
    if equal e.name x.name then some (i, equal e.value x.value) else later

unfoldable pub find : DynamicTable → TableEntry → Option (ℕ × Bool)
unfolding find_from
find t e = find_from 0 t.entries e

-- `at`; past the end the source reads outside of the deque.
unfoldable pub at : DynamicTable → ℕ → Option TableEntry
at t index = get_elem? t.entries index
