-- ===== src/Raft/Server/Replication/Stores.antt =====
-- raft/Server.cc `handleRequest(AppendEntriesRequest)`, steps 3 and 4: which log they leave.
use x.Base.{
  ℕ, suc, ◌+◌, ◌-◌, ◌<◌, ◌≤◌, ◌≡◌, ◌≢◌, refl, sym, ap, ◌∙◌, arith, List, [], ◌∷◌, ◌++◌, length,
  get_elem?, take, drop, some, append_assoc, append-nil, length-append, length-drop, take-all, ◌^◌,
  ◌%◌,
}
use x.Raft.Rpc.{LogEntry, AppendEntriesRequest}
use x.Raft.Storage.{Storage, latest_index, append_log_entry, truncate_log}
use x.Raft.Server.{get_log_term, find_conflict, append_new, last_index, store_entries}

-- Where both lists have an entry, the entries have the same term.
abbrev pub SameTerms : List LogEntry → List LogEntry → Type 0
SameTerms [] es = Unit
SameTerms (b ∷ bs) [] = Unit
SameTerms (b ∷ bs) (e ∷ es) = (e.term ≡ b.term) × SameTerms bs es

get_elem?-middle :
    (xs : List LogEntry) (y : LogEntry) (ys : List LogEntry)
    → get_elem? (xs ++ y ∷ ys) (length xs) ≡ some y
get_elem?-middle [] y ys = refl
get_elem?-middle (x ∷ xs) y ys = get_elem?-middle xs y ys

get_log_term-middle :
    (st : Storage) (i : ℕ) (xs : List LogEntry) (y : LogEntry) (ys : List LogEntry)
    → st.log ≡ xs ++ y ∷ ys
    → i ≡ length xs
    → (get_log_term st i ≡ y.term) × (i ≤ latest_index st)
unfolding get_log_term
get_log_term-middle st i xs y ys h n =
    let size : length st.log ≡ length xs + suc (length ys) =
      ap length h ∙ length-append xs (y ∷ ys) in
    let here : get_elem? st.log i ≡ some y =
      ap (λ (l : List LogEntry). get_elem? l i) h
      ∙ ap (get_elem? (xs ++ y ∷ ys)) n
      ∙ get_elem?-middle xs y ys in
    let inside : i ≤ latest_index st = omega arith in (ground arith, inside)

append_new_lem : (st : Storage) (es : List LogEntry) → (append_new st es).log ≡ st.log ++ es
unfolding append_new
append_new_lem st [] = sym (append-nil st.log)
append_new_lem st (e ∷ es) =
    append_new_lem (append_log_entry st e) es ∙ append_assoc st.log (e ∷ []) es

find_conflict-next :
    (st : Storage) (i : ℕ) (es : List LogEntry)
    → i + 1 < 2 ^ 64
    → find_conflict st ((i + 1) % 2 ^ 64) es ≡ find_conflict st (i + 1) es
find_conflict-next st i es h = ap (λ (n : ℕ). find_conflict st n es) (omega (arith, h))

find_conflict-same :
    (st : Storage) (i : ℕ) (xs ys es : List LogEntry)
    → st.log ≡ xs ++ ys
    → i ≡ length xs
    → 0 < i
    → i + length es < 2 ^ 64
    → SameTerms ys es
    → find_conflict st i es ≡ (st, drop (length ys) es)
unfolding find_conflict
find_conflict-same st i xs [] [] h n pos fits same = refl
find_conflict-same st i xs (y ∷ ys) [] h n pos fits same = refl
find_conflict-same st i xs [] (e ∷ es) h n pos fits same =
    let size : length st.log ≡ length xs = ap length (h ∙ append-nil xs) in ground arith
find_conflict-same st i xs (y ∷ ys) (e ∷ es) h n pos fits (term, same) =
    let split : st.log ≡ (xs ++ y ∷ []) ++ ys = h ∙ sym (append_assoc xs (y ∷ []) ys) in
    let rest =
      find_conflict-next st i es (omega (arith, fits))
      ∙ find_conflict-same st (i + 1) (xs ++ y ∷ []) ys es split
          (omega (arith, length-append xs (y ∷ []))) (omega arith) (omega (arith, fits)) same in
    let (found, inside) = get_log_term-middle st i xs y ys h n in
    ground (arith, rest, found, inside)

find_conflict-differs :
    (st : Storage) (i : ℕ) (xs ys rest : List LogEntry) (old : LogEntry)
    (same fresh : List LogEntry) (new : LogEntry)
    → st.log ≡ xs ++ (ys ++ old ∷ rest)
    → i ≡ length xs
    → 0 < i
    → i + length same + suc (length fresh) < 2 ^ 64
    → SameTerms ys same
    → length ys ≡ length same
    → new.term ≢ old.term
    → find_conflict st i (same ++ new ∷ fresh) ≡ (truncate_log st (i + length ys - 1), new ∷ fresh)
unfolding find_conflict
find_conflict-differs st i xs [] rest old [] fresh new h n pos fits agree size other =
    let (found, inside) = get_log_term-middle st i xs old rest h n in
    let place : (i + (2 ^ 64 - 1)) % 2 ^ 64 ≡ i + 0 - 1 = omega (arith, pos, fits) in
    ground (arith, found, inside, place)
find_conflict-differs st i xs [] rest old (e ∷ same) fresh new h n pos fits agree size other =
    absurd (omega arith)
find_conflict-differs st i xs (y ∷ ys) rest old [] fresh new h n pos fits agree size other =
    absurd (omega arith)
find_conflict-differs st i xs (y ∷ ys) rest old (e ∷ same) fresh new h n pos fits (term, agree) size
      other =
    let split : st.log ≡ (xs ++ y ∷ []) ++ (ys ++ old ∷ rest) =
      h ∙ sym (append_assoc xs (y ∷ []) (ys ++ old ∷ rest)) in
    let later =
      find_conflict-next st i (same ++ new ∷ fresh) (omega (arith, fits))
      ∙ find_conflict-differs st (i + 1) (xs ++ y ∷ []) ys rest old same fresh new split
          (omega (arith, length-append xs (y ∷ []))) (omega arith) (omega (arith, fits)) agree
          (omega arith) other in
    let (found, inside) = get_log_term-middle st i xs y (ys ++ old ∷ rest) h n in
    let place : i + 1 + length ys - 1 ≡ i + suc (length ys) - 1 = omega arith in
    ground (arith, later, found, inside, place)

-- How many of the entries that step 3 leaves are appended, and the log then.
abbrev count : AppendEntriesRequest → Storage × List LogEntry → ℕ
count req r =
    suc (last_index req) - (req.prev_log_index + 1 + (length req.entries - length (r.1))) % 2 ^ 64

abbrev appended : AppendEntriesRequest → Storage × List LogEntry → List LogEntry
appended req r = (append_new r.0 (take (count req r) r.1)).log

-- Below 2^64 no index wraps around.
abbrev pub NoWrap : AppendEntriesRequest → Type 0
NoWrap req = req.prev_log_index + 1 + length req.entries < 2 ^ 64

-- Then all entries are appended that step 3 leaves.
store_entries_lem :
    (st cut : Storage) (req : AppendEntriesRequest) (new : List LogEntry)
    → NoWrap req
    → find_conflict st (req.prev_log_index + 1) req.entries ≡ (cut, new)
    → length new ≤ length req.entries
    → (store_entries st req).log ≡ cut.log ++ new
unfolding store_entries
store_entries_lem st cut req new fits found size =
    let start : (req.prev_log_index + 1) % 2 ^ 64 ≡ req.prev_log_index + 1 = omega (arith, fits) in
    ap (λ (r : Storage × List LogEntry). appended req r)
      (ap (λ (n : ℕ). find_conflict st n req.entries) start ∙ found)
    ∙ append_new_lem cut (take (count req (cut, new)) new)
    ∙ ap (λ (l : List LogEntry). cut.log ++ l)
        (take-all (count req (cut, new)) new (omega (arith, fits, size)))

find_conflict-end :
    (st : Storage) (i : ℕ) (es : List LogEntry)
    → length st.log ≡ i
    → 0 < i
    → find_conflict st i es ≡ (st, es)
unfolding find_conflict
find_conflict-end st i [] h pos = refl
find_conflict-end st i (e ∷ es) h pos = ground (arith, h, pos)

-- A log that ends at the previous index gets a front of the entries.
pub store_entries-end :
    (st : Storage) (req : AppendEntriesRequest)
    → length st.log ≡ req.prev_log_index + 1
    → req.prev_log_index + 1 < 2 ^ 64
    → (k : ℕ) × ((store_entries st req).log ≡ st.log ++ take k req.entries)
unfolding store_entries
store_entries-end st req n small =
    let start : (req.prev_log_index + 1) % 2 ^ 64 ≡ req.prev_log_index + 1 = omega (arith, small) in
    let k = count req (st, req.entries) in
    (
      k,
      ap (appended req) (
            ap (λ (i : ℕ). find_conflict st i req.entries) start
            ∙ find_conflict-end st (req.prev_log_index + 1) req.entries n (omega arith))
          ∙ append_new_lem st (take k req.entries),
    )

-- What a request leaves of a log that has `xs` up to the previous index and `ys` after it, when no
-- entry of the request has another term than the entry of `ys` in its place: all of it, and then
-- the entries of the request that it did not have.
pub store_entries-same :
    (st : Storage) (req : AppendEntriesRequest) (xs ys : List LogEntry)
    → NoWrap req
    → st.log ≡ xs ++ ys
    → length xs ≡ req.prev_log_index + 1
    → SameTerms ys req.entries
    → (store_entries st req).log ≡ xs ++ ys ++ drop (length ys) req.entries
store_entries-same st req xs ys fits h n same =
    store_entries_lem st st req (drop (length ys) req.entries) fits
      (find_conflict-same st (req.prev_log_index + 1) xs ys req.entries h (sym n) (omega arith) fits
        same)
      (omega (arith, length-drop (length ys) req.entries))
    ∙ ap (λ (l : List LogEntry). l ++ drop (length ys) req.entries) h

pub store_entries-differs :
    (st : Storage) (req : AppendEntriesRequest) (xs ys rest : List LogEntry) (old : LogEntry)
    (same fresh : List LogEntry) (new : LogEntry)
    → NoWrap req
    → st.log ≡ xs ++ (ys ++ old ∷ rest)
    → length xs ≡ req.prev_log_index + 1
    → req.entries ≡ same ++ new ∷ fresh
    → SameTerms ys same
    → length ys ≡ length same
    → new.term ≢ old.term
    → (store_entries st req).log
      ≡ take (length (xs ++ ys) - 1) (xs ++ (ys ++ old ∷ rest)) ++ new ∷ fresh
store_entries-differs st req xs ys rest old same fresh new fits h n es agree size other =
    let sent = ap length es ∙ length-append same (new ∷ fresh) in
    let cut = truncate_log st (req.prev_log_index + 1 + length ys - 1) in
    let place : req.prev_log_index + 1 + length ys - 1 ≡ length (xs ++ ys) - 1 =
      omega (arith, length-append xs ys) in
    store_entries_lem st cut req (new ∷ fresh) fits
      (ap (find_conflict st (req.prev_log_index + 1)) es
        ∙ find_conflict-differs st (req.prev_log_index + 1) xs ys rest old same fresh new h (sym n)
            (omega arith) (omega (arith, fits, sent)) agree size other)
      (omega (arith, sent))
    ∙ ap (λ (l : List LogEntry). take (req.prev_log_index + 1 + length ys - 1) l ++ new ∷ fresh) h
    ∙ ap (λ (k : ℕ). take k (xs ++ (ys ++ old ∷ rest)) ++ new ∷ fresh) place
