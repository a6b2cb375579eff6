-- ===== src/Trace/TracestateEntries/Laws.antt =====
-- What `New` makes of a parent and new entries.
use opencensus_go.Trace.{Entry, Tracestate}
use opencensus_go.Trace.TracestateEntries.{
  ok, is_valid, remove, remove_all, add, add_to, duplicate_from, is_seen, contains_duplicate_key,
  are_entries_valid, check_entries, entries_of, new,
}
use opencensus_go.Prelude.{
  ◌+◌, ◌≤◌, ◌≡◌, refl, List, [], ◌∷◌, ◌++◌, true, false, Option, none, some, ltb, ◌==◌, nat_eq,
  bytes_eq, Bytes, if◌then◌else◌, length, length-append, append-nil, ap, ◌∙◌, All, All-append,
  Bool-cases, Option-cases, inl, inr, arith,
}

-- The value under a key: that of the first entry with it.
abbrev pub value_of : Bytes → List Entry → Option Bytes
value_of key [] = none
value_of key (entry ∷ entries) = if entry.key == key then some entry.value else value_of key entries

-- A value that a new one hides, and a value with a second one in its absence.
abbrev pub unless_new : Option Bytes → Option Bytes → Option Bytes
unless_new none old = old
unless_new (some v) old = none

abbrev pub or_else : Option Bytes → Option Bytes → Option Bytes
or_else none old = old
or_else (some v) old = some v

abbrev pub Distinct : List Entry → Type 0
Distinct [] = Unit {0}
Distinct (entry ∷ entries) = (value_of entry.key entries ≡ none) × Distinct entries

-- Valid entries under distinct keys, at most 32.
pub record IsValid (entries : List Entry) : Type 0 where
  pub valid : All (λ e. is_valid e ≡ true) entries
  pub distinct : Distinct entries
  pub limit : length entries ≤ 32

value_of-remove :
    (key other : Bytes) (old : List Entry)
    → Distinct old
    → value_of other (remove key old) ≡ (if key == other then none else value_of other old)
unfolding remove
value_of-remove key other [] d = ground arith
value_of-remove key other (e ∷ old) d = ground (
  arith,
  value_of-remove key other old d.1,
  bytes_eq.beq_iff key other,
  bytes_eq.beq_iff e.key key,
  bytes_eq.beq_iff e.key other,
)

remove-Distinct : (key : Bytes) (old : List Entry) → Distinct old → Distinct (remove key old)
unfolding remove
remove-Distinct key [] d = tt
remove-Distinct key (e ∷ old) d = ground (
  arith,
  remove-Distinct key old d.1,
  value_of-remove key e.key old d.1,
  bytes_eq.beq_iff e.key key,
  bytes_eq.beq_iff key e.key,
)

remove-All :
    (P : Entry → Type 0) (key : Bytes) (old : List Entry) → All P old → All P (remove key old)
unfolding remove
remove-All P key [] h = tt
remove-All P key (e ∷ old) h = elim (Bool-cases (e.key == key)) [
  | inl t ↦ rw t h.1
  | inr t ↦ rw t (h.0, remove-All P key old h.1)
]

remove_all-Distinct : (entries old : List Entry) → Distinct old → Distinct (remove_all entries old)
unfolding remove_all
remove_all-Distinct [] old d = d
remove_all-Distinct (e ∷ entries) old d =
    remove_all-Distinct entries (remove e.key old) (remove-Distinct e.key old d)

remove_all-All :
    (P : Entry → Type 0) (entries old : List Entry) → All P old → All P (remove_all entries old)
unfolding remove_all
remove_all-All P [] old h = h
remove_all-All P (e ∷ entries) old h =
    remove_all-All P entries (remove e.key old) (remove-All P e.key old h)

-- The old entries that stay are those of other keys.
value_of-remove_all :
    (key : Bytes) (entries old : List Entry)
    → Distinct old
    → value_of key (remove_all entries old) ≡ unless_new (value_of key entries) (value_of key old)
unfolding remove_all
value_of-remove_all key [] old d = refl
value_of-remove_all key (e ∷ entries) old d =
    let rest = value_of-remove_all key entries (remove e.key old) (remove-Distinct e.key old d) in
    let one = value_of-remove e.key key old d in ground (arith, rest, one)

value_of-append :
    (key : Bytes) (xs ys : List Entry)
    → value_of key (xs ++ ys) ≡ or_else (value_of key xs) (value_of key ys)
value_of-append key [] ys = refl
value_of-append key (e ∷ xs) ys = elim (Bool-cases (e.key == key)) [
  | inl t ↦ rw t refl
  | inr t ↦ rw t (value_of-append key xs ys)
]

-- Lists of distinct keys that share none.
Distinct-append :
    (xs ys : List Entry)
    → Distinct xs
    → Distinct ys
    → ((key : Bytes) → unless_new (value_of key xs) (value_of key ys) ≡ value_of key ys)
    → Distinct (xs ++ ys)
Distinct-append [] ys dx dy h = dy
Distinct-append (e ∷ xs) ys dx dy h =
    let same = (bytes_eq.beq_iff e.key e.key).1 refl in
    (
      ground (arith, value_of-append e.key xs ys, h e.key),
      Distinct-append xs ys dx.1 dy (λ key. ground (arith, h key, bytes_eq.beq_iff e.key key)),
    )

unseen_keys :
    (keys : List Bytes) (entries : List Entry)
    → duplicate_from keys entries ≡ none
    → Distinct entries × ((key : Bytes) → is_seen key keys ≡ true → value_of key entries ≡ none)
unfolding duplicate_from is_seen
unseen_keys keys [] h = (tt, λ key seen. refl)
unseen_keys keys (e ∷ entries) h = elim (Bool-cases (is_seen e.key keys)) [
  | inl t ↦ absurd (let no = rw t at h in cc)
  | inr t ↦
      let (distinct, out) = unseen_keys (e.key ∷ keys) entries (rw t at h) in
      let same = (bytes_eq.beq_iff e.key e.key).1 refl in
      (
        (out e.key (ground arith), distinct),
        λ key seen. ground (arith, out key, bytes_eq.beq_iff e.key key),
      )
]

no_repeats :
    (keys : List Bytes) (entries : List Entry)
    → Distinct entries
    → ((key : Bytes) → is_seen key keys ≡ true → value_of key entries ≡ none)
    → duplicate_from keys entries ≡ none
unfolding duplicate_from is_seen
no_repeats keys [] d out = refl
no_repeats keys (e ∷ entries) d out =
    let same = (bytes_eq.beq_iff e.key e.key).1 refl in
    let rest =
      no_repeats (e.key ∷ keys) entries d.1
        (λ key seen. ground (arith, out key, bytes_eq.beq_iff e.key key, d.0)) in
    ground (arith, rest, out e.key)

each_valid :
    (entries : List Entry) → are_entries_valid entries ≡ none → All (λ e. is_valid e ≡ true) entries
unfolding are_entries_valid
each_valid [] h = tt
each_valid (e ∷ entries) h = elim (Bool-cases (is_valid e)) [
  | inl t ↦ (t, each_valid entries (rw t at h))
  | inr t ↦ absurd (let no = rw t at h in cc)
]

all_valid :
    (entries : List Entry) → All (λ e. is_valid e ≡ true) entries → are_entries_valid entries ≡ none
unfolding are_entries_valid
all_valid [] h = refl
all_valid (e ∷ entries) h = rw h.0 (all_valid entries h.1)

length-remove : (key : Bytes) (old : List Entry) → length (remove key old) ≤ length old
unfolding remove
length-remove key [] = omega arith
length-remove key (e ∷ old) = ground (arith, length-remove key old)

length-remove_all : (entries old : List Entry) → length (remove_all entries old) ≤ length old
unfolding remove_all
length-remove_all [] old = omega arith
length-remove_all (e ∷ entries) old =
    omega (arith, length-remove_all entries (remove e.key old), length-remove e.key old)

-- The new entries before those old ones that stay.
module _ (old entries : List Entry) (v : IsValid old) where
  merged-IsValid :
      All (λ e. is_valid e ≡ true) entries
      → Distinct entries
      → length (remove_all entries old) + length entries ≤ 32
      → IsValid (entries ++ remove_all entries old)
  merged-IsValid h d k = record {
    valid =
        All-append (λ e. is_valid e ≡ true) entries (remove_all entries old) h
          (remove_all-All (λ e. is_valid e ≡ true) entries old v.valid);
    distinct =
        Distinct-append entries (remove_all entries old) d
          (remove_all-Distinct entries old v.distinct)
          (λ key. ground (arith, value_of-remove_all key entries old v.distinct));
    limit = omega (arith, length-append entries (remove_all entries old));
  }

  merged_values :
      (key : Bytes)
      → value_of key (entries ++ remove_all entries old)
        ≡ or_else (value_of key entries) (value_of key old)
  merged_values key = ground (
    arith,
    value_of-append key entries (remove_all entries old),
    value_of-remove_all key entries old v.distinct,
  )

  check_entries-eq-ok :
      (ts : Option Tracestate)
      → check_entries old entries ≡ ok ts
      → IsValid (entries_of ts)
        × ((key : Bytes)
            → value_of key (entries_of ts) ≡ or_else (value_of key entries) (value_of key old))
  unfolding check_entries add_to add contains_duplicate_key entries_of
  check_entries-eq-ok ts h = elim (Option-cases (are_entries_valid entries)) [
    | inr (bad, e) ↦ absurd (let no = rw (e, check_entries) at h in cc)
    | inl e ↦ elim (Option-cases (duplicate_from [] entries)) [
      | inr (key, f) ↦ absurd (let no = rw (e, f, check_entries) at h in cc)
      | inl f ↦ elim (Bool-cases (ltb 32 (length (remove_all entries old) + length entries))) [
        | inl g ↦ absurd (let no = rw (e, f, g, check_entries, add_to, add) at h in cc)
        | inr g ↦
            let result = rw (e, f, g, check_entries, add_to, add) at h in
            let same : some (record { entries = entries ++ remove_all entries old }) ≡ ts = cc in
            let (distinct, out) = unseen_keys [] entries f in
            rw (← same)
              (merged-IsValid (each_valid entries e) distinct (ground arith), merged_values)
      ]
    ]
  ]

  check_entries_total :
      All (λ e. is_valid e ≡ true) entries
      → Distinct entries
      → length (remove_all entries old) + length entries ≤ 32
      → check_entries old entries
        ≡ ok (some (record { entries = entries ++ remove_all entries old }))
  unfolding check_entries add_to add contains_duplicate_key is_seen
  check_entries_total h d k =
      let fits : ltb 32 (length (remove_all entries old) + length entries) ≡ false = ground arith in
      rw
        (
          all_valid entries h,
          no_repeats [] entries d (λ key seen. cc),
          fits,
          check_entries,
          add_to,
          add,
        )
        refl

-- If the parent is well formed and `New` succeeds, the result is well formed too: valid entries
-- under distinct keys, at most 32. The value under a key is that of the new entries, and where
-- they have none that of the parent.
pub new-eq-ok :
    (parent : Option Tracestate) (entries : List Entry) (ts : Option Tracestate)
    → IsValid (entries_of parent)
    → new parent entries ≡ ok ts
    → IsValid (entries_of ts)
      × ((key : Bytes)
          → value_of key (entries_of ts)
            ≡ or_else (value_of key entries) (value_of key (entries_of parent)))
unfolding new entries_of
new-eq-ok none [] ts v h = let same : none ≡ ts = cc in rw (← same) (v, λ key. refl)
new-eq-ok none (e ∷ entries) ts v h = check_entries-eq-ok [] (e ∷ entries) v ts h
new-eq-ok (some parent) entries ts v h = check_entries-eq-ok parent.entries entries v ts h

-- `New` accepts valid entries under distinct keys if they and those of the parent are at most 32
-- together.
pub new_total :
    (parent : Tracestate) (entries : List Entry)
    → IsValid parent.entries
    → IsValid entries
    → length parent.entries + length entries ≤ 32
    → (ts : Tracestate) × (new (some parent) entries ≡ ok (some ts))
unfolding new
new_total parent entries v w k = (
  record { entries = entries ++ remove_all entries parent.entries },
  check_entries_total parent.entries entries v w.valid w.distinct
      (omega (arith, length-remove_all entries parent.entries)),
)

remove_all-nil : (entries : List Entry) → remove_all entries [] ≡ []
unfolding remove_all remove
remove_all-nil [] = refl
remove_all-nil (e ∷ entries) = remove_all-nil entries

-- A new tracestate has the entries it is made of.
pub new_fresh :
    (e : Entry) (es : List Entry)
    → IsValid (e ∷ es)
    → new none (e ∷ es) ≡ ok (some (record { entries = e ∷ es }))
unfolding new
new_fresh e es v =
    let empty : IsValid [] = record { valid = tt; distinct = tt; limit = omega arith } in
    let nothing = remove_all-nil (e ∷ es) in
    let room : length (remove_all (e ∷ es) []) + length (e ∷ es) ≤ 32 =
      rw nothing (let limit = v.limit in omega arith) in
    check_entries_total [] (e ∷ es) empty v.valid v.distinct room
    ∙ rw nothing
        (ap (λ (all : List Entry). ok (some (record { entries = all }))) (append-nil (e ∷ es)))
