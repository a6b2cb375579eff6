-- ===== src/Tag/Mutators/Laws.antt =====
-- What each mutator does to each key, and that every map that `New` makes is well formed.
use opencensus_go.Tag.{
  ok, ok_inj, >>=-eq-ok, guard-eq-ok, invalid_key_name, invalid_value, Key, TagContent, Map,
}
use opencensus_go.Tag.Validate.{check_key_name, check_value}
use opencensus_go.Tag.Mutators.{
  insert, update, Mutator, inserts, updates, upserts, deletes, mutate, create_metadatas,
  copy_checked, mutate_all, new,
}
use opencensus_go.Prelude.{
  ◌≡◌, sym, List, [], ◌∷◌, true, Option, none, some, arith, bytes_eq, if◌then◌else◌, lookup, IsMap,
  All, lookup-insert, lookup-erase, insert-IsMap, erase-IsMap, inl, inr, Option-cases, ◌==◌,
  list_beq_iff, nat_eq, erase,
}
use opencensus_go.Prelude.{insert as insert_entry}

-- What a key holds after a mutator, from what it held before.
abbrev pub after : Mutator → Key → Option TagContent → Option TagContent
after (inserts k v mds) j old =
    if k == j
    then elim old [ none ↦ some (record { value = v; m = create_metadatas mds }) | some c ↦ some c ]
    else old
after (updates k v mds) j old =
    if k == j
    then elim old [ none ↦ none | some _ ↦ some (record { value = v; m = create_metadatas mds }) ]
    else old
after (upserts k v mds) j old =
    if k == j then some (record { value = v; m = create_metadatas mds }) else old
after (deletes k) j old = if k == j then none else old

-- A mutator that succeeds changes its own key only, and that as follows: Insert keeps a value that
-- is there, Update makes no new one, Upsert always writes, Delete removes.
pub lookup-mutate :
    (change : Mutator) (m m' : Map) (j : Key)
    → mutate change m ≡ ok m'
    → lookup j m' ≡ after change j (lookup j m)
unfolding mutate
lookup-mutate (inserts k v mds) m m' j h = ground (
  arith,
  list_beq_iff ⦃e = nat_eq⦄ k j,
  lookup-insert k j (record { value = v; m = create_metadatas mds }) m,
)
lookup-mutate (updates k v mds) m m' j h = ground (
  arith,
  list_beq_iff ⦃e = nat_eq⦄ k j,
  lookup-insert k j (record { value = v; m = create_metadatas mds }) m,
)
lookup-mutate (upserts k v mds) m m' j h = ground (
  arith,
  list_beq_iff ⦃e = nat_eq⦄ k j,
  lookup-insert k j (record { value = v; m = create_metadatas mds }) m,
)
lookup-mutate (deletes k) m m' j h =
    ground (arith, list_beq_iff ⦃e = nat_eq⦄ k j, lookup-erase k j m)

pub record IsValidEntry (k : Key) (c : TagContent) : Type 0 where
  pub name_valid : check_key_name k ≡ true
  pub value_valid : check_value c.value ≡ true

-- Each key has one entry; names and values are acceptable.
pub record IsValid (m : Map) : Type 0 where
  pub is_map : IsMap m
  pub entries : All (λ e. IsValidEntry e.0 e.1) m

abbrev pub key_of : Mutator → Key
key_of (inserts k v mds) = k
key_of (updates k v mds) = k
key_of (upserts k v mds) = k
key_of (deletes k) = k

All-insert_entry :
    (k : Key) (c : TagContent) (m : Map)
    → IsValidEntry k c
    → All (λ e. IsValidEntry e.0 e.1) m
    → All (λ e. IsValidEntry e.0 e.1) (insert_entry k c m)
All-insert_entry k c [] h hs = (h, tt)
All-insert_entry k c ((j, w) ∷ m) h hs = ground (arith, All-insert_entry k c m h hs.1)

All-erase :
    (k : Key) (m : Map)
    → All (λ e. IsValidEntry e.0 e.1) m
    → All (λ e. IsValidEntry e.0 e.1) (erase k m)
All-erase k [] hs = tt
All-erase k ((j, w) ∷ m) hs = ground (arith, All-erase k m hs.1)

pub insert_entry-IsValid :
    (k : Key) (c : TagContent) (m : Map)
    → IsValidEntry k c
    → IsValid m
    → IsValid (insert_entry k c m)
insert_entry-IsValid k c m h v = record {
  is_map = insert-IsMap k c m v.is_map;
  entries = All-insert_entry k c m h v.entries;
}

erase-IsValid : (k : Key) (m : Map) → IsValid m → IsValid (erase k m)
erase-IsValid k m v = record {
  is_map = erase-IsMap k m v.is_map;
  entries = All-erase k m v.entries;
}

-- The ways in which a successful mutator changes the map.
data Change (k : Key) (m m' : Map) : Type 0 where
  same : m' ≡ m → Change k m m'
  writes : (c : TagContent) → check_value c.value ≡ true → m' ≡ insert_entry k c m → Change k m m'
  removes : m' ≡ erase k m → Change k m m'

mutate-Change :
    (change : Mutator) (m m' : Map) → mutate change m ≡ ok m' → Change (key_of change) m m'
unfolding mutate
mutate-Change (inserts k v mds) m m' h =
    let (valid, e) = guard-eq-ok (check_value v) invalid_value _ h in
    elim (Option-cases (lookup k m)) [
      | inl n ↦
          writes (record { value = v; m = create_metadatas mds }) valid
            (sym (rw (n, insert) at (ok_inj e)))
      | inr (_, p) ↦ same (sym (rw (p, insert) at (ok_inj e)))
    ]
mutate-Change (updates k v mds) m m' h =
    let (valid, e) = guard-eq-ok (check_value v) invalid_value _ h in
    elim (Option-cases (lookup k m)) [
      | inl n ↦ same (sym (rw (n, update) at (ok_inj e)))
      | inr (_, p) ↦
          writes (record { value = v; m = create_metadatas mds }) valid
            (sym (rw (p, update) at (ok_inj e)))
    ]
mutate-Change (upserts k v mds) m m' h =
    let (valid, e) = guard-eq-ok (check_value v) invalid_value _ h in
    writes (record { value = v; m = create_metadatas mds }) valid (sym (ok_inj e))
mutate-Change (deletes k) m m' h = removes (cc)

Change-IsValid :
    {k : Key} {m m' : Map} → Change k m m' → check_key_name k ≡ true → IsValid m → IsValid m'
Change-IsValid (same e) hk v = rw e v
Change-IsValid {k} {m} (writes c hc e) hk v =
    rw e (insert_entry-IsValid k c m (record { name_valid = hk; value_valid = hc }) v)
Change-IsValid {k} {m} (removes e) hk v = rw e (erase-IsValid k m v)

mutate_all-IsValid :
    (changes : List Mutator) (m m' : Map)
    → All (λ c. check_key_name (key_of c) ≡ true) changes
    → IsValid m
    → mutate_all changes m ≡ ok m'
    → IsValid m'
unfolding mutate_all
mutate_all-IsValid [] m m' hk v h = rw (← ok_inj h) v
mutate_all-IsValid (c ∷ changes) m m' hk v h =
    let (n, e, rest) = >>=-eq-ok (mutate c m) (mutate_all changes) h in
    mutate_all-IsValid changes n m' hk.1 (Change-IsValid (mutate-Change c m n e) hk.0 v) rest

insert-IsValid :
    (k : Key) (c : TagContent) (m : Map)
    → IsValidEntry k c
    → IsValid m
    → IsValid (insert m k c.value c.m)
unfolding insert
insert-IsValid k c m h v = elim (Option-cases (lookup k m)) [
  | inl n ↦ rw (n, insert) (insert_entry-IsValid k c m h v)
  | inr (_, p) ↦ rw (p, insert) v
]

copy_checked-IsValid : (orig m m' : Map) → IsValid m → copy_checked m orig ≡ ok m' → IsValid m'
unfolding copy_checked
copy_checked-IsValid [] m m' v h = rw (← ok_inj h) v
copy_checked-IsValid ((k, c) ∷ orig) m m' v h =
    let (hk, h') = guard-eq-ok (check_key_name k) invalid_key_name _ h in
    let (hc, rest) = guard-eq-ok (check_value c.value) invalid_value _ h' in
    let entry : IsValidEntry k c = record { name_valid = hk; value_valid = hc } in
    copy_checked-IsValid orig (insert m k c.value c.m) m' (insert-IsValid k c m entry v) rest

-- Whatever the incoming context holds, the map that `New` makes with mutators of valid keys has
-- one entry for a key, valid names and valid values.
pub new-IsValid :
    (orig : Option Map) (changes : List Mutator) (m : Map)
    → All (λ c. check_key_name (key_of c) ≡ true) changes
    → new orig changes ≡ ok m
    → IsValid m
unfolding new
new-IsValid none changes m hk h =
    mutate_all-IsValid changes [] m hk (record { is_map = tt; entries = tt }) h
new-IsValid (some orig) changes m hk h =
    let (n, e, rest) = >>=-eq-ok (copy_checked [] orig) (mutate_all changes) h in
    mutate_all-IsValid changes n m hk
      (copy_checked-IsValid orig [] n (record { is_map = tt; entries = tt }) e) rest
