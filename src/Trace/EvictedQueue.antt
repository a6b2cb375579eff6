-- ===== src/Trace/EvictedQueue.antt =====
-- trace/evictedqueue.go: a FIFO queue of bounded length that counts what it drops.
mod Examples
use opencensus_go.Prelude.{
  ℕ, ◌+◌, ◌-◌, ◌<◌, ◌≤◌, ◌≡◌, refl, sym, ap, ◌∙◌, newest_append_full, newest_append_room,
  length-newest, List, [], ◌∷◌, ◌++◌, Option, none, some, arith, ◌==◌, nat_eq, if◌then◌else◌,
  length, drop, newest, length-append, length-drop, drop-drop, drop_append_left, append-nil,
  append_assoc, zero, suc, Bool-cases, inl, inr,
}

pub record EvictedQueue {ℓ} (A : Type ℓ) : Type ℓ where
  pub queue : List A
  pub capacity : ℕ
  pub dropped_count : ℕ

module _ {ℓ} {A : Type ℓ} where
  unfoldable pub new_evicted_queue : ℕ → EvictedQueue A
  new_evicted_queue capacity = record { queue = []; capacity = capacity; dropped_count = 0 }

  append : EvictedQueue A → A → EvictedQueue A
  append eq value = record eq { queue = eq.queue ++ (value ∷ []) }

  -- `eq.queue[1:]`, which panics on an empty queue.
  evict : EvictedQueue A → List A → Option (EvictedQueue A)
  evict eq [] = none
  evict eq (_ ∷ rest) = some (record eq { queue = rest; dropped_count = eq.dropped_count + 1 })

  -- `none` is a panic.
  unfoldable pub add : EvictedQueue A → A → Option (EvictedQueue A)
  unfolding append evict
  add eq value =
      if length eq.queue == eq.capacity
      then elim (evict eq eq.queue) [ none ↦ none | some eq' ↦ some (append eq' value) ]
      else some (append eq value)

  -- A queue within a positive limit.
  abbrev pub IsBounded : EvictedQueue A → Type 0
  IsBounded q = (0 < q.capacity) × (length q.queue ≤ q.capacity)

  uncons : (xs : List A) → 0 < length xs → (x : A) × (rest : List A) × (xs ≡ x ∷ rest)
  uncons [] h = absurd (omega arith)
  uncons (x ∷ rest) h = (x, rest, refl)

  pub add-IsBounded :
      (q : EvictedQueue A) (value : A)
      → IsBounded q
      → (q' : EvictedQueue A) × (add q value ≡ some q') × IsBounded q'
  unfolding add
  add-IsBounded q value h = elim (Bool-cases (length q.queue == q.capacity)) [
    | inl e ↦
        let (x, rest, parts) = uncons q.queue (ground arith) in
        let size : suc (length rest) ≡ q.capacity =
          sym (ap length parts) ∙ (nat_eq.beq_iff (length q.queue) q.capacity).0 e in
        (
          record q { queue = rest ++ (value ∷ []); dropped_count = q.dropped_count + 1 },
          rw (e, parts, add) refl,
          (h.0, omega (arith, length-append rest (value ∷ []))),
        )
    | inr e ↦ (
      record q { queue = q.queue ++ (value ∷ []) },
      rw e refl,
      (h.0, ground (arith, length-append q.queue (value ∷ []))),
    )
  ]

  pub add_all : EvictedQueue A → List A → Option (EvictedQueue A)
  unfolding add
  add_all eq [] = some eq
  add_all eq (value ∷ values) = elim (add eq value) [ none ↦ none | some eq' ↦ add_all eq' values ]

  -- The queue holds the newest items of the history and counts the others.
  pub record Holds (capacity : ℕ) (history : List A) (eq : EvictedQueue A) : Type ℓ where
    pub kept : eq.queue ≡ newest capacity history
    pub limit : eq.capacity ≡ capacity
    pub counted : eq.dropped_count ≡ length history - capacity

  module _ (capacity : ℕ) (history : List A) (eq : EvictedQueue A) (value : A)
      (inv : Holds capacity history eq) (positive : 0 < capacity) where
    -- A call that drops the head of a full queue.
    full_case :
        (x : A) (rest : List A)
        → eq.queue ≡ x ∷ rest
        → length eq.queue ≡ capacity
        → Holds capacity
            (history ++ (value ∷ []))
            (record eq { queue = rest ++ (value ∷ []); dropped_count = eq.dropped_count + 1 })
    full_case x rest e full =
        let size = ap length inv.kept ∙ length-newest capacity history in
        let tail : rest ≡ drop 1 (newest capacity history) =
          cc (ap (drop 1) e, ap (drop 1) inv.kept) in
        record {
          kept = rw tail (sym (newest_append_full capacity history value (omega arith) positive));
          limit = inv.limit;
          counted = omega (arith, inv.counted, length-append history (value ∷ []));
        }

    room_case :
        ¬ (length eq.queue ≡ capacity)
        → Holds capacity (history ++ (value ∷ [])) (record eq { queue = eq.queue ++ (value ∷ []) })
    room_case room =
        let size = ap length inv.kept ∙ length-newest capacity history in
        record {
          kept = rw (inv.kept) (sym (newest_append_room capacity history value (omega arith)));
          limit = inv.limit;
          counted = omega (arith, inv.counted, length-append history (value ∷ []));
        }

  drop_of_nil : (k : ℕ) → ◌≡◌ {A = List A} [] (drop k [])
  drop_of_nil zero = refl
  drop_of_nil (suc k) = refl

  -- One call: it does not panic, and the history is longer by the value.
  pub add-Holds :
      (capacity : ℕ) (history : List A) (eq : EvictedQueue A) (value : A)
      → 0 < capacity
      → Holds capacity history eq
      → (eq' : EvictedQueue A) × (add eq value ≡ some eq')
        × Holds capacity (history ++ (value ∷ [])) eq'
  unfolding add
  add-Holds capacity history eq value h inv = elim (Bool-cases (length eq.queue == eq.capacity)) [
    | inl full ↦
        let size : length eq.queue ≡ capacity = ground arith in
        let (x, rest, e) = uncons eq.queue (omega arith) in
        (
          record eq { queue = rest ++ (value ∷ []); dropped_count = eq.dropped_count + 1 },
          ground arith,
          full_case capacity history eq value inv h x rest e size,
        )
    | inr room ↦ (
      record eq { queue = eq.queue ++ (value ∷ []) },
      rw (room, add),
      room_case capacity history eq value inv h (ground arith),
    )
  ]

  add_all-Holds :
      (capacity : ℕ) (history : List A) (eq : EvictedQueue A) (values : List A)
      → 0 < capacity
      → Holds capacity history eq
      → (eq' : EvictedQueue A) × (add_all eq values ≡ some eq')
        × Holds capacity (history ++ values) eq'
  unfolding add_all
  add_all-Holds capacity history eq [] h inv = (eq, refl, rw (append-nil history) inv)
  add_all-Holds capacity history eq (value ∷ values) h inv =
      let (next, step, inv') = add-Holds capacity history eq value h inv in
      let (end, run, held) = add_all-Holds capacity (history ++ (value ∷ [])) next values h inv' in
      (end, rw (step, add_all) run, rw (append_assoc history (value ∷ []) values) at held)

  -- A new queue of positive capacity to which values are added never panics. It then holds the
  -- newest `capacity` of them in order and has counted all the others as dropped.
  pub add_all-new :
      (capacity : ℕ) (values : List A)
      → 0 < capacity
      → add_all (new_evicted_queue capacity) values
        ≡ some (record {
          queue = newest capacity values;
          capacity = capacity;
          dropped_count = length values - capacity;
        })
  unfolding new_evicted_queue
  add_all-new capacity values h =
      let fresh : Holds capacity [] (new_evicted_queue capacity) = record {
        kept = drop_of_nil (0 - capacity);
        limit = refl;
        counted = omega arith;
      } in
      let (end, run, held) =
        add_all-Holds capacity [] (new_evicted_queue capacity) values h fresh in
      run
      ∙ ap some (λ i. record {
        queue = held.kept i;
        capacity = held.limit i;
        dropped_count = held.counted i;
      })

  -- A queue of no capacity panics at its first value.
  pub add-zero : (value : A) → add (new_evicted_queue 0) value ≡ none
  unfolding add new_evicted_queue
  add-zero value = refl
