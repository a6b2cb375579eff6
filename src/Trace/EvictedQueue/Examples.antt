-- ===== src/Trace/EvictedQueue/Examples.antt =====
-- The evicted queue at concrete values.
use opencensus_go.Trace.EvictedQueue.{new_evicted_queue, add_all, add_all-new}
use opencensus_go.Prelude.{ℕ, ◌≡◌, [], ◌∷◌, some, arith}

add_all-new_example :
    add_all {A = ℕ} (new_evicted_queue 2) (7 ∷ 8 ∷ 9 ∷ [])
    ≡ some (record { queue = 8 ∷ 9 ∷ []; capacity = 2; dropped_count = 1 })
add_all-new_example = add_all-new 2 (7 ∷ 8 ∷ 9 ∷ []) (omega arith)
