-- ===== src/Stats/AggregationData/Counts.antt =====
-- What a distribution counts, beside the histogram that the documentation of `Distribution`
-- describes.
use opencensus_go.Floats.{Floats}
use opencensus_go.Metric.{int64_add, Exemplar}
use opencensus_go.Stats.Aggregation.{Aggregation}
use opencensus_go.Stats.AggregationData.{
  Sample, DistributionData, new_distribution_data, bucket_index, add_to_bucket, get_exemplar,
  update_mean, add_to_distribution,
}
use opencensus_go.Prelude.{
  ℕ, zero, suc, ◌+◌, ◌^◌, ◌≡◌, ◌<◌, ◌≤◌, refl, sym, ap, ◌∙◌, Bool, true, ◌&&◌, not, List, [], ◌∷◌,
  ◌==◌, nat_eq, Option, none, some, length, get_elem?, set, replicate, length-replicate, length-set,
  if◌then◌else◌, Bool-cases, Option-cases, inl, inr, arith,
}

-- The samples that a distribution got, the newest first, each with its time.
abbrev pub Log : Type 0 → Type 0
Log F = List (Sample F × ℕ)

pub get_elem?-some :
    {A : Type 0} (xs : List A) (i : ℕ) → i < length xs → (x : A) × (get_elem? xs i ≡ some x)
get_elem?-some [] i h = absurd (omega (arith, h))
get_elem?-some (x ∷ xs) zero h = (x, refl)
get_elem?-some (x ∷ xs) (suc i) h = get_elem?-some xs i (omega (arith, h))

module _ {F : Type 0} (floats : Floats F) where
  unfoldable pub add_log : DistributionData F → Log F → Option (DistributionData F)
  add_log a [] = some a
  add_log a (e ∷ log) = elim (add_log a log) [
    | none ↦ none
    | some a' ↦ add_to_distribution floats a' e.0 e.1
  ]

  -- A value is at least the lower bound and below the upper one, where there are such.
  abbrev pub reaches : Option F → F → Bool
  reaches none v = true
  reaches (some b) v = not (floats.less v b)

  abbrev pub falls : Option F → Option F → F → Bool
  falls lower none v = reaches lower v
  falls lower (some b) v = reaches lower v && floats.less v b

  abbrev pub how_many : (F → Bool) → Log F → ℕ
  how_many p [] = 0
  how_many p (e ∷ log) = let rest = how_many p log in if p e.0.value then suc rest else rest

  -- The bucket of the values below each bound, and that of the others.
  abbrev pub histogram : Option F → List F → Log F → List ℕ
  histogram lower [] log = how_many (falls lower none) log ∷ []
  histogram lower (b ∷ bounds) log =
      how_many (falls lower (some b)) log ∷ histogram (some b) bounds log

  abbrev pub IsSorted : List F → Type 0
  IsSorted [] = Unit {0}
  IsSorted (b ∷ []) = Unit {0}
  IsSorted (b ∷ (c ∷ bounds)) = (floats.less b c ≡ true) × IsSorted (c ∷ bounds)

  abbrev pub IsTransitive : Type 0
  IsTransitive =
      (a b c : F) → floats.less a b ≡ true → floats.less b c ≡ true → floats.less a c ≡ true

  abbrev pub total : List ℕ → ℕ
  total [] = 0
  total (n ∷ ns) = n + total ns

  total-set :
      (ns : List ℕ) (i n : ℕ) → get_elem? ns i ≡ some n → total (set ns i (suc n)) ≡ suc (total ns)
  total-set [] i n h = absurd (cc)
  total-set (m ∷ ns) zero n h = let same : m ≡ n = cc in omega (arith, same)
  total-set (m ∷ ns) (suc i) n h = omega (arith, total-set ns i n h)

  total-replicate : (n : ℕ) → total (replicate n 0) ≡ 0
  total-replicate zero = refl
  total-replicate (suc n) = omega (arith, total-replicate n)

  how_many_bound : (p : F → Bool) (log : Log F) → how_many p log ≤ length log
  how_many_bound p [] = omega arith
  how_many_bound p (e ∷ log) = elim (Bool-cases (p e.0.value)) [
    | inl t ↦ rw t (omega (arith, how_many_bound p log))
    | inr t ↦ rw t (omega (arith, how_many_bound p log))
  ]

  pub bucket_index_bound :
      (bounds : List F) (v : F) → bucket_index floats bounds v < suc (length bounds)
  unfolding bucket_index
  bucket_index_bound [] v = omega arith
  bucket_index_bound (b ∷ bounds) v = elim (Bool-cases (floats.less v b)) [
    | inl t ↦ rw t (omega arith)
    | inr t ↦ rw t (omega (arith, bucket_index_bound bounds v))
  ]

  -- One sample into its bucket.
  module _ (a : DistributionData F) (s : Sample F) (t : ℕ) where
    abbrev pub at : ℕ
    at = bucket_index floats a.bounds s.value

    -- The new data differ in the count of the bucket, and in an exemplar.
    abbrev pub IsAdded : ℕ → DistributionData F → Type 0
    IsAdded n a' =
        (a'.count_per_bucket ≡ set a.count_per_bucket at (int64_add n 1))
        × (a'.bounds ≡ a.bounds)
        × (a'.count ≡ a.count)
        × (length a'.exemplars_per_bucket ≡ length a.exemplars_per_bucket)

    pub add_to_bucket_lem :
        (n : ℕ)
        → get_elem? a.count_per_bucket at ≡ some n
        → at < length a.exemplars_per_bucket
        → (a' : DistributionData F) × (add_to_bucket floats a s t ≡ some a') × IsAdded n a'
    unfolding add_to_bucket
    add_to_bucket_lem n here room = elim (Option-cases (get_exemplar s t)) [
      | inl e ↦ (
        record a { count_per_bucket = set a.count_per_bucket at (int64_add n 1) },
        rw (add_to_bucket, here, e) refl,
        (refl, refl, refl, refl),
      )
      | inr (x, e) ↦
          let (old, there) = get_elem?-some a.exemplars_per_bucket at room in
          (
            record a {
              count_per_bucket = set a.count_per_bucket at (int64_add n 1);
              exemplars_per_bucket = set a.exemplars_per_bucket at (some x);
            },
            rw (add_to_bucket, here, e, there) refl,
            (refl, refl, refl, length-set a.exemplars_per_bucket at (some x)),
          )
    ]

  -- The mean is no matter to the counts.
  pub update_mean_lem :
      (P : List ℕ → List F → ℕ → List (Option (Exemplar F)) → Type 0) (a : DistributionData F)
      (v : F)
      → P a.count_per_bucket a.bounds a.count a.exemplars_per_bucket
      → let a' = update_mean floats a v in
        P a'.count_per_bucket a'.bounds a'.count a'.exemplars_per_bucket
  unfolding update_mean
  update_mean_lem P a v h = elim (Bool-cases (a.count == 1)) [
    | inl e ↦ rw (update_mean, e) h
    | inr e ↦ rw (update_mean, e) h
  ]

  module _ (trans : IsTransitive) where
    -- A value below a bound is in no bucket above it.
    below :
        (b : F) (bounds : List F) (e : Sample F × ℕ) (log : Log F)
        → IsSorted (b ∷ bounds)
        → floats.less e.0.value b ≡ true
        → histogram (some b) bounds (e ∷ log) ≡ histogram (some b) bounds log
    below b [] e log sorted h = rw h refl
    below b (c ∷ bounds) e log sorted h =
        rw (h, below c bounds e log sorted.1 (trans e.0.value b c h sorted.0)) refl

    tail-IsSorted : (b : F) (bounds : List F) → IsSorted (b ∷ bounds) → IsSorted bounds
    tail-IsSorted b [] h = tt
    tail-IsSorted b (c ∷ bounds) h = h.1

    -- The bucket of a value, and the histogram with the value counted there.
    Counted : Option F → List F → Sample F × ℕ → Log F → Type 0
    Counted lower bounds e log =
        let i = bucket_index floats bounds e.0.value in
        (n : ℕ) × (get_elem? (histogram lower bounds log) i ≡ some n)
        × (n ≤ length log)
        × (set (histogram lower bounds log) i (suc n) ≡ histogram lower bounds (e ∷ log))

    counted :
        (lower : Option F) (bounds : List F) (e : Sample F × ℕ) (log : Log F)
        → IsSorted bounds
        → reaches lower e.0.value ≡ true
        → Counted lower bounds e log
    unfolding Counted bucket_index
    counted lower [] e log sorted h =
        (how_many (falls lower none) log, refl, how_many_bound _ log, rw h refl)
    counted lower (b ∷ bounds) e log sorted h = elim (Bool-cases (floats.less e.0.value b)) [
      | inl t ↦
          rw (t, h)
            (
              how_many (falls lower (some b)) log,
              refl,
              how_many_bound (falls lower (some b)) log,
              rw (below b bounds e log sorted t) refl,
            )
      | inr t ↦
          let (n, at, bound, all) =
            counted (some b) bounds e log (tail-IsSorted b bounds sorted) (rw t refl) in
          rw (t, h)
            (n, at, bound, ap (λ (ns : List ℕ). how_many (falls lower (some b)) log ∷ ns) all)
    ]

    module _ (agg : Aggregation F) (sorted : IsSorted agg.buckets) where
      -- What holds of the data behind the samples of a log.
      pub record Holds (log : Log F) (counts : List ℕ) (bounds : List F) (count : ℕ)
          (exemplars : List (Option (Exemplar F))) : Type 0 where
        pub same_bounds : bounds ≡ agg.buckets
        pub same_counts : counts ≡ histogram none agg.buckets log
        pub adds_up : total counts ≡ length log
        pub counts_all : count ≡ length log
        pub places : length exemplars ≡ suc (length agg.buckets)

      abbrev pub IsHistogram : DistributionData F → Log F → Type 0
      IsHistogram a log = Holds log a.count_per_bucket a.bounds a.count a.exemplars_per_bucket

      add_to_distribution-IsHistogram :
          (a : DistributionData F) (e : Sample F × ℕ) (log : Log F)
          → IsHistogram a log
          → length log < 2 ^ 63
          → (a' : DistributionData F) × (add_to_distribution floats a e.0 e.1 ≡ some a')
            × IsHistogram a' (e ∷ log)
      unfolding add_to_distribution Counted
      add_to_distribution-IsHistogram a e log h few =
          let v = e.0.value in
          let seen = record a {
            min = if floats.less v a.min then v else a.min;
            max = if floats.less a.max v then v else a.max;
            count = int64_add a.count 1;
          } in
          let (n, here, bound, all) = counted none agg.buckets e log sorted refl in
          let i = bucket_index floats agg.buckets v in
          let next : int64_add n 1 ≡ suc n = omega (arith, bound, few) in
          let (mid, run, (counts, bounds, count, exemplars)) =
            add_to_bucket_lem seen e.0 e.1 n (rw (h.same_bounds, h.same_counts) here)
              (rw (h.same_bounds, h.places) (bucket_index_bound agg.buckets v)) in
          let set_there : mid.count_per_bucket ≡ set (histogram none agg.buckets log) i (suc n) =
            counts ∙ rw (h.same_bounds, h.same_counts, next) refl in
          (
            update_mean floats mid v,
            rw (add_to_distribution, run) refl,
            update_mean_lem (λ cs bs c es. Holds (e ∷ log) cs bs c es) mid v
                (record {
                  same_bounds = bounds ∙ h.same_bounds;
                  same_counts = set_there ∙ all;
                  adds_up =
                      ap total set_there
                      ∙ total-set (histogram none agg.buckets log) i n here
                      ∙ ap suc (ap total (sym h.same_counts) ∙ h.adds_up);
                  counts_all = count ∙ (let same = h.counts_all in omega arith);
                  places = exemplars ∙ h.places;
                }),
          )

      empty_histogram :
          (lower : Option F) (bounds : List F)
          → histogram lower bounds [] ≡ replicate (suc (length bounds)) 0
      empty_histogram lower [] = refl
      empty_histogram lower (b ∷ bounds) =
          ap (λ (ns : List ℕ). 0 ∷ ns) (empty_histogram (some b) bounds)

      -- For sorted bounds and fewer than 2 ^ 63 samples, the data of a new distribution take every
      -- sample without a panic: bucket i counts the samples that are at least bound i - 1 and below
      -- bound i, all buckets together count as many as `count` says, which are all samples.
      pub add_log-IsHistogram :
          (t : ℕ) (log : Log F)
          → length log < 2 ^ 63
          → (a : DistributionData F) × (add_log (new_distribution_data floats agg t) log ≡ some a)
            × IsHistogram a log
      unfolding add_log new_distribution_data
      add_log-IsHistogram t [] few = (
        new_distribution_data floats agg t,
        refl,
        record {
          same_bounds = refl;
          same_counts =
              ap (λ (n : ℕ). replicate n 0) {y = suc (length agg.buckets)} (omega arith)
              ∙ sym (empty_histogram none agg.buckets);
          adds_up = total-replicate (length agg.buckets + 1);
          counts_all = refl;
          places = length-replicate (length agg.buckets + 1) none ∙ omega arith;
        },
      )
      add_log-IsHistogram t (e ∷ log) few =
          let (a, run, h) = add_log-IsHistogram t log (omega arith) in
          let (a', next, h') = add_to_distribution-IsHistogram a e log h (omega arith) in
          (a', rw (run, add_log) next, h')
