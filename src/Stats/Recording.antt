-- ===== src/Stats/Recording.antt =====
-- stats/record.go: what is recorded of measurements. A context is its tag map, and a recorder is
-- known by a number; the default one is `none` in a program without the package of views.
use opencensus_go.Stats.AggregationData.{Attachments}
use opencensus_go.Stats.Measures.{Measures, Measurement, subscribed}
use opencensus_go.Tag.{Map, Error, Result, ok, err, panic, stuck}
use opencensus_go.Tag.Mutators.{Mutator, new}
use opencensus_go.Prelude.{ℕ, Bool, true, false, List, [], ◌∷◌, Option, none, some, if◌then◌else◌}

pub record RecordOptions (F : Type 0) : Type 0 where
  pub attachments : Attachments
  pub mutators : List Mutator
  pub measurements : List (Measurement F)
  pub recorder : Option ℕ

abbrev pub Options : Type 0 → Type 0
Options F = RecordOptions F → RecordOptions F

-- A call of a recorder.
pub record Recorded (F : Type 0) : Type 0 where
  pub recorder : ℕ
  pub tags : Option Map
  pub measurements : List (Measurement F)
  pub attachments : Attachments

-- The error of `tag.New`, or nil with the recorder's call, if there is one; calling a nil recorder
-- panics, as does `tag.New` where the model of tags says so.
pub data Outcome (F : Type 0) : Type 0 where
  done : Option (Recorded F) → Outcome F
  failed : Error → Outcome F
  panics : Outcome F

-- The context with the mutators of the options.
unfoldable pub mutated : Option Map → List Mutator → Result (Option Map)
unfolding new
mutated ctx [] = ok ctx
mutated ctx (mutator ∷ mutators) = elim (new ctx (mutator ∷ mutators)) [
  | ok m ↦ ok (some m)
  | err e ↦ err e
  | panic ↦ panic
  | stuck ↦ stuck
]

abbrev or_default : Option ℕ → Option ℕ → Option ℕ
or_default none default = default
or_default (some r) default = some r

module _ {F : Type 0} where
  unfoldable pub with_attachments : Attachments → Options F
  with_attachments attachments = λ ro. record ro { attachments = attachments }

  unfoldable pub with_tags : List Mutator → Options F
  with_tags mutators = λ ro. record ro { mutators = mutators }

  unfoldable pub with_measurements : List (Measurement F) → Options F
  with_measurements measurements = λ ro. record ro { measurements = measurements }

  unfoldable pub with_recorder : ℕ → Options F
  with_recorder meter = λ ro. record ro { recorder = some meter }

  -- The loop of `createRecordOption`.
  apply_all : List (Options F) → RecordOptions F → RecordOptions F
  apply_all [] o = o
  apply_all (ro ∷ ros) o = apply_all ros (ro o)

  unfoldable pub create_record_option : List (Options F) → RecordOptions F
  unfolding apply_all
  create_record_option ros =
      apply_all ros (record { attachments = []; mutators = []; measurements = []; recorder = none })

  -- Some measurement is of a measure that a view subscribes to.
  unfoldable pub any_subscribed : Measures → List (Measurement F) → Bool
  unfolding subscribed
  any_subscribed measures [] = false
  any_subscribed measures (m ∷ ms) =
      let rest = any_subscribed measures ms in if subscribed measures m.m.name then true else rest

  abbrev call_recorder : Option ℕ → Option Map → List (Measurement F) → Attachments → Outcome F
  call_recorder none tags ms attachments = panics
  call_recorder (some r) tags ms attachments =
      done
        (some (record { recorder = r; tags = tags; measurements = ms; attachments = attachments }))

  unfoldable pub record_in : Measures → Option ℕ → Option Map → List (Measurement F) → Outcome F
  unfolding any_subscribed
  record_in measures default ctx [] = done none
  record_in measures default ctx (m ∷ ms) =
      if any_subscribed measures (m ∷ ms) then call_recorder default ctx (m ∷ ms) [] else done none

  -- The calls behind the first guards.
  unfoldable pub record_to : Measures → ℕ → Option Map → RecordOptions F → Outcome F
  unfolding any_subscribed mutated
  record_to measures recorder ctx o =
      if any_subscribed measures o.measurements
      then elim (mutated ctx o.mutators) [
        | ok tags ↦ call_recorder (some recorder) tags o.measurements o.attachments
        | err e ↦ failed e
        | panic ↦ panics
        | stuck ↦ panics
      ]
      else done none

  unfoldable pub record_with_options :
      Measures → Option ℕ → Option Map → List (Options F) → Outcome F
  unfolding create_record_option record_to
  record_with_options measures default ctx ros =
      let o = create_record_option ros in
      elim o.measurements [
        | [] ↦ done none
        | m ∷ ms ↦ elim (or_default o.recorder default) [
          | none ↦ done none
          | some recorder ↦ record_to measures recorder ctx o
        ]
      ]

  unfoldable pub record_with_tags :
      Measures → Option ℕ → Option Map → List Mutator → List (Measurement F) → Outcome F
  unfolding record_with_options with_tags with_measurements
  record_with_tags measures default ctx mutators ms =
      record_with_options measures default ctx (with_tags mutators ∷ with_measurements ms ∷ [])
