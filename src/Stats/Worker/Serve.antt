-- ===== src/Stats/Worker/Serve.antt =====
-- stats/view/worker.go: the loop of `start`, which serves commands and the ticks of the timer, here
-- those before the worker is stopped.
use opencensus_go.Floats.{Floats}
use opencensus_go.Tag.{Map}
use opencensus_go.Stats.AggregationData.{Attachments}
use opencensus_go.Stats.Measures.{Measures, Measurement}
use opencensus_go.Stats.Views.{View}
use opencensus_go.Stats.Worker.{
  Worker, Export, handle_register, handle_unregister, handle_retrieve_data, handle_record,
  handle_set_reporting_period, report_usage,
}
use opencensus_go.Stats.Worker.Invariant.{IsConsistent, Alike-IsConsistent}
use opencensus_go.Stats.Worker.Invariant.Commands.{
  handle_register-IsConsistent, handle_unregister-IsConsistent, handle_record-IsConsistent,
}
use opencensus_go.Prelude.{
  ℕ, ◌≡◌, refl, Bytes, bytes_eq, nat_eq, List, [], ◌∷◌, ◌++◌, Option, none, some, ℤ, pos, negsuc,
  Option-cases, inl, inr,
}

-- A command with the time at which it is handled; `ticks` is the timer.
pub data Event (F : Type 0) : Type 0 where
  registers : List (View F) → ℕ → Event F
  unregisters : List Bytes → ℕ → Event F
  finds retrieves : Bytes → Event F
  records : Map → List (Option (Measurement F)) → Attachments → ℕ → Event F
  sets_period : ℤ → Event F
  ticks : ℕ → Event F

module _ {F : Type 0} (floats : Floats F) where
  -- One round of the loop, with what it exports; the answers of the commands are left out.
  unfoldable pub serve_one :
      Worker F → Measures → Event F → Option (Worker F × Measures × List (Export F))
  unfolding handle_register handle_unregister handle_retrieve_data handle_record
      handle_set_reporting_period report_usage
  serve_one w ms (registers vs now) = elim (handle_register floats w ms vs now) [
    | none ↦ none
    | some (w', ms', error) ↦ some (w', ms', [])
  ]
  serve_one w ms (unregisters names now) = elim (handle_unregister w names now) [
    | none ↦ none
    | some (w', sent) ↦ some (w', ms, sent)
  ]
  serve_one w ms (finds name) = some (w, ms, [])
  serve_one w ms (retrieves name) = elim (handle_retrieve_data w name) [
    | none ↦ none
    | some rows ↦ some (w, ms, [])
  ]
  serve_one w ms (records m measurements attachments t) =
      some (handle_record floats m measurements attachments t w, ms, [])
  serve_one w ms (sets_period d) = some (handle_set_reporting_period w d, ms, [])
  serve_one w ms (ticks now) = elim (report_usage w now) [
    | none ↦ none
    | some sent ↦ some (w, ms, sent)
  ]

  unfoldable pub serve :
      Worker F → Measures → List (Event F) → Option (Worker F × Measures × List (Export F))
  unfolding serve_one
  serve w ms [] = some (w, ms, [])
  serve w ms (event ∷ events) = elim (serve_one w ms event) [
    | none ↦ none
    | some (w', ms', sent) ↦ elim (serve w' ms' events) [
      | none ↦ none
      | some (done, ms2, rest) ↦ some (done, ms2, sent ++ rest)
    ]
  ]

  set_period-IsConsistent :
      (w : Worker F) (d : ℤ) → IsConsistent w → IsConsistent (handle_set_reporting_period w d)
  unfolding handle_set_reporting_period
  set_period-IsConsistent w (negsuc d) h =
      Alike-IsConsistent w _ (refl, (λ m x. refl), (λ x. refl), refl) h
  set_period-IsConsistent w (pos d) h =
      Alike-IsConsistent w _ (refl, (λ m x. refl), (λ x. refl), refl) h

  pub serve_one-IsConsistent :
      (w : Worker F) (ms : Measures) (event : Event F) (w' : Worker F) (ms' : Measures)
      (sent : List (Export F))
      → IsConsistent w
      → serve_one w ms event ≡ some (w', ms', sent)
      → IsConsistent w'
  unfolding serve_one
  serve_one-IsConsistent w ms (registers vs now) w' ms' sent h run =
      elim (Option-cases (handle_register floats w ms vs now)) [
        | inl e ↦ absurd (let no = rw (e, serve_one) at run in cc)
        | inr ((w1, m1, error), e) ↦
            let done = rw (e, serve_one) at run in
            let eq : w1 ≡ w' = cc in
            rw (← eq) (handle_register-IsConsistent floats w ms vs now w1 m1 error h e)
      ]
  serve_one-IsConsistent w ms (unregisters names now) w' ms' sent h run =
      elim (Option-cases (handle_unregister w names now)) [
        | inl e ↦ absurd (let no = rw (e, serve_one) at run in cc)
        | inr ((w1, out), e) ↦
            let done = rw (e, serve_one) at run in
            let eq : w1 ≡ w' = cc in
            rw (← eq) (handle_unregister-IsConsistent w names now w1 out h e)
      ]
  serve_one-IsConsistent w ms (finds name) w' ms' sent h run = let eq : w ≡ w' = cc in rw (← eq) h
  serve_one-IsConsistent w ms (retrieves name) w' ms' sent h run =
      elim (Option-cases (handle_retrieve_data w name)) [
        | inl e ↦ absurd (let no = rw (e, serve_one) at run in cc)
        | inr (rows, e) ↦ let done = rw (e, serve_one) at run in let eq : w ≡ w' = cc in rw (← eq) h
      ]
  serve_one-IsConsistent w ms (records m measurements attachments t) w' ms' sent h run =
      let eq : handle_record floats m measurements attachments t w ≡ w' = cc in
      rw (← eq) (handle_record-IsConsistent floats m measurements attachments t w h)
  serve_one-IsConsistent w ms (sets_period d) w' ms' sent h run =
      let eq : handle_set_reporting_period w d ≡ w' = cc in
      rw (← eq) (set_period-IsConsistent w d h)
  serve_one-IsConsistent w ms (ticks now) w' ms' sent h run =
      elim (Option-cases (report_usage w now)) [
        | inl e ↦ absurd (let no = rw (e, serve_one) at run in cc)
        | inr (out, e) ↦ let done = rw (e, serve_one) at run in let eq : w ≡ w' = cc in rw (← eq) h
      ]

  -- However the worker has come about that the loop starts with, if its maps agree, they agree after
  -- all that the loop serves, unless a command panics: each view is found under its name, stands in
  -- the set of its own measure, and in no other set.
  pub serve-IsConsistent :
      (w : Worker F) (ms : Measures) (events : List (Event F)) (w' : Worker F) (ms' : Measures)
      (sent : List (Export F))
      → IsConsistent w
      → serve w ms events ≡ some (w', ms', sent)
      → IsConsistent w'
  unfolding serve
  serve-IsConsistent w ms [] w' ms' sent h run = let eq : w ≡ w' = cc in rw (← eq) h
  serve-IsConsistent w ms (event ∷ events) w' ms' sent h run =
      elim (Option-cases (serve_one w ms event)) [
        | inl e ↦ absurd (let no = rw (e, serve) at run in cc)
        | inr ((w1, m1, out), e) ↦
            let h1 = serve_one-IsConsistent w ms event w1 m1 out h e in
            elim (Option-cases (serve w1 m1 events)) [
              | inl f ↦ absurd (let no = rw (e, f, serve) at run in cc)
              | inr ((done, m2, rest), f) ↦
                  let last = rw (e, f, serve) at run in
                  let eq : done ≡ w' = cc in
                  rw (← eq) (serve-IsConsistent w1 m1 events done m2 rest h1 f)
            ]
      ]
