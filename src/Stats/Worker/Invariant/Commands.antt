-- ===== src/Stats/Worker/Invariant/Commands.antt =====
-- Every command keeps the maps of the worker in agreement.
use opencensus_go.Floats.{Floats}
use opencensus_go.Tag.{Map}
use opencensus_go.Stats.AggregationData.{Attachments, Sample}
use opencensus_go.Stats.Measures.{Measures, Measurement}
use opencensus_go.Stats.Measures
use opencensus_go.Stats.ViewToMetric.{view_to_metric_descriptor}
use opencensus_go.Stats.Views.{View, Canonical, Error, same}
use opencensus_go.Stats.Worker.{
  Worker, ViewInternal, Export, views_of, new_view_internal, add_view, try_register_view, change,
  subscribe, register_all, canonicalize_all, handle_register, report_view, unregister_view,
  unsubscribe, unregister_name, handle_unregister, get_measure_ref, sample_view, sample_views,
  handle_record,
}
use opencensus_go.Stats.Worker.Invariant.{
  view_at, IsConsistent, Alike-IsConsistent, change-Alike, get_measure_ref-Alike,
}
use opencensus_go.Stats.Worker.Invariant.Views.{add_view-IsConsistent, unregister_view-IsConsistent}
use opencensus_go.Prelude.{
  ℕ, ◌≡◌, refl, ◌∙◌, Bytes, bytes_eq, nat_eq, List, [], ◌∷◌, Bool, false, Option, none, some,
  lookup, Bool-cases, Option-cases, inl, inr,
}

module _ {F : Type 0} where
  change-IsConsistent :
      (x : ℕ) (f : ViewInternal F → ViewInternal F) (w : Worker F)
      → ((vi : ViewInternal F) → (f vi).view ≡ vi.view)
      → IsConsistent w
      → IsConsistent (change x f w)
  change-IsConsistent x f w same h = Alike-IsConsistent w (change x f w) (change-Alike x f w same) h

  subscribe-IsConsistent : (x : ℕ) (w : Worker F) → IsConsistent w → IsConsistent (subscribe x w)
  unfolding subscribe
  subscribe-IsConsistent x w h = change-IsConsistent x _ w (λ vi. refl) h

  -- The new view is the one asked for.
  new_view : (v : Canonical F) (vi : ViewInternal F) → new_view_internal v ≡ some vi → vi.view ≡ v
  unfolding new_view_internal
  new_view v vi h = elim (Option-cases (view_to_metric_descriptor v)) [
    | inl e ↦ absurd (let no = rw (e, new_view_internal) at h in cc)
    | inr (desc, e) ↦ let made = rw (e, new_view_internal) at h in cc
  ]

  pub try_register_view-IsConsistent :
      (floats : Floats F) (w : Worker F) (v : Canonical F) (now : ℕ) (w' : Worker F) (x : Option ℕ)
      → IsConsistent w
      → try_register_view floats w v now ≡ some (w', x)
      → IsConsistent w'
  unfolding try_register_view
  try_register_view-IsConsistent floats w v now w' x h run =
      elim (Option-cases (new_view_internal v)) [
        | inl e ↦ absurd (let no = rw (e, try_register_view) at run in cc)
        | inr (vi, e) ↦
            let is_v = new_view v vi e in
            elim (Option-cases (lookup v.name w.views)) [
              | inl f ↦
                  let done = rw (e, f, try_register_view) at run in
                  let eq : add_view w vi now ≡ w' = cc in
                  rw (← eq) (add_view-IsConsistent w h vi now (rw is_v f))
              | inr (y, f) ↦ elim (Option-cases (lookup y w.heap)) [
                | inl g ↦ absurd (let no = rw (e, f, g, try_register_view) at run in cc)
                | inr (old, g) ↦
                    let done = rw (e, f, g, try_register_view) at run in
                    let eq : w ≡ w' = cc in rw (← eq) h
              ]
            ]
      ]

  pub register_all-IsConsistent :
      (floats : Floats F) (w : Worker F) (measures : Measures) (vs : List (Canonical F)) (now : ℕ)
      (w' : Worker F) (measures' : Measures) (refused : Bool)
      → IsConsistent w
      → register_all floats w measures vs now ≡ some (w', measures', refused)
      → IsConsistent w'
  unfolding register_all
  register_all-IsConsistent floats w measures [] now w' measures' refused h run =
      let eq : w ≡ w' = cc in rw (← eq) h
  register_all-IsConsistent floats w measures (v ∷ vs) now w' measures' refused h run =
      elim (Option-cases (try_register_view floats w v now)) [
        | inl e ↦ absurd (let no = rw (e, register_all) at run in cc)
        | inr ((w1, x), e) ↦
            let h1 = try_register_view-IsConsistent floats w v now w1 x h e in
            elim (Option-cases x) [
              | inl f ↦ elim (Option-cases (register_all floats w1 measures vs now)) [
                | inl g ↦ absurd (let no = rw (e, f, g, register_all) at run in cc)
                | inr ((done, ms, b), g) ↦
                    let last = rw (e, f, g, register_all) at run in
                    let eq : done ≡ w' = cc in
                    rw (← eq) (register_all-IsConsistent floats w1 measures vs now done ms b h1 g)
              ]
              | inr (y, f) ↦ elim (Option-cases (Measures.subscribe measures v.measure.name)) [
                | inl g ↦ absurd (let no = rw (e, f, g, register_all) at run in cc)
                | inr (ms, g) ↦
                    register_all-IsConsistent floats (subscribe y w1) ms vs now w' measures' refused
                      (subscribe-IsConsistent y w1 h1) (rw (e, f, g, register_all) at run)
              ]
            ]
      ]

  pub handle_register-IsConsistent :
      (floats : Floats F) (w : Worker F) (measures : Measures) (vs : List (View F)) (now : ℕ)
      (w' : Worker F) (measures' : Measures) (error : Option Error)
      → IsConsistent w
      → handle_register floats w measures vs now ≡ some (w', measures', error)
      → IsConsistent w'
  unfolding handle_register
  handle_register-IsConsistent floats w measures vs now w' measures' error h run =
      let checked = canonicalize_all floats vs in
      elim (Option-cases checked.1) [
        | inr (e, f) ↦
            let done = rw (f, handle_register) at run in let eq : w ≡ w' = cc in rw (← eq) h
        | inl f ↦ elim (Option-cases (register_all floats w measures checked.0 now)) [
          | inl g ↦ absurd (let no = rw (f, g, handle_register) at run in cc)
          | inr ((done, ms, b), g) ↦
              let last = rw (f, g, handle_register) at run in
              let eq : done ≡ w' = cc in
              rw (← eq) (register_all-IsConsistent floats w measures checked.0 now done ms b h g)
        ]
      ]

  unsubscribe-IsConsistent :
      (x : ℕ) (w : Worker F) → IsConsistent w → IsConsistent (unsubscribe x w)
  unfolding unsubscribe
  unsubscribe-IsConsistent x w h = change-IsConsistent x _ w (λ vi. refl) h

  -- The view of a name is unsubscribed and removed.
  removed-IsConsistent :
      (w : Worker F) (name : Bytes) (x : ℕ) (vi : ViewInternal F)
      → IsConsistent w
      → lookup name w.views ≡ some x
      → lookup x w.heap ≡ some vi
      → IsConsistent (unregister_view (unsubscribe x w) x vi.view)
  unfolding unsubscribe
  removed-IsConsistent w name x vi h e f =
      let off = λ (vi : ViewInternal F). record vi { subscribed = false; signatures = [] } in
      let (views, sets, at, next) = change-Alike x off w (λ vi. refl) in
      let (v, here, named, member) = h.named name x e in
      let at_x : view_at w x ≡ some vi.view = rw (view_at, f) refl in
      let same : v ≡ vi.view = cc in
      let its_name : vi.view.name ≡ name = rw same at named in
      unregister_view-IsConsistent (unsubscribe x w) (unsubscribe-IsConsistent x w h) x vi.view
        (at x ∙ at_x) (rw (views, its_name) e)

  unregister_name-IsConsistent :
      (w : Worker F) (name : Bytes) (now : ℕ) (w' : Worker F) (sent : List (Export F))
      → IsConsistent w
      → unregister_name w name now ≡ some (w', sent)
      → IsConsistent w'
  unfolding unregister_name
  unregister_name-IsConsistent w name now w' sent h run =
      elim (Option-cases (lookup name w.views)) [
        | inl e ↦ let done = rw (e, unregister_name) at run in let eq : w ≡ w' = cc in rw (← eq) h
        | inr (x, e) ↦ elim (Option-cases (lookup x w.heap)) [
          | inl f ↦ absurd (let no = rw (e, f, unregister_name) at run in cc)
          | inr (vi, f) ↦ elim (Option-cases (report_view w x vi now)) [
            | inl g ↦ absurd (let no = rw (e, f, g, unregister_name) at run in cc)
            | inr (out, g) ↦
                let done = rw (e, f, g, unregister_name) at run in
                let eq : unregister_view (unsubscribe x w) x vi.view ≡ w' = cc in
                rw (← eq) (removed-IsConsistent w name x vi h e f)
          ]
        ]
      ]

  pub handle_unregister-IsConsistent :
      (w : Worker F) (names : List Bytes) (now : ℕ) (w' : Worker F) (sent : List (Export F))
      → IsConsistent w
      → handle_unregister w names now ≡ some (w', sent)
      → IsConsistent w'
  unfolding handle_unregister
  handle_unregister-IsConsistent w [] now w' sent h run = let eq : w ≡ w' = cc in rw (← eq) h
  handle_unregister-IsConsistent w (name ∷ names) now w' sent h run =
      elim (Option-cases (unregister_name w name now)) [
        | inl e ↦ absurd (let no = rw (e, handle_unregister) at run in cc)
        | inr ((w1, out), e) ↦ elim (Option-cases (handle_unregister w1 names now)) [
          | inl f ↦ absurd (let no = rw (e, f, handle_unregister) at run in cc)
          | inr ((done, rest), f) ↦
              let last = rw (e, f, handle_unregister) at run in
              let eq : done ≡ w' = cc in
              rw (← eq) (
                handle_unregister-IsConsistent w1 names now done rest
                  (unregister_name-IsConsistent w name now w1 out h e) f)
        ]
      ]

module _ {F : Type 0} (floats : Floats F) where
  sample_view-view :
      (m : Map) (s : Sample F) (t : ℕ) (vi : ViewInternal F)
      → (sample_view floats m s t vi).view ≡ vi.view
  unfolding sample_view
  sample_view-view m s t vi = elim (Bool-cases vi.subscribed) [
    | inl e ↦ rw (sample_view, e) refl
    | inr e ↦ rw (sample_view, e) refl
  ]

  sample_views-IsConsistent :
      (m : Map) (s : Sample F) (t : ℕ) (xs : List (ℕ × Unit {0})) (w : Worker F)
      → IsConsistent w
      → IsConsistent (sample_views floats m s t xs w)
  unfolding sample_views
  sample_views-IsConsistent m s t [] w h = h
  sample_views-IsConsistent m s t ((x, _) ∷ xs) w h =
      sample_views-IsConsistent m s t xs (change x (sample_view floats m s t) w)
        (change-IsConsistent x _ w (sample_view-view m s t) h)

  pub handle_record-IsConsistent :
      (m : Map) (ms : List (Option (Measurement F))) (attachments : Attachments) (t : ℕ)
      (w : Worker F)
      → IsConsistent w
      → IsConsistent (handle_record floats m ms attachments t w)
  unfolding handle_record
  handle_record-IsConsistent m [] attachments t w h = h
  handle_record-IsConsistent m (none ∷ ms) attachments t w h =
      handle_record-IsConsistent m ms attachments t w h
  handle_record-IsConsistent m (some e ∷ ms) attachments t w h =
      let ref = get_measure_ref w e.m.name in
      handle_record-IsConsistent m ms attachments t
        (sample_views floats m _ t (views_of e.m.name w.measures) ref)
        (sample_views-IsConsistent m _ t (views_of e.m.name w.measures) ref
          (Alike-IsConsistent w ref (get_measure_ref-Alike w e.m.name) h))
