-- ===== src/Stats/Worker/Registry.antt =====
-- Registering a view and finding it.
use opencensus_go.Floats.{Floats}
use opencensus_go.Metric.{Descriptor}
use opencensus_go.Stats.Measures.{Measures, subscribed}
use opencensus_go.Stats.Measures
use opencensus_go.Stats.ViewToMetric.{view_to_metric_descriptor}
use opencensus_go.Stats.Views.{View, Canonical, canonicalize}
use opencensus_go.Stats.Views
use opencensus_go.Stats.Worker.{
  Worker, ViewInternal, new_view_internal, canonicalize_all, try_register_view, add_view,
  get_measure_ref, subscribe, register_all, handle_register, handle_get_view, views_of, change,
}
use opencensus_go.Prelude.{
  ℕ, ◌≡◌, refl, ap, ◌∙◌, Bytes, bytes_eq, nat_eq, beq_refl, List, [], ◌∷◌, true, false, none, some,
  lookup, insert, lookup-insert, Option-cases, inl, inr,
}

-- A key that was just put into a map is found.
found {ℓ} :
    {V : Type ℓ} (name : Bytes) (v : V) (m : List (Bytes × V))
    → lookup name (insert name v m) ≡ some v
found name v m = rw (lookup-insert name name v m, beq_refl name) refl

found_at {ℓ} : {V : Type ℓ} (x : ℕ) (v : V) (m : List (ℕ × V)) → lookup x (insert x v m) ≡ some v
found_at x v m = rw (lookup-insert x x v m, beq_refl x) refl

module _ {F : Type 0} (floats : Floats F) where
  checked :
      (v : View F) (c : Canonical F)
      → canonicalize floats v ≡ Views.ok c
      → canonicalize_all floats (v ∷ []) ≡ (c ∷ [], none)
  unfolding canonicalize_all
  checked v c h = rw (canonicalize_all, h) refl

module _ {F : Type 0} (w : Worker F) (c : Canonical F) (vi : ViewInternal F) (now : ℕ)
    (made : new_view_internal c ≡ some vi) (free : lookup c.name w.views ≡ none) where
  tried :
      (floats : Floats F) → try_register_view floats w c now ≡ some (add_view w vi now, some w.next)
  unfolding try_register_view
  tried floats = rw (try_register_view, made, free) refl

  once :
      (floats : Floats F) (measures measures' : Measures)
      → Measures.subscribe measures c.measure.name ≡ some measures'
      → register_all floats w measures (c ∷ []) now
        ≡ some (subscribe w.next (add_view w vi now), measures', false)
  unfolding register_all
  once floats measures measures' h = rw (register_all, tried floats, h) refl

  -- The worker after the registration.
  registered :
      (floats : Floats F) (v : View F) (measures measures' : Measures)
      → canonicalize floats v ≡ Views.ok c
      → Measures.subscribe measures c.measure.name ≡ some measures'
      → handle_register floats w measures (v ∷ []) now
        ≡ some (subscribe w.next (add_view w vi now), measures', none)
  unfolding handle_register
  registered floats v measures measures' h sub =
      rw
        (
          handle_register,
          checked floats v c h,
          checked floats v c h,
          once floats measures measures' sub,
        )
        refl

  new_heap : lookup w.next (add_view w vi now).heap ≡ some vi
  unfolding add_view
  new_heap = found_at w.next vi w.heap

  subscribe_lem :
      let w1 = add_view w vi now in
      subscribe w.next w1
      ≡ record w1 { heap = insert w.next (record vi { subscribed = true }) w1.heap }
  unfolding subscribe
  subscribe_lem = rw (subscribe, change, new_heap) refl

  set_of :
      views_of vi.view.measure.name (add_view w vi now).measures
      ≡ insert w.next tt (views_of vi.view.measure.name w.measures)
  unfolding add_view get_measure_ref
  set_of =
      let name = vi.view.measure.name in
      let sets = insert name (views_of name w.measures) w.measures in
      rw (views_of, found name (insert w.next tt (views_of name w.measures)) sets) refl

  new_name : lookup vi.view.name (add_view w vi now).views ≡ some w.next
  unfolding add_view
  new_name = found vi.view.name w.next w.views

made_of : {F : Type 0} (c : Canonical F) (desc : Descriptor) → ViewInternal F
made_of c desc = record { view = c; subscribed = false; signatures = []; metric_descriptor = desc }

module _ {F : Type 0} (floats : Floats F) where
  -- A view whose name is free is registered, if it has a canonical form and a metric type and its
  -- measure was made by this library: `Register` reports no error, the view is found under its name
  -- in its canonical form, it is subscribed, it stands in the set of its measure, from which samples
  -- reach it, and its measure is recorded from then on.
  pub handle_register_lem :
      (w : Worker F) (measures measures' : Measures) (v : View F) (c : Canonical F)
      (desc : Descriptor) (now : ℕ)
      → canonicalize floats v ≡ Views.ok c
      → view_to_metric_descriptor c ≡ some desc
      → Measures.subscribe measures c.measure.name ≡ some measures'
      → lookup c.name w.views ≡ none
      → (w' : Worker F) × (handle_register floats w measures (v ∷ []) now
          ≡ some (w', measures', none))
        × (handle_get_view w' c.name ≡ some c)
        × (lookup w.next w'.heap
            ≡ some
                (record { view = c; subscribed = true; signatures = []; metric_descriptor = desc }))
        × (lookup w.next (views_of c.measure.name w'.measures) ≡ some tt)
        × (subscribed measures' c.measure.name ≡ true)
  unfolding handle_get_view made_of new_view_internal subscribed Measures.subscribe
  handle_register_lem w measures measures' v c desc now h typed sub free =
      let vi = made_of c desc in
      let made : new_view_internal c ≡ some vi = rw (new_view_internal, typed) refl in
      let on = record vi { subscribed = true } in
      let heap = found_at w.next on (add_view w vi now).heap in
      let run = registered w c vi now made free floats v measures measures' h sub in
      (
        record (add_view w vi now) { heap = insert w.next on (add_view w vi now).heap },
        run
            ∙ ap (λ (w2 : Worker F). some (w2, measures', none))
                (subscribe_lem w c vi now made free),
        rw (handle_get_view, new_name w c vi now made free, heap) refl,
        heap,
        rw (set_of w c vi now made free) (found_at w.next tt (views_of c.measure.name w.measures)),
        elim (Option-cases (lookup c.measure.name measures)) [
          | inl e ↦ absurd (let no = rw (e, Measures.subscribe) at sub in cc)
          | inr (m, e) ↦
              let done = rw (e, Measures.subscribe) at sub in
              let eq : insert c.measure.name (record m { subs = true }) measures ≡ measures' = cc in
              rw (← eq)
                (rw (subscribed, found c.measure.name (record m { subs = true }) measures) refl)
        ],
      )
