-- ===== src/Stats/Worker/Invariant.antt =====
-- The maps of a worker agree: its views by name, the sets of its measures and the views themselves.
pub mod Views
pub mod Commands
use opencensus_go.Stats.Views.{Canonical}
use opencensus_go.Stats.Worker.{
  Worker, ViewInternal, views_of, new_meter, get_measure_ref, add_view, change, unregister_view,
}
use opencensus_go.Prelude.{
  ℕ, ◌+◌, ◌≡◌, ◌≢◌, ◌<◌, refl, sym, ap, ◌∙◌, Bytes, bytes_eq, nat_eq, beq_refl, ◌==◌, ◌&&◌, List,
  [], ◌∷◌, Bool, true, false, Option, none, some, lookup, insert, erase, lookup-insert,
  lookup-erase, Bool-cases, Option-cases, inl, inr, if◌then◌else◌, arith,
}

module _ {F : Type 0} where
  -- The view at an address.
  abbrev pub view_at : Worker F → ℕ → Option (Canonical F)
  view_at w x = elim (lookup x w.heap) [ none ↦ none | some vi ↦ some vi.view ]

  -- A name leads to a view of that name, which stands in the set of its measure; and a view in the
  -- set of a measure is of that measure and is found under its name. So a sample reaches exactly
  -- the views that are registered for its measure.
  pub record IsConsistent (w : Worker F) : Type 0 where
    pub named :
        (name : Bytes) (x : ℕ)
        → lookup name w.views ≡ some x
        → (v : Canonical F) × (view_at w x ≡ some v)
          × (v.name ≡ name)
          × (lookup x (views_of v.measure.name w.measures) ≡ some tt)
    pub sampled :
        (m : Bytes) (x : ℕ)
        → lookup x (views_of m w.measures) ≡ some tt
        → (v : Canonical F) × (view_at w x ≡ some v)
          × (v.measure.name ≡ m)
          × (lookup v.name w.views ≡ some x)
    pub allocated : (x : ℕ) (v : Canonical F) → view_at w x ≡ some v → x < w.next

  pub new_meter-IsConsistent : IsConsistent (new_meter {F = F})
  unfolding new_meter
  new_meter-IsConsistent = record {
    named = λ name x h. absurd (cc);
    sampled = λ m x h. absurd (cc);
    allocated = λ x v h. absurd (cc);
  }

  -- Whether the sets hold the same addresses, and the addresses the same views.
  abbrev pub Alike : Worker F → Worker F → Type 0
  Alike w w' =
      (w'.views ≡ w.views)
      × ((m : Bytes) (x : ℕ) → lookup x (views_of m w'.measures) ≡ lookup x (views_of m w.measures))
      × ((x : ℕ) → view_at w' x ≡ view_at w x)
      × (w'.next ≡ w.next)

  pub Alike-IsConsistent : (w w' : Worker F) → Alike w w' → IsConsistent w → IsConsistent w'
  Alike-IsConsistent w w' (views, sets, at, next) h = record {
    named = λ name x found.
        let (v, here, same, member) = h.named name x (rw views at found) in
        (v, at x ∙ here, same, sets v.measure.name x ∙ member);
    sampled = λ m x member.
        let (v, here, same, found) = h.sampled m x (sym (sets m x) ∙ member) in
        (v, at x ∙ here, same, rw views found);
    allocated = λ x v here. let low = h.allocated x v (sym (at x) ∙ here) in rw next low;
  }

  -- A change that leaves the view as it is.
  pub change-Alike :
      (x : ℕ) (f : ViewInternal F → ViewInternal F) (w : Worker F)
      → ((vi : ViewInternal F) → (f vi).view ≡ vi.view)
      → Alike w (change x f w)
  change-Alike x f w same = elim (Option-cases (lookup x w.heap)) [
    | inl e ↦ rw (change, e) (refl, (λ m y. refl), (λ y. refl), refl)
    | inr (vi, e) ↦
        rw (change, e)
          (
            refl,
            (λ m y. refl),
            (λ y. elim (Bool-cases (x == y)) [
              | inl t ↦
                  let here : x ≡ y = (nat_eq.beq_iff x y).0 t in
                  let there = rw here at e in
                  rw (view_at, lookup-insert x y (f vi) w.heap, t, there)
                    (ap (λ (v : Canonical F). some v) (same vi))
              | inr t ↦ rw (view_at, lookup-insert x y (f vi) w.heap, t) refl
            ]),
            refl,
          )
  ]

  pub get_measure_ref-Alike : (w : Worker F) (name : Bytes) → Alike w (get_measure_ref w name)
  unfolding get_measure_ref
  get_measure_ref-Alike w name = (
    refl,
    (λ m x. elim (Bool-cases (name == m)) [
      | inl t ↦
          let same : name ≡ m = (bytes_eq.beq_iff name m).0 t in
          rw (views_of, lookup-insert name m (views_of name w.measures) w.measures, t)
            (ap (λ (n : Bytes). lookup x (views_of n w.measures)) same)
      | inr t ↦ rw (views_of, lookup-insert name m (views_of name w.measures) w.measures, t) refl
    ]),
    (λ x. refl),
    refl,
  )

  -- The sets after an address was put into that of a measure.
  pub member_added :
      (w : Worker F) (vi : ViewInternal F) (now : ℕ) (m : Bytes) (y : ℕ)
      → lookup y (views_of m (add_view w vi now).measures) ≡ (
          if vi.view.measure.name == m && w.next == y
          then some tt
          else lookup y (views_of m w.measures))
  unfolding add_view get_measure_ref
  member_added w vi now m y =
      let name = vi.view.measure.name in
      let old = views_of name w.measures in
      let twice = lookup-insert name m (insert w.next tt old) (insert name old w.measures) in
      let once = lookup-insert name m old w.measures in
      elim (Bool-cases (name == m)) [
        | inr t ↦ rw (views_of, twice, t, once, t) refl
        | inl t ↦
            let same : name ≡ m = (bytes_eq.beq_iff name m).0 t in
            rw (views_of, twice, t, lookup-insert w.next y tt old)
              (ap (λ (n : Bytes). if w.next == y then some tt else lookup y (views_of n w.measures))
                same)
      ]

  pub member_removed :
      (w : Worker F) (x : ℕ) (v : Canonical F) (m : Bytes) (y : ℕ)
      → lookup y (views_of m (unregister_view w x v).measures)
        ≡ (if v.measure.name == m && x == y then none else lookup y (views_of m w.measures))
  unfolding unregister_view
  member_removed w x v m y =
      let name = v.measure.name in
      elim (Option-cases (lookup name w.measures)) [
        | inl e ↦ elim (Bool-cases (name == m)) [
          | inr t ↦ rw (unregister_view, e, t) refl
          | inl t ↦
              let same : name ≡ m = (bytes_eq.beq_iff name m).0 t in
              let none_there = rw same at e in
              elim (Bool-cases (x == y)) [
                | inl u ↦ rw (unregister_view, e, views_of, none_there, t, u) refl
                | inr u ↦ rw (unregister_view, e, t, u) refl
              ]
        ]
        | inr (set, e) ↦ elim (Bool-cases (name == m)) [
          | inr t ↦
              rw (unregister_view, e, views_of, lookup-insert name m (erase x set) w.measures, t)
                refl
          | inl t ↦
              let same : name ≡ m = (bytes_eq.beq_iff name m).0 t in
              let there = rw same at e in
              rw
                (
                  unregister_view,
                  e,
                  views_of,
                  lookup-insert name m (erase x set) w.measures,
                  t,
                  there,
                  lookup-erase x y set,
                )
                refl
        ]
      ]
