-- ===== src/Stats/Worker/Invariant/Views.antt =====
-- A view that is added or removed leaves the maps of the worker in agreement.
use opencensus_go.Stats.Views.{Canonical}
use opencensus_go.Stats.Worker.{Worker, ViewInternal, get_measure_ref, add_view, unregister_view}
use opencensus_go.Stats.Worker.Invariant.{view_at, IsConsistent, member_added, member_removed}
use opencensus_go.Prelude.{
  ℕ, ◌+◌, ◌≡◌, refl, ◌∙◌, Bytes, bytes_eq, nat_eq, beq_refl, ◌==◌, ◌&&◌, true, false, none, some,
  lookup, lookup-insert, lookup-erase, Bool-cases, inl, inr, if◌then◌else◌, arith,
}

module _ {F : Type 0} (w : Worker F) (h : IsConsistent w) where
  module _ (vi : ViewInternal F) (now : ℕ) (free : lookup vi.view.name w.views ≡ none) where
    view_added :
        (y : ℕ)
        → view_at (add_view w vi now) y ≡ (if w.next == y then some vi.view else view_at w y)
    unfolding add_view get_measure_ref
    view_added y = elim (Bool-cases (w.next == y)) [
      | inl t ↦ rw (view_at, lookup-insert w.next y vi w.heap, t) refl
      | inr t ↦ rw (view_at, lookup-insert w.next y vi w.heap, t) refl
    ]

    name_added :
        (name : Bytes)
        → lookup name (add_view w vi now).views
          ≡ (if vi.view.name == name then some w.next else lookup name w.views)
    unfolding add_view get_measure_ref
    name_added name = lookup-insert vi.view.name name w.next w.views

    -- An address of the worker is not the new one.
    old_address : (y : ℕ) (v : Canonical F) → view_at w y ≡ some v → (w.next == y) ≡ false
    old_address y v at = let low = h.allocated y v at in ground arith

    next_added : (add_view w vi now).next ≡ w.next + 1
    unfolding add_view get_measure_ref
    next_added = refl

    pub add_view-IsConsistent : IsConsistent (add_view w vi now)
    add_view-IsConsistent = record {
      named = λ name x found. elim (Bool-cases (vi.view.name == name)) [
        | inl t ↦
            let this = rw (name_added name, t) at found in
            let new : w.next ≡ x = cc in
            (
              vi.view,
              view_added x ∙ rw (← new, beq_refl w.next) refl,
              (bytes_eq.beq_iff vi.view.name name).0 t,
              member_added w vi now vi.view.measure.name x
                  ∙ rw (← new, beq_refl w.next, beq_refl vi.view.measure.name) refl,
            )
        | inr t ↦
            let (v, at, same, member) = h.named name x (rw (name_added name, t) at found) in
            let old = old_address x v at in
            (
              v,
              view_added x ∙ rw old at,
              same,
              member_added w vi now v.measure.name x ∙ ground (arith, old, member),
            )
      ];
      sampled = λ m x member. elim (Bool-cases (vi.view.measure.name == m && w.next == x)) [
        | inl t ↦
            let name_is : (vi.view.measure.name == m) ≡ true = ground arith in
            let new_is : (w.next == x) ≡ true = ground arith in
            let new : w.next ≡ x = (nat_eq.beq_iff w.next x).0 new_is in
            (
              vi.view,
              view_added x ∙ rw new_is refl,
              (bytes_eq.beq_iff vi.view.measure.name m).0 name_is,
              name_added vi.view.name ∙ rw (beq_refl vi.view.name, new) refl,
            )
        | inr t ↦
            let (v, at, same, found) =
              h.sampled m x (rw (member_added w vi now m x, t) at member) in
            let old = old_address x v at in
            (
              v,
              view_added x ∙ rw old at,
              same,
              name_added v.name ∙ (elim (Bool-cases (vi.view.name == v.name)) [
                | inr u ↦ rw u found
                | inl u ↦
                    let taken : vi.view.name ≡ v.name =
                      (bytes_eq.beq_iff vi.view.name v.name).0 u in
                    absurd (let no = rw (← taken) at found in cc)
              ]),
            )
      ];
      allocated = λ x v at. elim (Bool-cases (w.next == x)) [
        | inl t ↦ rw next_added (ground (arith, t))
        | inr t ↦
            let low = h.allocated x v (rw (view_added x, t) at at) in
            rw next_added (omega (arith, low))
      ];
    }

  -- A registered view is removed.
  module _ (x : ℕ) (v : Canonical F) (at_x : view_at w x ≡ some v)
      (registered : lookup v.name w.views ≡ some x) where
    view_removed : (y : ℕ) → view_at (unregister_view w x v) y ≡ view_at w y
    unfolding unregister_view
    view_removed y = refl

    name_removed :
        (name : Bytes)
        → lookup name (unregister_view w x v).views
          ≡ (if v.name == name then none else lookup name w.views)
    unfolding unregister_view
    name_removed name = lookup-erase v.name name w.views

    next_removed : (unregister_view w x v).next ≡ w.next
    unfolding unregister_view
    next_removed = refl

    pub unregister_view-IsConsistent : IsConsistent (unregister_view w x v)
    unregister_view-IsConsistent = record {
      named = λ name y found. elim (Bool-cases (v.name == name)) [
        | inl t ↦ absurd (let no = rw (name_removed name, t) at found in cc)
        | inr t ↦
            let (u, at, same, member) = h.named name y (rw (name_removed name, t) at found) in
            let other : (x == y) ≡ false = elim (Bool-cases (x == y)) [
              | inr e ↦ e
              | inl e ↦
                  let here : x ≡ y = (nat_eq.beq_iff x y).0 e in
                  let at_y = rw here at at_x in
                  let twin : v ≡ u = cc in
                  absurd (let no = rw (twin, same, beq_refl name) at t in cc)
            ] in
            (
              u,
              view_removed y ∙ at,
              same,
              member_removed w x v u.measure.name y ∙ ground (arith, other, member),
            )
      ];
      sampled = λ m y member. elim (Bool-cases (v.measure.name == m && x == y)) [
        | inl t ↦ absurd (let no = rw (member_removed w x v m y, t) at member in cc)
        | inr t ↦
            let (u, at, same, found) = h.sampled m y (rw (member_removed w x v m y, t) at member) in
            (
              u,
              view_removed y ∙ at,
              same,
              name_removed u.name ∙ (elim (Bool-cases (v.name == u.name)) [
                | inr e ↦ rw e found
                | inl e ↦
                    let taken : v.name ≡ u.name = (bytes_eq.beq_iff v.name u.name).0 e in
                    let found_x = rw taken at registered in
                    let here : x ≡ y = cc in
                    let at_y = rw here at at_x in
                    let twin : v ≡ u = cc in
                    let measured : v.measure.name ≡ m = rw twin same in
                    absurd (let no = rw (measured, here, beq_refl m, beq_refl y) at t in cc)
              ]),
            )
      ];
      allocated = λ y u at. rw next_removed (h.allocated y u (rw (view_removed y) at at));
    }
