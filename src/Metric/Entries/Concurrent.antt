-- ===== src/Metric/Entries/Concurrent.antt =====
-- `Add` and `Inc` of float64 entries by several goroutines: each loads the value, computes the new
-- one, and swaps it in if the value is still the same, else it begins again.
use opencensus_go.Prelude.{ℕ, ◌+◌, ◌≡◌, ◌≢◌, refl, sym, ap, ◌∙◌, List, [], ◌∷◌, ◌++◌, arith}

-- Where a goroutine stands: before its load, before its swap with the value that it loaded, or
-- behind its loop.
pub data Place (F : Type 0) : Type 0 where
  before : Place F
  loaded : F → Place F
  done : Place F

-- A goroutine adds one value.
pub record Adder (F : Type 0) : Type 0 where
  pub val : F
  pub place : Place F

pub record State (F : Type 0) : Type 0 where
  pub cell : F
  pub adders : List (Adder F)

module _ {F : Type 0} (add : F → F → F) where
  -- One step of one goroutine, between others.
  pub data Step : State F → State F → Type 0 where
    loads :
        (cell val : F) (xs ys : List (Adder F))
        → Step
            (record { cell = cell; adders = xs ++ (record { val = val; place = before } ∷ ys) })
            (record {
              cell = cell;
              adders = xs ++ (record { val = val; place = loaded cell } ∷ ys);
            })
    swaps :
        (cell val old : F) (xs ys : List (Adder F))
        → cell ≡ old
        → Step
            (record { cell = cell; adders = xs ++ (record { val = val; place = loaded old } ∷ ys) })
            (record {
              cell = add old val;
              adders = xs ++ (record { val = val; place = done } ∷ ys);
            })
    retries :
        (cell val old : F) (xs ys : List (Adder F))
        → cell ≢ old
        → Step
            (record { cell = cell; adders = xs ++ (record { val = val; place = loaded old } ∷ ys) })
            (record { cell = cell; adders = xs ++ (record { val = val; place = before } ∷ ys) })

  pub data Reaches (s : State F) : State F → Type 0 where
    here : Reaches s s
    after : (t u : State F) → Reaches s t → Step t u → Reaches s u

  -- The value after the additions of a log, the newest first.
  abbrev pub added : F → List F → F
  added init [] = init
  added init (v ∷ log) = add (added init log) v

module _ {F : Type 0} (w : F → ℕ) where
  -- How much a list of values weighs, and the values of the adders that are done. Two lists that
  -- weigh the same by every weight hold the same values, each as often.
  abbrev pub weigh : List F → ℕ
  weigh [] = 0
  weigh (v ∷ vs) = w v + weigh vs

  abbrev pub weigh_done : List (Adder F) → ℕ
  weigh_done [] = 0
  weigh_done (a ∷ adders) = (elim a.place [ done ↦ w a.val | _ ↦ 0 ]) + weigh_done adders

  weigh_done-append :
      (xs ys : List (Adder F)) → weigh_done (xs ++ ys) ≡ weigh_done xs + weigh_done ys
  weigh_done-append [] ys = omega arith
  weigh_done-append (x ∷ xs) ys = omega (arith, weigh_done-append xs ys)

module _ {F : Type 0} (add : F → F → F) (init : F) where
  -- The cell holds the additions of the adders that are done, in some order.
  abbrev pub IsSum : State F → Type 0
  IsSum s =
      (log : List F) × (s.cell ≡ added add init log)
      × ((w : F → ℕ) → weigh w log ≡ weigh_done w s.adders)

  Step-IsSum : (s t : State F) → Step add s t → IsSum s → IsSum t
  Step-IsSum _ _ (loads cell val xs ys) (log, sum, same) =
      (log, sum, λ w. same w ∙ weigh_done-append w xs _ ∙ sym (weigh_done-append w xs _))
  Step-IsSum _ _ (swaps cell val old xs ys e) (log, sum, same) = (
    val ∷ log,
    ap (λ (c : F). add c val) (sym e ∙ sum),
    λ w. omega (
      arith,
      same w,
      weigh_done-append w xs (record { val = val; place = loaded old } ∷ ys),
      weigh_done-append w xs (record { val = val; place = done } ∷ ys),
    ),
  )
  Step-IsSum _ _ (retries cell val old xs ys e) (log, sum, same) =
      (log, sum, λ w. same w ∙ weigh_done-append w xs _ ∙ sym (weigh_done-append w xs _))

  abbrev pub AllBefore : List (Adder F) → Type 0
  AllBefore [] = Unit {0}
  AllBefore (a ∷ adders) = (a.place ≡ before) × AllBefore adders

  weigh_none : (w : F → ℕ) (adders : List (Adder F)) → AllBefore adders → weigh_done w adders ≡ 0
  weigh_none w [] h = refl
  weigh_none w (a ∷ adders) h = rw h.0 (omega (arith, weigh_none w adders h.1))

  -- However the steps of the goroutines interleave, no addition is lost or made twice: the cell
  -- holds the first value with the values of exactly those goroutines added that are done, in some
  -- order.
  pub reaches-IsSum :
      (adders : List (Adder F)) (t : State F)
      → AllBefore adders
      → Reaches add (record { cell = init; adders = adders }) t
      → IsSum t
  reaches-IsSum adders _ h here = ([], refl, λ w. sym (weigh_none w adders h))
  reaches-IsSum adders _ h (after t u r step) = Step-IsSum t u step (reaches-IsSum adders t h r)
