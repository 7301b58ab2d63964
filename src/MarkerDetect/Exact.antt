-- ===== src/MarkerDetect/Exact.antt =====
-- prototypes/marker-detect/ipc/protocol.go: the detections that `validate` accepts.
use tac_os.Base.{
  ℕ, ◌+◌, ◌≡◌, refl, arith, int_ltb, int_ltb_trans, Bool, true, false, not, ◌↔◌, List, [], ◌∷◌, All,
  All-map, Option, none, some, if◌then◌else◌,
}
use tac_os.MarkerDetect.Detection.{
  Floats, Detection, Fault, is_marker, out_of_order, validate_from, validate,
}
use tac_os.MarkerDetect.Normalize.Accepted.{IsGood, IsAscending, validate_from-none}

-- a fault is found where a test holds
found :
    (b : Bool) (fault : Fault) (rest : Option Fault)
    → (if b then some fault else rest) ≡ none
    → (b ≡ false) × (rest ≡ none)
found true fault rest h = absurd (never h)
  where
    never : some fault ≡ none → ⊥
    never k = cc
found false fault rest h = (refl, h)

denied_twice : (b : Bool) → not b ≡ false → b ≡ true
denied_twice true h = refl
denied_twice false h = cc

module _ {F : Type 0} ⦃floats : Floats F⦄ where
  abbrev InOrder : Option (Detection F) → List (Detection F) → Type 0
  InOrder previous ds = All (λ (d : Detection F). out_of_order previous d ≡ false) ds

  -- What follows a detection in order follows all those that it follows.
  InOrder-trans :
      (previous : Option (Detection F)) (d : Detection F) (ds : List (Detection F))
      → out_of_order previous d ≡ false
      → InOrder (some d) ds
      → InOrder previous ds
  unfolding out_of_order
  InOrder-trans none d ds h o = All-map ds (λ e p. refl) o
  InOrder-trans (some q) d ds h o =
      All-map ds
        (λ e p. ground (
          arith,
          int_ltb_trans q.id d.id e.id (denied_twice (int_ltb q.id d.id) h)
              (denied_twice (int_ltb d.id e.id) p),
        ))
        o

  above :
      (d : Detection F) (ds : List (Detection F))
      → InOrder (some d) ds
      → All (λ (e : Detection F). int_ltb d.id e.id ≡ true) ds
  unfolding out_of_order
  above d ds o = All-map ds (λ e p. denied_twice (int_ltb d.id e.id) p) o

  validate_from-inv :
      (i : ℕ) (previous : Option (Detection F)) (ds : List (Detection F))
      → validate_from i previous ds ≡ none
      → All IsGood ds × IsAscending ds × InOrder previous ds
  unfolding validate_from
  validate_from-inv i previous [] h = (tt, tt, tt)
  validate_from-inv i previous (d ∷ ds) h =
      let (id_ok, h1) = found _ _ _ h in
      let (angle_ok, h2) = found _ _ _ h1 in
      let (distance_ok, h3) = found _ _ _ h2 in
      let (order_ok, h4) = found _ _ _ h3 in
      let (good, ascending, ordered) = validate_from-inv (i + 1) (some d) ds h4 in
      (
        (
          record {
            marker = denied_twice (is_marker d.id) id_ok;
            angle_finite = angle_ok;
            distance_good = distance_ok;
          },
          good,
        ),
        (above d ds ordered, ascending),
        (order_ok, InOrder-trans previous d ds order_ok ordered),
      )

  unordered : (ds : List (Detection F)) → InOrder none ds
  unfolding out_of_order
  unordered [] = tt
  unordered (d ∷ ds) = (refl, unordered ds)

  -- `validate` accepts exactly the detections of markers in strictly ascending order of their ids, at
  -- finite angles and at finite distances above zero.
  pub validate_iff :
      (dets : List (Detection F)) → (validate dets ≡ none) ↔ (All IsGood dets × IsAscending dets)
  unfolding validate
  validate_iff dets = (
    λ h. let (good, ascending, _) = validate_from-inv 0 none dets h in (good, ascending),
    λ p. validate_from-none 0 none dets (unordered dets) p.0 p.1,
  )
