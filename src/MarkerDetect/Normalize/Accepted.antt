-- ===== src/MarkerDetect/Normalize/Accepted.antt =====
-- prototypes/marker-detect/ipc: `Normalize` against `validate`.
use tac_os.Base.{
  ℕ, ◌+◌, ◌≡◌, refl, sym, ap, ◌∙◌, arith, ℤ, int_eq, int_ltb, int_eq→≡, int_eq_comm, int_ltb_total,
  int_ltb_trans, Bool, true, false, not, ◌||◌, Bool-cases, inl, inr, List, [], ◌∷◌, All, Option,
  none, some,
}
use tac_os.MarkerDetect.Detection.{
  Floats, Detection, is_marker, out_of_order, validate_from, validate,
}
use tac_os.MarkerDetect.Normalize.{insert, sort, keep_nearest, nearest, normalize}

module _ {F : Type 0} where
  -- A detection of the list has the id.
  abbrev pub has_id : ℤ → List (Detection F) → Bool
  has_id id [] = false
  has_id id (d ∷ ds) = int_eq d.id id || has_id id ds

  abbrev pub HasDistinctIds : List (Detection F) → Type 0
  HasDistinctIds [] = Unit
  HasDistinctIds (d ∷ ds) = (has_id d.id ds ≡ false) × HasDistinctIds ds

  abbrev IsAbove : ℤ → List (Detection F) → Type 0
  IsAbove id ds = All (λ (d : Detection F). int_ltb id d.id ≡ true) ds

  abbrev pub IsAscending : List (Detection F) → Type 0
  IsAscending [] = Unit
  IsAscending (d ∷ ds) = IsAbove d.id ds × IsAscending ds

  has_id-insert :
      (id : ℤ) (d : Detection F) (ds : List (Detection F))
      → has_id id (insert d ds) ≡ (int_eq d.id id || has_id id ds)
  unfolding insert
  has_id-insert id d [] = refl
  has_id-insert id d (x ∷ xs) = elim (Bool-cases (int_ltb x.id d.id)) [
    | inl e ↦ rw (e, has_id-insert id d xs) (ground arith)
    | inr e ↦ rw e refl
  ]

  has_id-sort : (id : ℤ) (ds : List (Detection F)) → has_id id (sort ds) ≡ has_id id ds
  unfolding sort
  has_id-sort id [] = refl
  has_id-sort id (d ∷ ds) =
      has_id-insert id d (sort ds) ∙ ap (λ b. int_eq d.id id || b) (has_id-sort id ds)

  IsAbove-weaken :
      (x y : ℤ) (ds : List (Detection F)) → int_ltb x y ≡ true → IsAbove y ds → IsAbove x ds
  IsAbove-weaken x y [] h a = tt
  IsAbove-weaken x y (d ∷ ds) h (e, a) = (int_ltb_trans x y d.id h e, IsAbove-weaken x y ds h a)

  All-insert :
      (P : Detection F → Type 0) (d : Detection F) (ds : List (Detection F))
      → P d
      → All P ds
      → All P (insert d ds)
  unfolding insert
  All-insert P d [] p a = (p, tt)
  All-insert P d (x ∷ xs) p (px, a) = elim (Bool-cases (int_ltb x.id d.id)) [
    | inl e ↦ rw e (px, All-insert P d xs p a)
    | inr e ↦ rw e (p, (px, a))
  ]

  insert-IsAscending :
      (d : Detection F) (ds : List (Detection F))
      → has_id d.id ds ≡ false
      → IsAscending ds
      → IsAscending (insert d ds)
  unfolding insert
  insert-IsAscending d [] h a = (tt, tt)
  insert-IsAscending d (x ∷ xs) h (above, a) = elim (Bool-cases (int_ltb x.id d.id)) [
    | inl e ↦ rw e (
      All-insert (λ y. int_ltb x.id y.id ≡ true) d xs e above,
      insert-IsAscending d xs (ground arith) a,
    )
    | inr e ↦ rw e (
        let less = int_ltb_total x.id d.id e (ground arith) in
        ((less, IsAbove-weaken d.id x.id xs less above), (above, a)))
  ]

  sort-IsAscending : (ds : List (Detection F)) → HasDistinctIds ds → IsAscending (sort ds)
  unfolding sort
  sort-IsAscending [] h = tt
  sort-IsAscending (d ∷ ds) (new, h) =
      insert-IsAscending d (sort ds) (has_id-sort d.id ds ∙ new) (sort-IsAscending ds h)

  All-sort : (P : Detection F → Type 0) (ds : List (Detection F)) → All P ds → All P (sort ds)
  unfolding sort
  All-sort P [] a = tt
  All-sort P (d ∷ ds) (p, a) = All-insert P d (sort ds) p (All-sort P ds a)

module _ {F : Type 0} ⦃floats : Floats F⦄ where
  All-keep_nearest :
      (P : Detection F → Type 0) (ps : List (Detection F)) (d : Detection F)
      → P d
      → All P ps
      → All P (keep_nearest ps d)
  unfolding keep_nearest
  All-keep_nearest P [] d p a = (p, tt)
  All-keep_nearest P (x ∷ xs) d p (px, a) = elim (Bool-cases (int_eq x.id d.id)) [
    | inl e ↦ rw e (elim (Bool-cases (floats.less d.distance x.distance)) [
      | inl l ↦ rw l (p, a)
      | inr l ↦ rw l (px, a)
    ])
    | inr e ↦ rw e (px, All-keep_nearest P xs d p a)
  ]

  All-nearest :
      (P : Detection F → Type 0) (seen ds : List (Detection F))
      → All P seen
      → All P ds
      → All P (nearest seen ds)
  unfolding nearest
  All-nearest P seen [] a b = a
  All-nearest P seen (d ∷ ds) a (p, b) =
      All-nearest P (keep_nearest seen d) ds (All-keep_nearest P seen d p a) b

  has_id-keep_nearest :
      (id : ℤ) (ps : List (Detection F)) (d : Detection F)
      → has_id id (keep_nearest ps d) ≡ (has_id id ps || int_eq d.id id)
  unfolding keep_nearest
  has_id-keep_nearest id [] d = ground arith
  has_id-keep_nearest id (x ∷ xs) d = elim (Bool-cases (int_eq x.id d.id)) [
    | inl e ↦ rw e (
        let same : int_eq x.id id ≡ int_eq d.id id = ap (λ i. int_eq i id) (int_eq→≡ x.id d.id e) in
        elim (Bool-cases (floats.less d.distance x.distance)) [
          | inl l ↦ rw l (ground (arith, same))
          | inr l ↦ rw l (ground (arith, same))
        ])
    | inr e ↦ rw (e, has_id-keep_nearest id xs d) (ground arith)
  ]

  keep_nearest-HasDistinctIds :
      (ps : List (Detection F)) (d : Detection F)
      → HasDistinctIds ps
      → HasDistinctIds (keep_nearest ps d)
  unfolding keep_nearest
  keep_nearest-HasDistinctIds [] d h = (refl, tt)
  keep_nearest-HasDistinctIds (x ∷ xs) d (new, h) = elim (Bool-cases (int_eq x.id d.id)) [
    | inl e ↦ rw e (elim (Bool-cases (floats.less d.distance x.distance)) [
      | inl l ↦ rw l (ap (λ i. has_id i xs) (sym (int_eq→≡ x.id d.id e)) ∙ new, h)
      | inr l ↦ rw l (new, h)
    ])
    | inr e ↦ rw e (
      has_id-keep_nearest x.id xs d ∙ ground (arith, new, e, int_eq_comm x.id d.id),
      keep_nearest-HasDistinctIds xs d h,
    )
  ]

  nearest-HasDistinctIds :
      (seen ds : List (Detection F)) → HasDistinctIds seen → HasDistinctIds (nearest seen ds)
  unfolding nearest
  nearest-HasDistinctIds seen [] h = h
  nearest-HasDistinctIds seen (d ∷ ds) h =
      nearest-HasDistinctIds (keep_nearest seen d) ds (keep_nearest-HasDistinctIds seen d h)

  has_id-nearest :
      (id : ℤ) (seen ds : List (Detection F))
      → has_id id (nearest seen ds) ≡ (has_id id seen || has_id id ds)
  unfolding nearest
  has_id-nearest id seen [] = ground arith
  has_id-nearest id seen (d ∷ ds) =
      has_id-nearest id (keep_nearest seen d) ds ∙ rw (has_id-keep_nearest id seen d) (ground arith)

  -- A detection of a marker, at a finite angle and a finite distance above zero.
  pub record IsGood (d : Detection F) : Type 0 where
    pub marker : is_marker d.id ≡ true
    pub angle_finite : (floats.is_nan d.angle || floats.is_inf d.angle) ≡ false
    pub distance_good :
        (floats.is_nan d.distance
          || floats.is_inf d.distance
          || not (floats.less floats.zero_value d.distance))
        ≡ false

  pub validate_from-none :
      (i : ℕ) (previous : Option (Detection F)) (ds : List (Detection F))
      → All (λ d. out_of_order previous d ≡ false) ds
      → All IsGood ds
      → IsAscending ds
      → validate_from i previous ds ≡ none
  unfolding validate_from
  validate_from-none i previous [] o g a = refl
  validate_from-none i previous (d ∷ ds) (o, os) (g, gs) (above, a) =
      rw (g.marker, g.angle_finite, g.distance_good, o)
        (validate_from-none (i + 1) (some d) ds (in_order d ds above) gs a)
    where
      in_order :
          (d : Detection F) (ds : List (Detection F))
          → All (λ (e : Detection F). int_ltb d.id e.id ≡ true) ds
          → All (λ e. out_of_order (some d) e ≡ false) ds
      in_order d [] a = tt
      in_order d (e ∷ es) (l, a) = (unfold out_of_order in rw l refl, in_order d es a)

  -- The list that `Normalize` makes of good detections, whatever their order and their copies, passes
  -- `validate`, and it has exactly the ids of the detections.
  pub validate-normalize :
      (input : List (Detection F))
      → All IsGood input
      → (validate (normalize input) ≡ none)
        × ((id : ℤ) → has_id id (normalize input) ≡ has_id id input)
  unfolding validate normalize
  validate-normalize input g =
      let good = All-sort IsGood (nearest [] input) (All-nearest IsGood [] input tt g) in
      let sorted = sort-IsAscending (nearest [] input) (nearest-HasDistinctIds [] input tt) in
      (
        validate_from-none 0 none _ (first _) good sorted,
        λ id. has_id-sort id (nearest [] input) ∙ has_id-nearest id [] input,
      )
    where
      first : (ds : List (Detection F)) → All (λ d. out_of_order none d ≡ false) ds
      first [] = tt
      first (d ∷ ds) = (unfold out_of_order in refl, first ds)
