-- ===== src/Tree/Merge/Disjoint.antt =====
-- The groups of a parent stay disjoint when two branches are merged.
use ise_endpoint_portal.Prelude.{
  ◌≡◌, refl, sym, ap, ◌∙◌, inl, inr, Bool, true, false, ◌||◌, List, [], ◌∷◌, ◌++◌, if◌then◌else◌,
  any, arith, Bool-cases, All,
}
use ise_endpoint_portal.Js.Text.{Text, ◌===◌, includes_text, has_unit}
use ise_endpoint_portal.Js.Text.Laws.{===_iff, ===_comm}
use ise_endpoint_portal.Js.Text.Count.{AreDistinct}
use ise_endpoint_portal.Js.Text.Split.{split_on-All}
use ise_endpoint_portal.Tree.{merge_sep}
use ise_endpoint_portal.Tree.Groups.{AllAbsent, AreDisjoint, IsGroup}
use ise_endpoint_portal.Tree.Merge.{
  merge_members, add_all, fold_groups, merge_groups, merge_history,
}

includes_text-append :
    (xs ys : List Text) (m : Text)
    → includes_text (xs ++ ys) m ≡ (includes_text xs m || includes_text ys m)
unfolding includes_text
includes_text-append [] ys m = refl
includes_text-append (x ∷ xs) ys m = ground (arith, includes_text-append xs ys m)

All-append : {A : Type 0} (P : A → Type 0) (xs ys : List A) → All P xs → All P ys → All P (xs ++ ys)
All-append P [] ys h k = k
All-append P (x ∷ xs) ys (h, t) k = (h, All-append P xs ys t k)

includes_text-add :
    (set : List Text) (x m : Text)
    → includes_text (if includes_text set x then set else set ++ x ∷ []) m
      ≡ (includes_text set m || x === m)
unfolding includes_text
includes_text-add set x m = elim (Bool-cases (includes_text set x)) [
  | inl e ↦ elim (Bool-cases (x === m)) [
    | inl f ↦ ground (arith, e, f, ap (includes_text set) ((===_iff x m).0 f))
    | inr f ↦ ground (arith, e, f)
  ]
  | inr e ↦ ground (arith, e, includes_text-append set (x ∷ []) m)
]

pub includes_text-add_all :
    (set ms : List Text) (m : Text)
    → includes_text (add_all set ms) m ≡ (includes_text set m || includes_text ms m)
unfolding includes_text
includes_text-add_all set [] m = ground arith
includes_text-add_all set (x ∷ ms) m = ground (
  arith,
  includes_text-add_all (if includes_text set x then set else set ++ x ∷ []) ms m,
  includes_text-add set x m,
)

append-AreDistinct :
    (set : List Text) (x : Text)
    → AreDistinct set
    → includes_text set x ≡ false
    → AreDistinct (set ++ x ∷ [])
unfolding includes_text
append-AreDistinct [] x h f = (refl, tt)
append-AreDistinct (y ∷ set) x (h, t) f = (
  ground (arith, includes_text-append set (x ∷ []) y, ===_comm x y),
  append-AreDistinct set x t (ground arith),
)

add_all-IsGroup :
    (set ms : List Text)
    → IsGroup set
    → All (λ m. has_unit merge_sep m ≡ false) ms
    → IsGroup (add_all set ms)
add_all-IsGroup set [] h n = h
add_all-IsGroup set (x ∷ ms) (d, s) (n, t) = elim (Bool-cases (includes_text set x)) [
  | inl e ↦ rw e (add_all-IsGroup set ms (d, s) t)
  | inr e ↦ rw e (
      add_all-IsGroup (set ++ x ∷ []) ms
        (append-AreDistinct set x d e, All-append _ set (x ∷ []) s (n, tt)) t)
]

any-false :
    (p : Text → Bool) (g : List Text) (m : Text)
    → any p g ≡ false
    → includes_text g m ≡ true
    → p m ≡ false
unfolding includes_text
any-false p [] m h i = absurd (cc i)
any-false p (x ∷ g) m h i = elim (Bool-cases (x === m)) [
  | inl e ↦ ap p (sym ((===_iff x m).0 e)) ∙ (ground (arith, h))
  | inr e ↦ any-false p g m (ground (arith, h)) (ground (arith, i, e))
]

fold_groups-IsGroup :
    (gs : List (List Text)) (u : List Text)
    → All IsGroup gs
    → IsGroup u
    → All IsGroup (fold_groups gs u).0 × IsGroup (fold_groups gs u).1
unfolding fold_groups
fold_groups-IsGroup [] u h k = (tt, k)
fold_groups-IsGroup (g ∷ gs) u (h, t) k = elim (Bool-cases (any (includes_text u) g)) [
  | inl e ↦ rw e (fold_groups-IsGroup gs (add_all u g) t (add_all-IsGroup u g k h.1))
  | inr e ↦ rw e (let (a, b) = fold_groups-IsGroup gs u t k in ((h, a), b))
]

-- A value that no group has is in the set only if it was.
fold_groups-absent :
    (gs : List (List Text)) (u : List Text) (m : Text)
    → AllAbsent gs m
    → AllAbsent (fold_groups gs u).0 m × (includes_text (fold_groups gs u).1 m ≡ includes_text u m)
unfolding fold_groups
fold_groups-absent [] u m h = (tt, refl)
fold_groups-absent (g ∷ gs) u m (h, t) = elim (Bool-cases (any (includes_text u) g)) [
  | inl e ↦ rw e (
      let (a, b) = fold_groups-absent gs (add_all u g) m t in
      (a, b ∙ includes_text-add_all u g m ∙ (ground (arith, h))))
  | inr e ↦ rw e (let (a, b) = fold_groups-absent gs u m t in ((h, a), b))
]

fold_groups-AreDisjoint :
    (gs : List (List Text)) (u : List Text)
    → AreDisjoint gs
    → AreDisjoint ((fold_groups gs u).0 ++ (fold_groups gs u).1 ∷ [])
unfolding fold_groups
fold_groups-AreDisjoint [] u h = (λ m i. tt, tt)
fold_groups-AreDisjoint (g ∷ gs) u (h, t) = elim (Bool-cases (any (includes_text u) g)) [
  | inl e ↦ rw e (fold_groups-AreDisjoint gs (add_all u g) t)
  | inr e ↦ rw e (
    λ m i.
        let (a, b) = fold_groups-absent gs u m (h m i) in
        All-append _ (fold_groups gs u).0 ((fold_groups gs u).1 ∷ []) a
          (b ∙ any-false (includes_text u) g m e i, tt),
    fold_groups-AreDisjoint gs u t,
  )
]

fold_groups-includes :
    (gs : List (List Text)) (u : List Text) (m : Text)
    → includes_text u m ≡ true
    → includes_text (fold_groups gs u).1 m ≡ true
unfolding fold_groups
fold_groups-includes [] u m h = h
fold_groups-includes (g ∷ gs) u m h = elim (Bool-cases (any (includes_text u) g)) [
  | inl e ↦
      rw e
        (fold_groups-includes gs (add_all u g) m (ground (arith, includes_text-add_all u g m, h)))
  | inr e ↦ rw e (fold_groups-includes gs u m h)
]

-- Merging two branches keeps the groups of a parent disjoint, and what overlaps is folded in.
pub merge_groups-AreDisjoint :
    (groups : List (List Text)) (a b : Text)
    → AreDisjoint groups
    → AreDisjoint (merge_groups groups a b)
unfolding merge_groups
merge_groups-AreDisjoint groups a b h =
    fold_groups-AreDisjoint groups (add_all [] (merge_members a ++ merge_members b)) h

merge_groups-IsGroup :
    (groups : List (List Text)) (a b : Text)
    → All IsGroup groups
    → All IsGroup (merge_groups groups a b)
unfolding merge_groups
merge_groups-IsGroup groups a b h =
    let n =
      All-append _ (merge_members a) (merge_members b) (split_on-All merge_sep a)
        (split_on-All merge_sep b) in
    let (k, u) =
      fold_groups-IsGroup groups (add_all [] (merge_members a ++ merge_members b)) h
        (add_all-IsGroup [] (merge_members a ++ merge_members b) (tt, tt) n) in
    All-append _ (fold_groups groups (add_all [] (merge_members a ++ merge_members b))).0 _ k
      (u, tt)

pub merge_history-IsGroup :
    (pairs : List (Text × Text)) (groups : List (List Text))
    → All IsGroup groups
    → All IsGroup (merge_history pairs groups)
unfolding merge_history
merge_history-IsGroup [] groups h = h
merge_history-IsGroup ((a, b) ∷ rest) groups h =
    merge_history-IsGroup rest (merge_groups groups a b) (merge_groups-IsGroup groups a b h)

abbrev last_group : List (List Text) → List Text
last_group [] = []
last_group (g ∷ []) = g
last_group (g ∷ h ∷ gs) = last_group (h ∷ gs)

last_group-append : (gs : List (List Text)) (u : List Text) → last_group (gs ++ u ∷ []) ≡ u
last_group-append [] u = refl
last_group-append (g ∷ []) u = refl
last_group-append (g ∷ h ∷ gs) u = last_group-append (h ∷ gs) u

-- Every value of the two branches is in the group that merging them ends with.
last_group-merge_groups :
    (groups : List (List Text)) (a b m : Text)
    → includes_text (merge_members a ++ merge_members b) m ≡ true
    → includes_text (last_group (merge_groups groups a b)) m ≡ true
unfolding merge_groups
last_group-merge_groups groups a b m h =
    let u = add_all [] (merge_members a ++ merge_members b) in
    ap (λ g. includes_text g m)
      (last_group-append (fold_groups groups u).0 (fold_groups groups u).1)
    ∙ fold_groups-includes groups u m (
        includes_text-add_all [] (merge_members a ++ merge_members b) m
        ∙ (unfold includes_text in ground (arith, h)))

merge_history-AreDisjoint_from :
    (pairs : List (Text × Text)) (groups : List (List Text))
    → AreDisjoint groups
    → AreDisjoint (merge_history pairs groups)
unfolding merge_history
merge_history-AreDisjoint_from [] groups h = h
merge_history-AreDisjoint_from ((a, b) ∷ rest) groups h =
    merge_history-AreDisjoint_from rest (merge_groups groups a b)
      (merge_groups-AreDisjoint groups a b h)

-- After any merges of two branches of a parent, from no groups, no value is in two groups.
pub merge_history-AreDisjoint : (pairs : List (Text × Text)) → AreDisjoint (merge_history pairs [])
merge_history-AreDisjoint pairs = merge_history-AreDisjoint_from pairs [] tt
