-- ===== src/Tree/Layout/RoundTrip.antt =====
-- A layout that is stored and read again.
use ise_endpoint_portal.Prelude.{
  ℕ, ◌≡◌, refl, sym, ap, ◌∙◌, inl, inr, Bool, true, false, ◌||◌, List, [], ◌∷◌, ◌++◌, Option, none,
  some, if◌then◌else◌, map, filter, All, arith, Bool-cases, Option-cases,
}
use mathlib.Core.List.{append_assoc, append-nil}
use ise_endpoint_portal.Js.Dict.{Dict, keys, put}
use ise_endpoint_portal.Js.Text.{Text, ◌===◌, includes_text}
use ise_endpoint_portal.Js.Text.Laws.{===_comm}
use ise_endpoint_portal.Js.Text.Count.{AreDistinct}
use ise_endpoint_portal.Tree.Layout.{
  Layout, is_dim, collect, is_long, long_arrays, arrays_of, as_it_is, some_if_any, kept_groups,
  init_tree_state, current_layout, as_seed,
}
use ise_endpoint_portal.Tree.Layout.Limits.{safe_tree_layout, IsSmall, safe_tree_layout-same}

-- the entries that are stored, in their order
abbrev kept : {A B : Type 0} → (A → Option B) → Dict A → Dict B
kept f [] = []
kept f ((p, a) ∷ d) = elim (f a) [ none ↦ kept f d | some b ↦ (p, b) ∷ kept f d ]

put_new :
    {B : Type 0} (k : Text) (b : B) (m : Dict B)
    → includes_text (keys m) k ≡ false
    → put k b m ≡ m ++ (k, b) ∷ []
unfolding put includes_text
put_new k b [] h = refl
put_new k b ((j, c) ∷ m) h = ground (arith, put_new k b m, h)

-- no key of the list is among the others
abbrev AreNew : List Text → List Text → Type 0
AreNew ks [] = Unit
AreNew ks (x ∷ xs) = (includes_text ks x ≡ false) × AreNew ks xs

includes_text-snoc :
    (ks : List Text) (k x : Text) → includes_text (ks ++ k ∷ []) x ≡ (includes_text ks x || k === x)
unfolding includes_text
includes_text-snoc [] k x = ground arith
includes_text-snoc (y ∷ ks) k x = ground (arith, includes_text-snoc ks k x)

snoc-AreNew :
    (ks : List Text) (k : Text) (xs : List Text)
    → AreNew ks xs
    → includes_text xs k ≡ false
    → AreNew (ks ++ k ∷ []) xs
unfolding includes_text
snoc-AreNew ks k [] h f = tt
snoc-AreNew ks k (x ∷ xs) (h, t) f = (
  ground (arith, includes_text-snoc ks k x, h, f, ===_comm k x),
  snoc-AreNew ks k xs t (ground (arith, f)),
)

keys-snoc :
    {B : Type 0} (m : Dict B) (k : Text) (b : B) → keys (m ++ (k, b) ∷ []) ≡ keys m ++ k ∷ []
keys-snoc [] k b = refl
keys-snoc ((j, c) ∷ m) k b = ap (◌∷◌ j) (keys-snoc m k b)

-- Where no key comes twice, an object built from another has the entries that are stored.
collect_from :
    {A B : Type 0} (f : A → Option B) (target : Dict B) (d : Dict A)
    → AreDistinct (keys d)
    → AreNew (keys target) (keys d)
    → collect f target d ≡ target ++ kept f d
collect_from f target [] u n = sym (append-nil target)
collect_from f target ((p, a) ∷ d) (fresh, u) (h, n) = elim (Option-cases (f a)) [
  | inl e ↦
      ap (λ o. elim o [ none ↦ collect f target d | some b ↦ collect f (put p b target) d ]) e
      ∙ collect_from f target d u n
      ∙ ap (λ o. target ++ elim o [ none ↦ kept f d | some b ↦ (p, b) ∷ kept f d ]) (sym e)
  | inr (b, e) ↦
      ap (λ o. elim o [ none ↦ collect f target d | some c ↦ collect f (put p c target) d ]) e
      ∙ collect_from f (put p b target) d u (new_again b)
      ∙ ap (λ m. m ++ kept f d) (put_new p b target h)
      ∙ append_assoc target ((p, b) ∷ []) (kept f d)
      ∙ ap (λ o. target ++ elim o [ none ↦ kept f d | some c ↦ (p, c) ∷ kept f d ]) (sym e)
]
  where
    new_again : (b : _) → AreNew (keys (put p b target)) (keys d)
    new_again b =
        rw (put_new p b target h, keys-snoc target p b)
          (snoc-AreNew (keys target) p (keys d) n fresh)

collect_lem :
    {A B : Type 0} (f : A → Option B) (d : Dict A)
    → AreDistinct (keys d)
    → collect f [] d ≡ kept f d
collect_lem f d u = collect_from f [] d u (none_new (keys d))
  where
    none_new : (ks : List Text) → AreNew [] ks
    none_new [] = tt
    none_new (k ∷ ks) = (unfold includes_text in refl, none_new ks)

includes_text-kept :
    {A B : Type 0} (f : A → Option B) (d : Dict A) (k : Text)
    → includes_text (keys d) k ≡ false
    → includes_text (keys (kept f d)) k ≡ false
unfolding includes_text
includes_text-kept f [] k h = h
includes_text-kept f ((p, a) ∷ d) k h = elim (Option-cases (f a)) [
  | inl e ↦
      ap (λ o. includes_text (keys (elim o [ none ↦ kept f d | some b ↦ (p, b) ∷ kept f d ])) k) e
      ∙ includes_text-kept f d k (ground (arith, h))
  | inr (b, e) ↦
      ap (λ o. includes_text (keys (elim o [ none ↦ kept f d | some c ↦ (p, c) ∷ kept f d ])) k) e
      ∙ (ground (arith, h, includes_text-kept f d k))
]

kept-AreDistinct :
    {A B : Type 0} (f : A → Option B) (d : Dict A)
    → AreDistinct (keys d)
    → AreDistinct (keys (kept f d))
kept-AreDistinct f [] h = tt
kept-AreDistinct f ((p, a) ∷ d) (h, t) =
    elim (f a)
      as (λ o. AreDistinct (keys (elim o [ none ↦ kept f d | some b ↦ (p, b) ∷ kept f d ]))) [
        | none ↦ kept-AreDistinct f d t
        | some b ↦ (includes_text-kept f d p h, kept-AreDistinct f d t)
      ]

-- the entries of a layout as they are read
abbrev with_values : {A B : Type 0} → (A → B) → Dict A → Dict B
with_values f d = map (λ e. (e.0, f e.1)) d

keys-with_values : {A B : Type 0} (f : A → B) (d : Dict A) → keys (with_values f d) ≡ keys d
keys-with_values f [] = refl
keys-with_values f ((p, a) ∷ d) = ap (◌∷◌ p) (keys-with_values f d)

-- What is stored is read as it was, where each value is read as it was.
kept-with_values :
    {A B : Type 0} (read : B → Option A) (write : A → B) (d : Dict A)
    → All (λ e. read (write e.1) ≡ some e.1) d
    → kept read (with_values write d) ≡ d
kept-with_values read write [] h = refl
kept-with_values read write ((p, a) ∷ d) (h, t) =
    ap
      (λ o. elim o [
        | none ↦ kept read (with_values write d)
        | some b ↦ (p, b) ∷ kept read (with_values write d)
      ])
      h
    ∙ ap (◌∷◌ (p, a)) (kept-with_values read write d t)

collect-with_values :
    {A B : Type 0} (read : B → Option A) (write : A → B) (d : Dict A)
    → AreDistinct (keys d)
    → All (λ e. read (write e.1) ≡ some e.1) d
    → collect read [] (with_values write d) ≡ d
collect-with_values read write d u h =
    collect_lem read (with_values write d) (rw (keys-with_values write d) u)
    ∙ kept-with_values read write d h

filter-filter :
    (p : List Text → Bool) (xs : List (List Text)) → filter p (filter p xs) ≡ filter p xs
filter-filter p [] = refl
filter-filter p (x ∷ xs) = elim (Bool-cases (p x)) [
  | inl e ↦ rw (e, e) (ap (◌∷◌ x) (filter-filter p xs))
  | inr e ↦ rw e (filter-filter p xs)
]

long_arrays-map : (gs : List (List Text)) → long_arrays (map (λ g. some g) gs) ≡ filter is_long gs
long_arrays-map [] = refl
long_arrays-map (g ∷ gs) = ap (λ r. if is_long g then g ∷ r else r) (long_arrays-map gs)

some_if_any-value :
    {A : Type 0} (xs ys : List A)
    → some_if_any xs ≡ some ys
    → (ys ≡ xs) × (some_if_any ys ≡ some ys)
some_if_any-value [] ys h = absurd (cc h)
some_if_any-value (x ∷ xs) ys h =
    let e : ys ≡ x ∷ xs = cc h in (e, ap some_if_any e ∙ ap some (sym e))

-- Groups that are kept are kept again, and read as they are.
kept_groups-again :
    (gs b : List (List Text))
    → kept_groups gs ≡ some b
    → (kept_groups b ≡ some b) × (arrays_of (some (map (λ g. some g) b)) ≡ some b)
kept_groups-again gs b h =
    let (e, again) = some_if_any-value (filter is_long gs) b h in
    let same : filter is_long b ≡ b = ap (filter is_long) e ∙ filter-filter is_long gs ∙ sym e in
    (ap some_if_any same ∙ again, ap some (long_arrays-map b ∙ same))

kept-cons :
    {A B : Type 0} (f : A → Option B) (p : Text) (a : A) (d : Dict A) (o : Option B)
    → f a ≡ o
    → kept f ((p, a) ∷ d) ≡ elim o [ none ↦ kept f d | some b ↦ (p, b) ∷ kept f d ]
kept-cons f p a d o e = ap (λ x. elim x [ none ↦ kept f d | some b ↦ (p, b) ∷ kept f d ]) e

-- what holds of each value that is kept
kept-All :
    {A B : Type 0} (P : Text × B → Type 0) (f : A → Option B) (d : Dict A)
    → ((p : Text) (a : A) (b : B) → f a ≡ some b → P (p, b))
    → All P (kept f d)
kept-All P f [] h = tt
kept-All P f ((p, a) ∷ d) h = elim (Option-cases (f a)) [
  | inl e ↦ rw (kept-cons f p a d none e) (kept-All P f d h)
  | inr (b, e) ↦ rw (kept-cons f p a d (some b) e) (h p a b e, kept-All P f d h)
]

filter-dims : (ks : List Text) → All (λ k. is_dim k ≡ true) ks → filter is_dim ks ≡ ks
filter-dims [] h = refl
filter-dims (k ∷ ks) (h, t) = rw h (ap (◌∷◌ k) (filter-dims ks t))

abbrev layout_of : List Text → Dict Text → Dict (List (List Text)) → Dict (List Text) → Layout
layout_of g b m h = record { group_by = g; branch_dim = b; merges = m; hidden = h }

-- what is kept of an object whose entries were kept
kept-again :
    {A : Type 0} (f : A → Option A) (d : Dict A) → All (λ e. f e.1 ≡ some e.1) d → kept f d ≡ d
kept-again f [] h = refl
kept-again f ((p, a) ∷ d) (h, t) = kept-cons f p a d (some a) h ∙ ap (◌∷◌ (p, a)) (kept-again f d t)

as_it_is-All : {A : Type 0} (d : Dict A) → All (λ e. as_it_is (some e.1) ≡ some e.1) d
as_it_is-All [] = tt
as_it_is-All (e ∷ d) = (refl, as_it_is-All d)

-- an object that is stored, read, and stored again
stored_again :
    {A B : Type 0} (f : A → Option A) (read : B → Option A) (write : A → B) (d : Dict A)
    → AreDistinct (keys d)
    → ((a b : A) → f a ≡ some b → f b ≡ some b)
    → ((a b : A) → f a ≡ some b → read (write b) ≡ some b)
    → collect f [] (collect read [] (with_values write (collect f [] d))) ≡ collect f [] d
stored_again f read write d u again back =
    let k = kept f d in
    let uk = kept-AreDistinct f d u in
    let e = collect_lem f d u in
    ap (λ x. collect f [] (collect read [] (with_values write x))) e
    ∙ ap (collect f []) (
        collect-with_values read write k uk
          (kept-All (λ x. read (write x.1) ≡ some x.1) f d (λ p a b i. back a b i)))
    ∙ collect_lem f k uk
    ∙ kept-again f k (kept-All (λ x. f x.1 ≡ some x.1) f d (λ p a b i. again a b i))
    ∙ sym e

-- a layout that arrives as it was sent
arrived-again :
    (before : Option (List Text)) (s : Layout)
    → All (λ k. is_dim k ≡ true) s.group_by
    → AreDistinct (keys s.branch_dim)
    → AreDistinct (keys s.merges)
    → AreDistinct (keys s.hidden)
    → current_layout (init_tree_state before (some (as_seed (current_layout s)))) ≡ current_layout s
unfolding current_layout init_tree_state
arrived-again before s g b m h =
    ap
      (λ x.
        layout_of x (collect as_it_is [] (with_values (λ v. some v) s.branch_dim)) merges_again
          hidden_again)
      (filter-dims s.group_by g)
    ∙ ap (λ x. layout_of s.group_by x merges_again hidden_again)
        (collect-with_values as_it_is (λ v. some v) s.branch_dim b (as_it_is-All s.branch_dim))
    ∙ ap (λ x. layout_of s.group_by s.branch_dim x hidden_again)
        (stored_again kept_groups arrays_of (λ gs. some (map (λ g. some g) gs)) s.merges m
          (λ gs k i. (kept_groups-again gs k i).0) (λ gs k i. (kept_groups-again gs k i).1))
    ∙ ap (λ x. layout_of s.group_by s.branch_dim (collect kept_groups [] s.merges) x)
        (stored_again some_if_any as_it_is (λ v. some v) s.hidden h
          (λ vs k i. (some_if_any-value vs k i).1) (λ vs k i. refl))
  where
    merges_again : Dict (List (List Text))
    merges_again = collect kept_groups [] (
        collect arrays_of []
          (with_values (λ gs. some (map (λ g. some g) gs)) (collect kept_groups [] s.merges)))

    hidden_again : Dict (List Text)
    hidden_again =
        collect some_if_any []
          (collect as_it_is [] (with_values (λ v. some v) (collect some_if_any [] s.hidden)))

-- A layout that the backend cuts to its limits when it is stored and again when it is read on the next visit
-- is, when it is to be stored again, the same layout, where it is within the limits, each of its dimensions is
-- known and no branch has two entries of a kind.
pub current_layout-init_tree_state :
    (len : Text → ℕ) (before : Option (List Text)) (s : Layout)
    → IsSmall len (current_layout s)
    → All (λ k. is_dim k ≡ true) s.group_by
    → AreDistinct (keys s.branch_dim)
    → AreDistinct (keys s.merges)
    → AreDistinct (keys s.hidden)
    → current_layout (
        init_tree_state before
          (some (as_seed (safe_tree_layout len (safe_tree_layout len (current_layout s))))))
      ≡ current_layout s
current_layout-init_tree_state len before s small g b m h =
    let same = safe_tree_layout-same len (current_layout s) small in
    ap (λ l. current_layout (init_tree_state before (some (as_seed (safe_tree_layout len l))))) same
    ∙ ap (λ l. current_layout (init_tree_state before (some (as_seed l)))) same
    ∙ arrived-again before s g b m h
