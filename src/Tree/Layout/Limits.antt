-- ===== src/Tree/Layout/Limits.antt =====
-- backend/app/api/me.py: the limits that `_safe_tree_layout` sets to a layout when it is stored and when it
-- is read, for the layouts that the page sends, whose parts all have the types it asks for. `len` is that of
-- Python, which counts code points.
use ise_endpoint_portal.Prelude.{
  ℕ, zero, suc, take, ◌≡◌, refl, ap, ◌∙◌, Bool, true, ◌&&◌, List, [], ◌∷◌, map, filter, length, leb,
  All, All-map, arith,
}
use ise_endpoint_portal.Js.Dict.{Dict}
use ise_endpoint_portal.Js.Text.{Text, truthy}
use ise_endpoint_portal.Tree.Layout.{Layout, is_long}

-- at most `n` of them, all of which pass the test
abbrev pub AreFew : {A : Type 0} → ℕ → (A → Bool) → List A → Type 0
AreFew n p xs = (leb (length xs) n ≡ true) × All (λ x. p x ≡ true) xs

module _ (len : Text → ℕ) where
  abbrev pub is_short : ℕ → Text → Bool
  is_short n s = leb (len s) n

  -- a dimension's name
  abbrev pub is_name : Text → Bool
  is_name k = truthy k && is_short 32 k

  -- `[x for x in grp if … len(x) <= 256][:100]`
  abbrev pub safe_group : List Text → List Text
  safe_group grp = take 100 (filter (is_short 256) grp)

  abbrev pub safe_groups : Text × List (List Text) → Text × List (List Text)
  safe_groups (k, v) = (k, filter is_long (map safe_group (take 100 v)))

  abbrev pub safe_hidden : Text × List Text → Text × List Text
  safe_hidden (k, v) = (k, take 200 (filter (is_short 256) v))

  -- `_safe_tree_layout`
  unfoldable pub safe_tree_layout : Layout → Layout
  safe_tree_layout l = record {
    group_by = take 20 (filter is_name l.group_by);
    branch_dim = filter (λ e. is_short 1024 e.0 && is_short 256 e.1) (take 300 l.branch_dim);
    merges = map safe_groups (filter (λ e. is_short 1024 e.0) (take 300 l.merges));
    hidden = map safe_hidden (filter (λ e. is_short 1024 e.0) (take 300 l.hidden));
  }

  abbrev pub IsSmallGroup : List Text → Type 0
  IsSmallGroup g = AreFew 100 (is_short 256) g × (is_long g ≡ true)

  -- A layout within the limits.
  pub record IsSmall (l : Layout) : Type 0 where
    pub group_by : AreFew 20 is_name l.group_by
    pub branch_dim : AreFew 300 (λ e. is_short 1024 e.0 && is_short 256 e.1) l.branch_dim
    pub merges : AreFew 300 (λ e. is_short 1024 e.0) l.merges
    pub groups : All (λ e. (leb (length e.1) 100 ≡ true) × All (λ g. IsSmallGroup g) e.1) l.merges
    pub hidden : AreFew 300 (λ e. is_short 1024 e.0) l.hidden
    pub values : All (λ e. AreFew 200 (is_short 256) e.1) l.hidden

take-every : {A : Type 0} (n : ℕ) (xs : List A) → leb (length xs) n ≡ true → take n xs ≡ xs
take-every zero [] h = refl
take-every (suc n) [] h = refl
take-every zero (x ∷ xs) h = absurd (ground (arith, h))
take-every (suc n) (x ∷ xs) h = ap (◌∷◌ x) (take-every n xs (ground (arith, h)))

filter-every :
    {A : Type 0} (p : A → Bool) (xs : List A) → All (λ x. p x ≡ true) xs → filter p xs ≡ xs
filter-every p [] h = refl
filter-every p (x ∷ xs) (h, t) = rw h (ap (◌∷◌ x) (filter-every p xs t))

map-every : {A : Type 0} (f : A → A) (xs : List A) → All (λ x. f x ≡ x) xs → map f xs ≡ xs
map-every f [] h = refl
map-every f (x ∷ xs) (h, t) = ap (λ y. y ∷ map f xs) h ∙ ap (◌∷◌ x) (map-every f xs t)

-- what holds of every element, from what else does
All-every :
    {A : Type 0} {P Q : A → Type 0} → ((x : A) → P x → Q x) → (xs : List A) → All P xs → All Q xs
All-every f xs h = All-map _ _ f xs h

module _ (len : Text → ℕ) where
  filter-take :
      {A : Type 0} (n : ℕ) (p : A → Bool) (xs : List A) → AreFew n p xs → filter p (take n xs) ≡ xs
  filter-take n p xs (few, every) = ap (filter p) (take-every n xs few) ∙ filter-every p xs every

  take-filter :
      {A : Type 0} (n : ℕ) (p : A → Bool) (xs : List A) → AreFew n p xs → take n (filter p xs) ≡ xs
  take-filter n p xs (few, every) = ap (take n) (filter-every p xs every) ∙ take-every n xs few

  safe_groups-same :
      (e : Text × List (List Text))
      → (leb (length e.1) 100 ≡ true) × All (λ g. IsSmallGroup len g) e.1
      → safe_groups len e ≡ e
  safe_groups-same (k, v) (few, small) =
      ap (λ x. (k, x))
        (ap (λ gs. filter is_long (map (safe_group len) gs)) (take-every 100 v few)
          ∙ ap (filter is_long) (
              map-every (safe_group len) v
                (All-every (λ g s. take-filter 100 (is_short len 256) g s.0) v small))
          ∙ filter-every is_long v (All-every (λ g s. s.1) v small))

  -- A layout within the limits is stored and read as it is.
  pub safe_tree_layout-same : (l : Layout) → IsSmall len l → safe_tree_layout len l ≡ l
  unfolding safe_tree_layout
  safe_tree_layout-same l h =
      ap
        (λ x.
          layout x
            (filter (λ e. is_short len 1024 e.0 && is_short len 256 e.1) (take 300 l.branch_dim))
            merges hidden)
        (take-filter 20 (is_name len) l.group_by h.group_by)
      ∙ ap (λ x. layout l.group_by x merges hidden)
          (filter-take 300 (λ e. is_short len 1024 e.0 && is_short len 256 e.1) l.branch_dim
            h.branch_dim)
      ∙ ap (λ x. layout l.group_by l.branch_dim x hidden)
          (ap (map (safe_groups len))
              (filter-take 300 (λ e. is_short len 1024 e.0) l.merges h.merges)
            ∙ map-every (safe_groups len) l.merges (All-every safe_groups-same l.merges h.groups))
      ∙ ap (λ x. layout l.group_by l.branch_dim l.merges x)
          (ap (map (safe_hidden len))
              (filter-take 300 (λ e. is_short len 1024 e.0) l.hidden h.hidden)
            ∙ map-every (safe_hidden len) l.hidden (
                All-every (λ e s. ap (λ x. (e.0, x)) (take-filter 200 (is_short len 256) e.1 s))
                  l.hidden h.values))
    where
      layout : List Text → Dict Text → Dict (List (List Text)) → Dict (List Text) → Layout
      layout g b m d = record { group_by = g; branch_dim = b; merges = m; hidden = d }

      merges : Dict (List (List Text))
      merges = map (safe_groups len) (filter (λ e. is_short len 1024 e.0) (take 300 l.merges))

      hidden : Dict (List Text)
      hidden = map (safe_hidden len) (filter (λ e. is_short len 1024 e.0) (take 300 l.hidden))
