-- ===== src/Js/Dict.antt =====
-- Objects and `Map`s with texts as keys, in the order of their insertion.
use ise_endpoint_portal.Prelude.{
  ◌≡◌, refl, List, [], ◌∷◌, ◌++◌, Bool-cases, inl, inr, Option, none, some, if◌then◌else◌, arith,
  map,
}
use ise_endpoint_portal.Js.Text.{Text, ◌===◌}
use ise_endpoint_portal.Js.Text.Laws.{===_iff}

abbrev pub Dict : Type 0 → Type 0
Dict V = List (Text × V)

abbrev pub keys : {V : Type 0} → Dict V → List Text
keys m = map (λ e. e.0) m

module _ {V : Type 0} where
  -- `m.get(k)`, `m[k]`
  unfoldable pub lookup : Text → Dict V → Option V
  lookup k [] = none
  lookup k ((j, v) ∷ m) = let rest = lookup k m in if j === k then some v else rest

  -- `m.set(k, v)`: a new key goes to the end
  unfoldable pub put : Text → V → Dict V → Dict V
  put k v [] = (k, v) ∷ []
  put k v ((j, w) ∷ m) = let rest = put k v m in if j === k then (j, v) ∷ m else (j, w) ∷ rest

  -- `m.delete(k)`
  unfoldable pub remove : Text → Dict V → Dict V
  remove k [] = []
  remove k ((j, v) ∷ m) = let rest = remove k m in if j === k then rest else (j, v) ∷ rest

  pub lookup-put :
      (k j : Text) (v : V) (m : Dict V)
      → lookup j (put k v m) ≡ (if k === j then some v else lookup j m)
  unfolding lookup put
  lookup-put k j v [] = refl
  lookup-put k j v ((i, w) ∷ m) =
      ground (arith, ===_iff i k, ===_iff i j, ===_iff k j, lookup-put k j v m)

  pub lookup-remove :
      (k j : Text) (m : Dict V) → lookup j (remove k m) ≡ (if k === j then none else lookup j m)
  unfolding lookup remove
  lookup-remove k j [] = ground arith
  lookup-remove k j ((i, w) ∷ m) =
      ground (arith, ===_iff i k, ===_iff i j, ===_iff k j, lookup-remove k j m)

  pub lookup-append :
      (k : Text) (m n : Dict V)
      → lookup k (m ++ n) ≡ elim (lookup k m) [ none ↦ lookup k n | some v ↦ some v ]
  unfolding lookup
  lookup-append k [] n = refl
  lookup-append k ((j, v) ∷ m) n = elim (Bool-cases (j === k)) [
    | inl e ↦ rw e refl
    | inr e ↦ rw e (lookup-append k m n)
  ]
