-- ===== src/Tree/Paths/Parts.antt =====
-- A branch's path gives back the path above it and its value.
use ise_endpoint_portal.Prelude.{
  ◌≡◌, refl, ap, ◌∙◌, Bool, false, ◌||◌, ◌&&◌, List, [], ◌∷◌, ◌++◌, none, some, ◌==◌, arith,
}
use mathlib.Core.List.{append_assoc}
use ise_endpoint_portal.Js.Text.{Text, codes, has_unit}
use ise_endpoint_portal.Tree.{merged_key}
use ise_endpoint_portal.Tree.Merge.{merge_members, add_all}
use ise_endpoint_portal.Tree.Paths.{
  after_slashes, in_front, split_last, front_or_empty, parent_of, segment_of, split_colon, back_or,
  value_of_path, node_path, merged_node_path,
}

-- Whether a text has two slashes in a row.
abbrev pub has_slashes : Text → Bool
has_slashes [] = false
has_slashes (c ∷ []) = false
has_slashes (c ∷ d ∷ s) = (c == b'/' && d == b'/') || has_slashes (d ∷ s)

split_last-none : (s : Text) → has_slashes s ≡ false → split_last s ≡ none
unfolding split_last
split_last-none [] h = refl
split_last-none (c ∷ []) h = refl
split_last-none (c ∷ d ∷ s) h = ground (arith, h, split_last-none (d ∷ s))

-- a text that does not start with a slash
abbrev starts_with_slash : Text → Bool
starts_with_slash [] = false
starts_with_slash (c ∷ s) = c == b'/'

split_last-slashes :
    (q : Text)
    → has_slashes q ≡ false
    → starts_with_slash q ≡ false
    → split_last (codes "//" ++ q) ≡ some ([], q)
unfolding split_last
split_last-slashes [] h f = refl
split_last-slashes (c ∷ q) h f =
    ap (λ o. in_front b'/' (in_front b'/' o (after_slashes (b'/' ∷ c ∷ q))) (some ([], c ∷ q)))
      (split_last-none (c ∷ q) h)
    ∙ (ground (arith, f))

split_last-path :
    (p q : Text)
    → has_slashes q ≡ false
    → starts_with_slash q ≡ false
    → split_last (p ++ (codes "//" ++ q)) ≡ some (p, q)
unfolding split_last
split_last-path [] q h f = split_last-slashes q h f
split_last-path (c ∷ p) q h f =
    ap (λ o. in_front c o (after_slashes (c ∷ p ++ (codes "//" ++ q)))) (split_last-path p q h f)

split_colon-part :
    (d k : Text)
    → has_unit b':' d ≡ false
    → split_colon (d ++ (codes ":" ++ k)) ≡ some (d ++ codes ":", k)
unfolding split_colon has_unit
split_colon-part [] k h = refl
split_colon-part (c ∷ d) k h = ground (arith, h, split_colon-part d k)

-- no slashes across the colon
has_slashes-segment :
    (d k : Text)
    → has_unit b'/' d ≡ false
    → has_slashes k ≡ false
    → has_slashes (d ++ (codes ":" ++ k)) ≡ false
unfolding has_unit
has_slashes-segment [] [] h f = refl
has_slashes-segment [] (x ∷ k) h f = ground (arith, f)
has_slashes-segment (c ∷ []) k h f = ground (arith, h, has_slashes-segment [] k)
has_slashes-segment (c ∷ e ∷ d) k h f = ground (arith, h, f, has_slashes-segment (e ∷ d) k)

starts_with_slash-segment :
    (d k : Text) → has_unit b'/' d ≡ false → starts_with_slash (d ++ (codes ":" ++ k)) ≡ false
unfolding has_unit
starts_with_slash-segment [] k h = refl
starts_with_slash-segment (c ∷ d) k h = ground (arith, h)

segment_of-some : (s p q : Text) → segment_of s (some (p, q)) ≡ q
segment_of-some [] p q = refl
segment_of-some (c ∷ s) p q = refl

split_last-node_path :
    (path d k : Text)
    → has_unit b'/' d ≡ false
    → has_slashes k ≡ false
    → split_last (node_path path d k) ≡ some (path, d ++ (codes ":" ++ k))
split_last-node_path path d k h f =
    split_last-path path (d ++ (codes ":" ++ k)) (has_slashes-segment d k h f)
      (starts_with_slash-segment d k h)

segment_of-node_path :
    (path d k : Text)
    → has_unit b'/' d ≡ false
    → has_slashes k ≡ false
    → segment_of (node_path path d k) (split_last (node_path path d k)) ≡ d ++ (codes ":" ++ k)
segment_of-node_path path d k h f =
    ap (segment_of (node_path path d k)) (split_last-node_path path d k h f)
    ∙ segment_of-some (node_path path d k) path (d ++ (codes ":" ++ k))

-- The path of a branch gives back the path above it and its value, where the value has no two slashes
-- in a row and the text of the level neither a slash nor a colon.
parts-node_path :
    (path d k : Text)
    → has_unit b'/' d ≡ false
    → has_unit b':' d ≡ false
    → has_slashes k ≡ false
    → (parent_of (node_path path d k) ≡ path) × (value_of_path (node_path path d k) ≡ k)
unfolding parent_of value_of_path
parts-node_path path d k h c f = (
  ap front_or_empty (split_last-node_path path d k h f),
  ap (λ seg. back_or seg (split_colon seg)) (segment_of-node_path path d k h f)
      ∙ ap (back_or (d ++ (codes ":" ++ k))) (split_colon-part d k c),
)

-- Where the value of a branch has no two slashes in a row and the text of the level neither a slash
-- nor a colon, the path that is computed for the branch that two are merged to is the path of the
-- merged branch below the same parent, whichever of its members it is computed from.
pub merged_node_path-node_path :
    (sort : List Text → List Text) (path d k a b : Text)
    → has_unit b'/' d ≡ false
    → has_unit b':' d ≡ false
    → has_slashes k ≡ false
    → merged_node_path sort (node_path path d k) a b
      ≡ node_path path d (merged_key sort (add_all [] (merge_members a ++ merge_members b)))
unfolding merged_node_path
merged_node_path-node_path sort path d k a b h c f =
    let key = merged_key sort (add_all [] (merge_members a ++ merge_members b)) in
    ap
      (λ o.
        front_or_empty o
        ++ (codes "//"
            ++ (front_or_empty
                  (split_colon (segment_of (node_path path d k) (split_last (node_path path d k))))
                ++ key)))
      (split_last-node_path path d k h f)
    ∙ ap (λ seg. path ++ (codes "//" ++ (front_or_empty (split_colon seg) ++ key)))
        (segment_of-node_path path d k h f)
    ∙ ap (λ o. path ++ (codes "//" ++ (front_or_empty o ++ key))) (split_colon-part d k c)
    ∙ ap (λ x. path ++ (codes "//" ++ x)) (append_assoc d (codes ":") key)
