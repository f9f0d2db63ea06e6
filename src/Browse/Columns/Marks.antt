-- ===== src/Browse/Columns/Marks.antt =====
-- The set of marked addresses.
use ise_endpoint_portal.Prelude.{
  ◌≡◌, refl, ap, ◌∙◌, inl, inr, ◌||◌, List, [], ◌∷◌, arith, Bool-cases,
}
use ise_endpoint_portal.Js.Storage.{Entry, absent, unreadable, value}
use ise_endpoint_portal.Js.Text.{Text, ◌===◌, includes_text}
use ise_endpoint_portal.Js.Text.Laws.{===_iff, includes_text-append}
use ise_endpoint_portal.Browse.Columns.{set_add, set_add_all, load_marked_macs, add_marked_macs}
use ise_endpoint_portal.Js.Text.Count.{
  count, IsDistinct, nil-IsDistinct, count-append, count-of_not_includes,
}

includes-set_add :
    (set : List Text) (m x : Text)
    → includes_text (set_add set m) x ≡ (includes_text set x || m === x)
includes-set_add set m x = elim (Bool-cases (includes_text set m)) [
  | inl e ↦ rw e (elim (Bool-cases (m === x)) [
    | inl f ↦ ground (arith, e, f, ap (includes_text set) ((===_iff m x).0 f))
    | inr f ↦ ground (arith, f)
  ])
  | inr e ↦ rw (e, includes_text-append) (unfold includes_text in ground arith)
]

includes-set_add_all :
    (set ms : List Text) (x : Text)
    → includes_text (set_add_all set ms) x ≡ (includes_text set x || includes_text ms x)
unfolding includes_text
includes-set_add_all set [] x = ground arith
includes-set_add_all set (m ∷ ms) x =
    ground (arith, includes-set_add_all (set_add set m) ms x, includes-set_add set m x)

set_add-IsDistinct : (set : List Text) (m : Text) → IsDistinct set → IsDistinct (set_add set m)
set_add-IsDistinct set m h k = elim (Bool-cases (includes_text set m)) [
  | inl e ↦ rw e (h k)
  | inr e ↦
      rw (e, count-append)
        (elim (Bool-cases (m === k)) [
          | inl f ↦
              ground
                (arith, f, count-of_not_includes m set e, ap (λ x. count x set) ((===_iff m k).0 f))
          | inr f ↦ ground (arith, f, h k)
        ])
]

set_add_all-IsDistinct : (set ms : List Text) → IsDistinct set → IsDistinct (set_add_all set ms)
set_add_all-IsDistinct set [] h = h
set_add_all-IsDistinct set (m ∷ ms) h =
    set_add_all-IsDistinct (set_add set m) ms (set_add-IsDistinct set m h)

load_marked_macs-IsDistinct : (stored : Entry (List Text)) → IsDistinct (load_marked_macs stored)
unfolding load_marked_macs
load_marked_macs-IsDistinct absent = nil-IsDistinct
load_marked_macs-IsDistinct unreadable = nil-IsDistinct
load_marked_macs-IsDistinct (value ms) = set_add_all-IsDistinct [] ms nil-IsDistinct

load_marked_macs-value :
    (ms : List Text) (m : Text) → includes_text (load_marked_macs (value ms)) m ≡ includes_text ms m
unfolding load_marked_macs
load_marked_macs-value ms m = includes-set_add_all [] ms m ∙ (unfold includes_text in refl)

add_marked_macs_lem :
    (macs : List Text) (stored : Entry (List Text))
    → add_marked_macs macs stored ≡ value (set_add_all (load_marked_macs stored) macs)
unfolding add_marked_macs
add_marked_macs_lem macs stored = refl

-- After addresses are marked, those that load as marked are the ones that were marked before and
-- the new ones, each once, whatever localStorage held.
load-add_marked_macs :
    (macs : List Text) (stored : Entry (List Text))
    → ((m : Text)
        → includes_text (load_marked_macs (add_marked_macs macs stored)) m
          ≡ (includes_text (load_marked_macs stored) m || includes_text macs m))
      × IsDistinct (load_marked_macs (add_marked_macs macs stored))
load-add_marked_macs macs stored = (
  λ m.
      ap (λ x. includes_text (load_marked_macs x) m) (add_marked_macs_lem macs stored)
      ∙ load_marked_macs-value (set_add_all (load_marked_macs stored) macs) m
      ∙ includes-set_add_all (load_marked_macs stored) macs m,
  load_marked_macs-IsDistinct (add_marked_macs macs stored),
)
