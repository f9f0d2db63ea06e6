-- ===== src/Bulk/Nmap.antt =====
-- frontend/js/views/browse-bulk.js: the window that scans the address of an endpoint's session.
use ise_endpoint_portal.Prelude.{
  ◌≡◌, refl, ap, inl, inr, Bool, true, false, not, List, [], ◌∷◌, Option, none, some, if◌then◌else◌,
  Bool-cases,
}
use ise_endpoint_portal.Js.Dict.{Dict, lookup}
use ise_endpoint_portal.Js.Text.{Text, codes, ◌===◌, truthy, or_empty, trim}

-- the addresses of the rows that are drawn, and the IP of each address's session
pub record Sessions : Type 0 where
  pub macs : Dict Text
  pub ips : Option (Dict Text)

-- the IP of the endpoint's session, or nothing
unfoldable pub ip_of : Sessions → Text → Text
unfolding lookup
ip_of s id =
    let mac = or_empty (lookup id s.macs) in
    elim s.ips [ none ↦ [] | some ips ↦ if truthy mac then or_empty (lookup mac ips) else [] ]

-- `updateNmapBtn`: whether the button is disabled
unfoldable pub is_nmap_disabled : Sessions → List Text → Bool
unfolding ip_of
is_nmap_disabled s [] = true
is_nmap_disabled s (id ∷ []) = not (truthy (ip_of s id))
is_nmap_disabled s (id ∷ j ∷ ids) = true

-- what the window shows of a scan
pub data Output : Type 0 where
  no_output : Output
  scanned : (cmd duration output : Text) → Output
  scan_error : Text → Output

pub record Window : Type 0 where
  pub is_open : Bool
  pub scan_ip : Text
  pub preset : Option Text
  pub custom_flags : Text
  pub run_disabled : Bool
  pub output : Output
  pub warned : Bool

-- the button of the list; the window is reset
unfoldable pub open_nmap : Sessions → List Text → Window → Window
unfolding ip_of
open_nmap s [] w = w
open_nmap s (id ∷ ids) w =
    if truthy (ip_of s id)
    then record {
      is_open = true;
      scan_ip = ip_of s id;
      preset = none;
      custom_flags = [];
      run_disabled = true;
      output = no_output;
      warned = w.warned;
    }
    else record w { scan_ip = []; warned = true }

-- a button of a preset
unfoldable pub pick_preset : Text → Window → Window
pick_preset p w = record w { preset = some p; run_disabled = false }

abbrev is_custom : Option Text → Bool
is_custom none = false
is_custom (some p) = p === codes "custom"

abbrev null_if_empty : Text → Option Text
null_if_empty [] = none
null_if_empty (c ∷ s) = some (c ∷ s)

-- the arguments of `api.nmapScan`: the address, the preset and the flags
unfoldable pub scan_arguments : Window → Text × Option Text × Option Text
unfolding trim ◌===◌
scan_arguments w =
    if is_custom w.preset
    then (w.scan_ip, none, null_if_empty (trim w.custom_flags))
    else (w.scan_ip, w.preset, none)

-- the run button; the call brings a result or the message of an error
pub data Scanned : Type 0 where
  threw : Text → Scanned
  result : (cmd duration output : Text) → Scanned

abbrev output_of : Scanned → Output
output_of (threw m) = scan_error m
output_of (result cmd duration output) = scanned cmd duration output

unfoldable pub run_scan : Scanned → Window → Window
run_scan o w = if w.run_disabled then w else record w { output = output_of o }

-- A selection for which the button is enabled is one endpoint, and the button opens the window with the
-- address of that endpoint's session, where no scan can be run until a preset is picked.
open_nmap-enabled :
    (s : Sessions) (ids : List Text) (w : Window)
    → is_nmap_disabled s ids ≡ false
    → (id : Text) × (ids ≡ id ∷ [])
      × ((open_nmap s ids w).is_open ≡ true)
      × ((open_nmap s ids w).scan_ip ≡ ip_of s id)
      × ((open_nmap s ids w).run_disabled ≡ true)
unfolding is_nmap_disabled open_nmap
open_nmap-enabled s [] w h = absurd (cc h)
open_nmap-enabled s (id ∷ j ∷ ids) w h = absurd (cc h)
open_nmap-enabled s (id ∷ []) w h = elim (Bool-cases (truthy (ip_of s id))) [
  | inl e ↦ rw e (id, refl, refl, refl, refl)
  | inr e ↦ absurd (cc (h, ap not e))
]
