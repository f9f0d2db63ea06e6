-- ===== src/SelfRegister/Polling.antt =====
-- The polling of `lookupSession`.
use ise_endpoint_portal.Prelude.{
  ℕ, zero, suc, ◌+◌, ◌≤◌, ◌≡◌, ◌⊎◌, refl, ap, ◌∙◌, inl, inr, Bool, true, false, List, [], ◌∷◌,
  if◌then◌else◌, All, arith, Bool-cases,
}
use ise_endpoint_portal.SelfRegister.{
  Fetched, threw, fetched, Lookup, Searched, not_found, ends_with, one_more_try, attempts,
  lookup_session,
}

abbrev pub is_found : Fetched Lookup → Bool
is_found (threw m) = false
is_found (fetched l) = l.found

-- what `count` attempts bring, from the n-th on
abbrev pub replies : (reply : ℕ → Fetched Lookup) → ℕ → ℕ → List (Fetched Lookup)
replies reply n zero = []
replies reply n (suc count) = reply n ∷ replies reply (suc n) count

-- The search ends with the first attempt that finds a session, and a pause for each one before it.
pub record IsFirst (reply : ℕ → Fetched Lookup) (n max : ℕ) (r : Searched) : Type 0 where
  pub before : ℕ
  pub found : r.lookup.found ≡ true
  pub that_reply : reply (n + before) ≡ fetched r.lookup
  pub none_before : All (λ x. is_found x ≡ false) (replies reply n before)
  pub polled : r.polls ≡ suc before
  pub paused : r.pauses ≡ before
  pub in_time : suc before ≤ max

-- No attempt finds a session, and all were made.
pub record IsExhausted (reply : ℕ → Fetched Lookup) (n max : ℕ) (r : Searched) : Type 0 where
  pub absent : r.lookup.found ≡ false
  pub none_found : All (λ x. is_found x ≡ false) (replies reply n max)
  pub polled : r.polls ≡ max
  pub paused : suc r.pauses ≡ max

later-IsFirst :
    (reply : ℕ → Fetched Lookup) (n max : ℕ) (r : Searched)
    → is_found (reply n) ≡ false
    → IsFirst reply (suc n) max r
    → IsFirst reply n (suc max) (one_more_try r)
later-IsFirst reply n max r h f = record {
  before = suc f.before;
  found = f.found;
  that_reply = ap reply (omega arith) ∙ f.that_reply;
  none_before = (h, f.none_before);
  polled = ap suc f.polled;
  paused = ap suc f.paused;
  in_time = omega (arith, f.in_time);
}

later-IsExhausted :
    (reply : ℕ → Fetched Lookup) (n max : ℕ) (r : Searched)
    → is_found (reply n) ≡ false
    → IsExhausted reply (suc n) max r
    → IsExhausted reply n (suc max) (one_more_try r)
later-IsExhausted reply n max r h f = record {
  absent = f.absent;
  none_found = (h, f.none_found);
  polled = ap suc f.polled;
  paused = ap suc f.paused;
}

later :
    (reply : ℕ → Fetched Lookup) (n max : ℕ) (r : Searched)
    → is_found (reply n) ≡ false
    → IsFirst reply (suc n) max r ⊎ IsExhausted reply (suc n) max r
    → IsFirst reply n (suc max) (one_more_try r) ⊎ IsExhausted reply n (suc max) (one_more_try r)
later reply n max r h (inl f) = inl (later-IsFirst reply n max r h f)
later reply n max r h (inr f) = inr (later-IsExhausted reply n max r h f)

found_now :
    (reply : ℕ → Fetched Lookup) (n max : ℕ) (l : Lookup)
    → reply n ≡ fetched l
    → l.found ≡ true
    → IsFirst reply n (suc max) (ends_with l)
found_now reply n max l e h = record {
  before = 0;
  found = h;
  that_reply = ap reply (omega arith) ∙ e;
  none_before = tt;
  polled = refl;
  paused = refl;
  in_time = omega arith;
}

last_try :
    (reply : ℕ → Fetched Lookup) (n : ℕ) (l : Lookup)
    → is_found (reply n) ≡ false
    → l.found ≡ false
    → IsExhausted reply n 1 (ends_with l)
last_try reply n l e h = record { absent = h; none_found = (e, tt); polled = refl; paused = refl }

Fetched-cases : (x : Fetched Lookup) → ((m : _) × (x ≡ threw m)) ⊎ ((l : Lookup) × (x ≡ fetched l))
Fetched-cases (threw m) = inl (m, refl)
Fetched-cases (fetched l) = inr (l, refl)

attempts-last :
    (reply : ℕ → Fetched Lookup) (n : ℕ) (x : Fetched Lookup)
    → reply n ≡ x
    → attempts 1 reply n ≡ elim x [ threw m ↦ ends_with not_found | fetched l ↦ ends_with l ]
unfolding attempts
attempts-last reply n x e =
    ap (λ y. elim y [ threw m ↦ ends_with not_found | fetched l ↦ ends_with l ]) e

attempts-next :
    (left : ℕ) (reply : ℕ → Fetched Lookup) (n : ℕ) (x : Fetched Lookup)
    → reply n ≡ x
    → attempts (suc (suc left)) reply n ≡ elim x [
      | threw m ↦ one_more_try (attempts (suc left) reply (suc n))
      | fetched l ↦
          if l.found then ends_with l else one_more_try (attempts (suc left) reply (suc n))
    ]
unfolding attempts
attempts-next left reply n x e =
    ap
      (λ y. elim y [
        | threw m ↦ one_more_try (attempts (suc left) reply (suc n))
        | fetched l ↦
            if l.found then ends_with l else one_more_try (attempts (suc left) reply (suc n))
      ])
      e

abbrev Ends : (reply : ℕ → Fetched Lookup) (n max : ℕ) → Searched → Type 0
Ends reply n max r = IsFirst reply n max r ⊎ IsExhausted reply n max r

attempts-Ends :
    (left : ℕ) (reply : ℕ → Fetched Lookup) (n : ℕ)
    → Ends reply n (suc left) (attempts (suc left) reply n)
attempts-Ends zero reply n = elim (Fetched-cases (reply n)) [
  | inl (m, e) ↦
      rw (attempts-last reply n (threw m) e) (inr (last_try reply n not_found (ap is_found e) refl))
  | inr (l, e) ↦ elim (Bool-cases l.found) [
    | inl f ↦ rw (attempts-last reply n (fetched l) e) (inl (found_now reply n 0 l e f))
    | inr f ↦
        rw (attempts-last reply n (fetched l) e) (inr (last_try reply n l (ap is_found e ∙ f) f))
  ]
]
attempts-Ends (suc left) reply n =
    let ih = attempts-Ends left reply (suc n) in
    elim (Fetched-cases (reply n)) [
      | inl (m, e) ↦
          rw (attempts-next left reply n (threw m) e)
            (later reply n (suc left) (attempts (suc left) reply (suc n)) (ap is_found e) ih)
      | inr (l, e) ↦ elim (Bool-cases l.found) [
        | inl f ↦
            rw
              (attempts-next left reply n (fetched l) e
                ∙ ap
                    (λ b.
                      if b then ends_with l else one_more_try (attempts (suc left) reply (suc n)))
                    f)
              (inl (found_now reply n (suc left) l e f))
        | inr f ↦
            rw
              (attempts-next left reply n (fetched l) e
                ∙ ap
                    (λ b.
                      if b then ends_with l else one_more_try (attempts (suc left) reply (suc n)))
                    f)
              (later reply n (suc left) (attempts (suc left) reply (suc n)) (ap is_found e ∙ f) ih)
      ]
    ]

-- A search with at least one attempt ends with the first of them that finds a session, after that many
-- polls and a pause between each two, or, if none does, reports none after all of them.
pub lookup_session-Ends :
    (max : ℕ) (reply : ℕ → Fetched Lookup)
    → IsFirst reply 1 (suc max) (lookup_session (suc max) reply)
      ⊎ IsExhausted reply 1 (suc max) (lookup_session (suc max) reply)
unfolding lookup_session
lookup_session-Ends max reply = attempts-Ends max reply 1
