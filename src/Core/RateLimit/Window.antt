-- ===== src/Core/RateLimit/Window.antt =====
-- The deque of a key holds exactly the admitted requests of the current window.
use alfa_hackaton.Prelude.{
  ℕ, ◌+◌, ◌≤◌, ◌<◌, ◌≡◌, refl, ap, ◌∙◌, sym, inl, inr, Bool, List, [], ◌∷◌, ◌++◌, arith, All, Text,
  length, length-append, text_eq, text_eq_iff, ltb, leb, if◌then◌else◌, Bool-cases,
}
use alfa_hackaton.Prelude.Dict.{insert, lookup-insert}
use alfa_hackaton.Core.RateLimit.{Limiter, window_of, drop_old, allow}

-- The times of a list that lie in the window that ends at `now`: the reference definition.
abbrev pub recent : ℕ → ℕ → List ℕ → List ℕ
recent now seconds [] = []
recent now seconds (h ∷ hs) =
    let rest = recent now seconds hs in if leb (h + seconds) now then rest else h ∷ rest

abbrev pub IsAscending : List ℕ → Type 0
IsAscending [] = Unit
IsAscending (h ∷ hs) = All (λ a. h ≤ a) hs × IsAscending hs

-- A deque at a time: ascending, not in the future, and not too long.
pub record IsWindow (now limit : ℕ) (w : List ℕ) : Type 0 where
  pub ascending : IsAscending w
  pub past : All (λ a. a ≤ now) w
  pub bounded : length w ≤ limit

abbrev pub IsValid : ℕ → Limiter → Type 0
IsValid now m = (k : Text) → IsWindow now m.max_requests (window_of k m)

All-recent' :
    (now seconds h : ℕ) (w : List ℕ)
    → now < h + seconds
    → All (λ a. h ≤ a) w
    → recent now seconds w ≡ w
All-recent' now seconds h [] p q = refl
All-recent' now seconds h (a ∷ w) p (q, r) = ground (arith, All-recent' now seconds h w p r)

drop_old-recent :
    (now seconds : ℕ) (w : List ℕ) → IsAscending w → drop_old now seconds w ≡ recent now seconds w
unfolding drop_old
drop_old-recent now seconds [] p = refl
drop_old-recent now seconds (h ∷ w) (p, q) = elim (Bool-cases (leb (h + seconds) now)) [
  | inl old ↦ rw old (drop_old-recent now seconds w q)
  | inr new ↦ rw new (ap (◌∷◌ h) (sym (All-recent' now seconds h w (ground arith) p)))
]

recent-recent :
    (now t seconds : ℕ) (w : List ℕ)
    → now ≤ t
    → recent t seconds (recent now seconds w) ≡ recent t seconds w
recent-recent now t seconds [] p = refl
recent-recent now t seconds (h ∷ w) p = ground (arith, recent-recent now t seconds w p)

recent-append :
    (t seconds : ℕ) (v w : List ℕ)
    → recent t seconds (v ++ w) ≡ recent t seconds v ++ recent t seconds w
recent-append t seconds [] w = refl
recent-append t seconds (h ∷ v) w = ground (arith, recent-append t seconds v w)

All-recent :
    (P : ℕ → Type 0) (now seconds : ℕ) (w : List ℕ) → All P w → All P (recent now seconds w)
All-recent P now seconds [] p = tt
All-recent P now seconds (h ∷ w) (p, q) = elim (Bool-cases (leb (h + seconds) now)) [
  | inl old ↦ rw old (All-recent P now seconds w q)
  | inr new ↦ rw new (p, All-recent P now seconds w q)
]

IsAscending-recent :
    (now seconds : ℕ) (w : List ℕ) → IsAscending w → IsAscending (recent now seconds w)
IsAscending-recent now seconds [] p = tt
IsAscending-recent now seconds (h ∷ w) (p, q) = elim (Bool-cases (leb (h + seconds) now)) [
  | inl old ↦ rw old (IsAscending-recent now seconds w q)
  | inr new ↦ rw new (All-recent (λ a. h ≤ a) now seconds w p, IsAscending-recent now seconds w q)
]

length-recent : (now seconds : ℕ) (w : List ℕ) → length (recent now seconds w) ≤ length w
length-recent now seconds [] = omega arith
length-recent now seconds (h ∷ w) = ground (arith, length-recent now seconds w)

All-later : (from now : ℕ) (w : List ℕ) → from ≤ now → All (λ a. a ≤ from) w → All (λ a. a ≤ now) w
All-later from now [] p q = tt
All-later from now (h ∷ w) p (q, r) = (omega arith, All-later from now w p r)

All-last : (P : ℕ → Type 0) (n : ℕ) (w : List ℕ) → All P w → P n → All P (w ++ n ∷ [])
All-last P n [] p q = (q, tt)
All-last P n (h ∷ w) (p, r) q = (p, All-last P n w r q)

IsAscending-last :
    (n : ℕ) (w : List ℕ) → IsAscending w → All (λ a. a ≤ n) w → IsAscending (w ++ n ∷ [])
IsAscending-last n [] p q = (tt, tt)
IsAscending-last n (h ∷ w) (p, r) (q, s) = (All-last (λ a. h ≤ a) n w p q, IsAscending-last n w r s)

IsWindow-recent :
    (from now limit seconds : ℕ) (w : List ℕ)
    → from ≤ now
    → IsWindow from limit w
    → IsWindow now limit (recent now seconds w)
IsWindow-recent from now limit seconds w p v = record {
  ascending = IsAscending-recent now seconds w v.ascending;
  past = All-recent (λ a. a ≤ now) now seconds w (All-later from now w p v.past);
  bounded = omega (arith, v.bounded, length-recent now seconds w);
}

IsWindow-last :
    (now limit : ℕ) (w : List ℕ)
    → length w < limit
    → IsWindow now limit w
    → IsWindow now limit (w ++ now ∷ [])
IsWindow-last now limit w p v = record {
  ascending = IsAscending-last now w v.ascending v.past;
  past = All-last (λ a. a ≤ now) now w v.past (omega arith);
  bounded = omega (arith, length-append w (now ∷ []));
}

window_of-insert :
    (j k : Text) (w : List ℕ) (m : Limiter)
    → window_of j (record m { hits = insert text_eq k w m.hits })
      ≡ (if text_eq k j then w else window_of j m)
unfolding window_of
window_of-insert j k w m = ground (arith, lookup-insert text_eq text_eq_iff k j w m.hits)

-- What a call does: whether it is admitted, and which requests of each key are in the window later.
abbrev pub Admits : ℕ → Text → Limiter → Bool × Limiter → Type 0
Admits now k m (allowed, m') =
    IsValid now m'
    × (allowed ≡ ltb (length (recent now m.window_seconds (window_of k m))) m.max_requests)
    × ((t : ℕ) (j : Text)
        → now ≤ t
        → recent t m.window_seconds (window_of j m') ≡ (
            if text_eq k j
            then recent t m.window_seconds
                (if allowed then window_of k m ++ now ∷ [] else window_of k m)
            else recent t m.window_seconds (window_of j m)))

window_of_later : (from now : ℕ) (m : Limiter) → from ≤ now → IsValid from m → IsValid now m
window_of_later from now m p v k = record {
  ascending = (v k).ascending;
  past = All-later from now (window_of k m) p (v k).past;
  bounded = (v k).bounded;
}

replaced :
    (now : ℕ) (k : Text) (w : List ℕ) (m : Limiter)
    → IsWindow now m.max_requests w
    → IsValid now m
    → IsValid now (record m { hits = insert text_eq k w m.hits })
replaced now k w m p v j =
    rw (window_of-insert j k w m)
      (elim (Bool-cases (text_eq k j)) [ inl own ↦ rw own p | inr other ↦ rw other (v j) ])

seen :
    (now t : ℕ) (k j : Text) (w u : List ℕ) (m : Limiter)
    → recent t m.window_seconds w ≡ recent t m.window_seconds u
    → recent t m.window_seconds (window_of j (record m { hits = insert text_eq k w m.hits })) ≡ (
        if text_eq k j
        then recent t m.window_seconds u
        else recent t m.window_seconds (window_of j m))
seen now t k j w u m e =
    rw (window_of-insert j k w m)
      (elim (Bool-cases (text_eq k j)) [ inl own ↦ rw own e | inr other ↦ rw other refl ])

-- While the clock does not go back, a request is admitted exactly when its key has fewer than
-- `max_requests` admitted requests in the window that ends at it. An admitted request, and no other,
-- enters the window of its key; the windows of the other keys stay. Every window stays ascending, in
-- the past, and within the limit.
pub allow-Admits :
    (from now : ℕ) (k : Text) (m : Limiter)
    → from ≤ now
    → IsValid from m
    → Admits now k m (allow now k m)
unfolding allow
allow-Admits from now k m p v =
    let w = window_of k m in
    let r = recent now m.window_seconds w in
    let is_window = IsWindow-recent from now m.max_requests m.window_seconds w p (v k) in
    let later = window_of_later from now m p v in
    rw (drop_old-recent now m.window_seconds w (v k).ascending)
      (elim (Bool-cases (leb m.max_requests (length r))) [
        | inl full ↦ rw full (
          replaced now k r m is_window later,
          ground arith,
          λ t j q. seen now t k j r w m (recent-recent now t m.window_seconds w q),
        )
        | inr room ↦ rw room (
          replaced now k (r ++ now ∷ []) m
              (IsWindow-last now m.max_requests r (ground arith) is_window) later,
          ground arith,
          λ t j q. seen now t k j (r ++ now ∷ []) (w ++ now ∷ []) m (
              recent-append t m.window_seconds r (now ∷ [])
              ∙ ap (λ x. x ++ recent t m.window_seconds (now ∷ []))
                  (recent-recent now t m.window_seconds w q)
              ∙ sym (recent-append t m.window_seconds w (now ∷ []))),
        )
      ])
