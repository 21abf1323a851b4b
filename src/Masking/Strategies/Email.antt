-- ===== src/Masking/Strategies/Email.antt =====
-- What the email mask shows.
use alfa_hackaton.Prelude.{ℕ, ◌≡◌, ◌≢◌, refl, some, [], ◌∷◌, ◌++◌, arith, All, Text, codes}
use alfa_hackaton.Masking.Chars.{CharClass}
use alfa_hackaton.Masking.Strategies.{partition_at, mask_email}

-- A login ends at the first "@".
partition_at-login :
    (login domain : Text)
    → All (λ c. c ≢ b'@') login
    → partition_at (login ++ (b'@' ∷ domain)) ≡ some (login, domain)
unfolding partition_at
partition_at-login [] domain h = refl
partition_at-login (c ∷ login) domain (p, h) = ground (arith, partition_at-login login domain h)

-- The mask of an address with a login shows the login's first character and the domain: three
-- stars stand for the rest of the login, whatever its length. Without a login, one star stands
-- before the "@".
pub mask_email-parts :
    (chars : CharClass) (c : ℕ) (login domain : Text)
    → All (λ c. c ≢ b'@') (c ∷ login)
    → (mask_email chars ((c ∷ login) ++ (b'@' ∷ domain)) ≡ c ∷ (codes "***@" ++ domain))
      × (mask_email chars (b'@' ∷ domain) ≡ codes "*@" ++ domain)
unfolding mask_email
mask_email-parts chars c login domain h =
    (ground (arith, partition_at-login login domain h.1), refl)
