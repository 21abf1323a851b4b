-- ===== src/Processing/Key.antt =====
-- `_state_key`: two requests share a key only if they share the consumer and the payload id.
use alfa_hackaton.Prelude.{
  ◌≡◌, refl, ap, List, [], ◌∷◌, ◌++◌, arith, Text, codes, length, length-append,
}
use alfa_hackaton.Processing.{Environment, state_key}

module _ {A : Type 0} where
  head_eq : (a b : A) (s t : List A) → a ∷ s ≡ b ∷ t → (a ≡ b) × (s ≡ t)
  head_eq a b s t e = (cc e, cc e)

  same_length-append :
      (a b s t : List A) → length a ≡ length b → a ++ s ≡ b ++ t → (a ≡ b) × (s ≡ t)
  same_length-append [] [] s t l e = (refl, e)
  same_length-append [] (y ∷ b) s t l e = absurd (omega arith)
  same_length-append (x ∷ a) [] s t l e = absurd (omega arith)
  same_length-append (x ∷ a) (y ∷ b) s t l e =
      let (p, q) = head_eq x y (a ++ s) (b ++ t) e in
      let (p', q') = same_length-append a b s t (omega arith) q in (cc (p, p'), q')

module _ (env : Environment) where
  -- Two keys are equal only for the same consumer and the same payload id, if digests have one
  -- length and the digests of the two pairs differ where the pairs do; the colons and zero
  -- characters that the ids may hold do not matter.
  pub state_key-injective :
      (consumer_id payload_id consumer_id' payload_id' : Text)
      → length (env.sha256 (consumer_id ++ 0 ∷ payload_id))
        ≡ length (env.sha256 (consumer_id' ++ 0 ∷ payload_id'))
      → (env.sha256 (consumer_id ++ 0 ∷ payload_id) ≡ env.sha256 (consumer_id' ++ 0 ∷ payload_id')
          → consumer_id ++ 0 ∷ payload_id ≡ consumer_id' ++ 0 ∷ payload_id')
      → state_key env consumer_id payload_id ≡ state_key env consumer_id' payload_id'
      → (consumer_id ≡ consumer_id') × (payload_id ≡ payload_id')
  unfolding state_key
  state_key-injective c p c' p' l collision e =
      let l' : length (c ++ (codes ":" ++ env.sha256 (c ++ 0 ∷ p)))
          ≡ length (c' ++ (codes ":" ++ env.sha256 (c' ++ 0 ∷ p'))) =
        ap length e in
      let (same, rest) =
        same_length-append c c' (codes ":" ++ env.sha256 (c ++ 0 ∷ p))
          (codes ":" ++ env.sha256 (c' ++ 0 ∷ p'))
          (omega (
            arith,
            l',
            length-append c (codes ":" ++ env.sha256 (c ++ 0 ∷ p)),
            length-append c' (codes ":" ++ env.sha256 (c' ++ 0 ∷ p')),
          ))
          e in
      let (_, digests) = head_eq _ _ _ _ rest in
      let (_, q) = same_length-append c c' (0 ∷ p) (0 ∷ p') (ap length same) (collision digests) in
      (same, (head_eq _ _ _ _ q).1)
