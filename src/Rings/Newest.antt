-- ===== src/Rings/Newest.antt =====
-- A ring after any number of pushes: the newest `cap` entries, in order.
use opta_gateway_mt.Base.{
  drop-drop, ℕ, zero, suc, ◌+◌, ◌-◌, ◌≤◌, ◌≡◌, refl, ap, sym, ◌∙◌, List, [], ◌∷◌, ◌++◌,
  append_assoc, append-nil, length, drop, arith, ltb, if◌then◌else◌,
}
use opta_gateway_mt.Rings.{Ring, push, entries, IsRing}
use opta_gateway_mt.Rings.Window.{push-entries, push-IsRing, length-entries}

module _ {A : Type 0} where
  unfoldable pub push_all : ℕ → List A → Ring A → Ring A
  push_all cap [] r = r
  push_all cap (x ∷ xs) r = push_all cap xs (push cap x r)

  drop-append : (k : ℕ) (xs ys : List A) → k ≤ length xs → drop k (xs ++ ys) ≡ drop k xs ++ ys
  drop-append zero xs ys h = refl
  drop-append (suc k) [] ys h = absurd (omega arith)
  drop-append (suc k) (x ∷ xs) ys h = drop-append k xs ys (omega arith)

  count-push :
      (c : ℕ) (x : A) (r : Ring A)
      → (push c x r).count ≡ (if ltb r.count c then r.count + 1 else r.count)
  unfolding push
  count-push c x r = refl

  -- The ring is a list that keeps the newest: read from the oldest on, whatever has been pushed, its
  -- entries are the last of those it held followed by those pushed, as many as there are slots.
  pub push_all-entries :
      (c : ℕ) (d : A) (xs : List A) (r : Ring A)
      → IsRing (suc c) r
      → entries (suc c) d (push_all (suc c) xs r)
        ≡ drop (r.count + length xs - suc c) (entries (suc c) d r ++ xs)
  unfolding push_all
  push_all-entries c d [] r v =
      sym (append-nil (entries (suc c) d r))
      ∙ ap (λ k. drop k (entries (suc c) d r ++ [])) none_over
    where
      none_over : 0 ≡ r.count + 0 - suc c
      none_over = omega (arith, v.count_in)
  push_all-entries c d (x ∷ xs) r v =
      let b = (if ltb r.count (suc c) then 0 else 1) in
      let es = entries (suc c) d r in
      let r1 = push (suc c) x r in
      push_all-entries c d xs r1 (push-IsRing c x r v)
      ∙ ap (λ ys. drop (r1.count + length xs - suc c) (ys ++ xs)) (push-entries c d x r v)
      ∙ ap (λ ys. drop (r1.count + length xs - suc c) ys)
          (append_assoc (drop b es) (x ∷ []) xs
            ∙ sym (drop-append b es (x ∷ xs) (ground (arith, length-entries (suc c) d r))))
      ∙ drop-drop (r1.count + length xs - suc c) b (es ++ (x ∷ xs))
      ∙ ap (λ k. drop k (es ++ (x ∷ xs))) (ground (arith, count-push (suc c) x r, v.count_in))

  pub push_all-IsRing :
      (c : ℕ) (xs : List A) (r : Ring A) → IsRing (suc c) r → IsRing (suc c) (push_all (suc c) xs r)
  unfolding push_all
  push_all-IsRing c [] r v = v
  push_all-IsRing c (x ∷ xs) r v = push_all-IsRing c xs (push (suc c) x r) (push-IsRing c x r v)
