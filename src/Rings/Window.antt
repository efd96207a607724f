-- ===== src/Rings/Window.antt =====
-- What a ring holds after each operation.
use native.Mathlib.Nat.{mod-add-mod, mod-eq_of_lt, mod-eq-sub-mod, add-zero, sub-zero}
use native.Mathlib.Decide.{dec_lt}
use opta_gateway_mt.Base.{
  ◌⊎◌, ℕ, zero, suc, ◌+◌, ◌-◌, ◌%◌, ◌≤◌, ◌<◌, ◌≡◌, ◌≢◌, inl, inr, refl, ap, ap₂, sym, ◌∙◌, List, [],
  ◌∷◌, ◌++◌, get_or, set, length, length-set, drop, get_or-set_self, get_or-set_ne, arith, ltb,
  Bool-cases, if◌then◌else◌,
}
use opta_gateway_mt.Rings.{Ring, oldest, push, forget, read_from, entries, IsRing}

around : (cap h n : ℕ) → ((h + 1) % cap + n) % cap ≡ (h + suc n) % cap
around cap h n = mod-add-mod (h + 1) cap n ∙ ap (λ k. k % cap) (omega arith)

-- One turn at most: what a remainder below two turns is.
one_turn : (cap i : ℕ) → i < cap + cap → ((i % cap ≡ i) × (i < cap)) ⊎ (i % cap + cap ≡ i)
one_turn cap i h = elim (dec_lt i cap) [
  | yes p ↦ inl (mod-eq_of_lt p, p)
  | no p ↦
      inr (grind (arith, mod-eq-sub-mod {n = i} {m = cap}, mod-eq_of_lt {n = i - cap} {m = cap}))
]

away : (cap h k : ℕ) → 0 < k → k < cap → h < cap → (h + k) % cap ≢ h
away cap h k k0 kc hc = ground (arith, one_turn cap (h + k))

wrap : (cap h : ℕ) → h < cap → (h + cap) % cap ≡ h
wrap cap h k = grind arith

-- The oldest entry stays where it is while there is room.
oldest_room :
    (cap head count : ℕ)
    → head < cap
    → count < cap
    → ((head + 1) % cap + cap - suc count) % cap ≡ (head + cap - count) % cap
oldest_room cap head count h k = ground (
  arith,
  one_turn cap (head + 1),
  one_turn cap ((head + 1) % cap + cap - suc count),
  one_turn cap (head + cap - count),
)

back_to_head :
    (cap head count : ℕ)
    → head < cap
    → count ≤ cap
    → head ≡ ((head + cap - count) % cap + count) % cap
back_to_head cap head count h k =
    sym (
      mod-add-mod (head + cap - count) cap count
      ∙ ap (λ i. i % cap) (omega arith)
      ∙ wrap cap head h)

module _ {A : Type 0} where
  -- What is written to the slot behind the last entry is read as one entry more.
  read_behind :
      (cap : ℕ) (d x : A) (slots : List A) (h n : ℕ)
      → h < cap
      → n < cap
      → cap ≤ length slots
      → read_from cap d (set slots ((h + n) % cap) x) h (suc n)
        ≡ read_from cap d slots h n ++ (x ∷ [])
  unfolding read_from
  read_behind cap d x slots h zero hh hn hs =
      ap (λ v. v ∷ [])
        (ap (λ i. get_or (set slots i x) h d) (rw add-zero (mod-eq_of_lt hh))
          ∙ get_or-set_self slots h x d (omega arith))
  read_behind cap d x slots h (suc n) hh hn hs =
      let behind = (h + suc n) % cap in
      let first : get_or (set slots behind x) h d ≡ get_or slots h d =
        get_or-set_ne slots x d (away cap h (suc n) (omega arith) hn hh) in
      let rest : read_from cap d (set slots behind x) ((h + 1) % cap) (suc n)
          ≡ read_from cap d slots ((h + 1) % cap) n ++ (x ∷ []) =
        ap (λ i. read_from cap d (set slots i x) ((h + 1) % cap) (suc n)) (sym (around cap h n))
        ∙ read_behind cap d x slots ((h + 1) % cap) n (omega arith) (omega arith) hs in
      ap (λ v. v ∷ read_from cap d (set slots behind x) ((h + 1) % cap) (suc n)) first
      ∙ ap (λ vs. get_or slots h d ∷ vs) rest

  read_from-drop :
      (cap : ℕ) (d : A) (slots : List A) (k n h : ℕ)
      → h < cap
      → k ≤ n
      → read_from cap d slots ((h + k) % cap) (n - k) ≡ drop k (read_from cap d slots h n)
  unfolding read_from
  read_from-drop cap d slots zero n h hh hk = rw (add-zero, mod-eq_of_lt hh, sub-zero)
  read_from-drop cap d slots (suc k) zero h hh hk = absurd (omega arith)
  read_from-drop cap d slots (suc k) (suc n) h hh hk =
      ap₂ (λ i j. read_from cap d slots i j) (sym (around cap h k)) (omega arith)
      ∙ read_from-drop cap d slots k n ((h + 1) % cap) (omega arith) (omega arith)

  push-room :
      (cap : ℕ) (d x : A) (r : Ring A)
      → IsRing cap r
      → r.count < cap
      → entries cap d (push cap x r) ≡ entries cap d r ++ (x ∷ [])
  unfolding entries push
  push-room cap d x r v room =
      let count_up : (push cap x r).count ≡ suc r.count = ground arith in
      let still : oldest cap (push cap x r) ≡ oldest cap r =
        ap (λ n. ((r.head + 1) % cap + cap - n) % cap) count_up
        ∙ oldest_room cap r.head r.count v.head_in room in
      ap₂ (λ i n. read_from cap d (set r.slots r.head x) i n) still count_up
      ∙ ap (λ i. read_from cap d (set r.slots i x) (oldest cap r) (suc r.count))
          (back_to_head cap r.head r.count v.head_in v.count_in)
      ∙ read_behind cap d x r.slots (oldest cap r) r.count (omega (arith, v.head_in)) room
          (omega (arith, v.sized))

  push-full :
      (c : ℕ) (d x : A) (r : Ring A)
      → IsRing (suc c) r
      → r.count ≡ suc c
      → entries (suc c) d (push (suc c) x r) ≡ drop 1 (entries (suc c) d r) ++ (x ∷ [])
  unfolding entries push
  push-full c d x r v full =
      let next = (r.head + 1) % suc c in
      let count_same : (push (suc c) x r).count ≡ suc c = ground arith in
      let moved : oldest (suc c) (push (suc c) x r) ≡ next =
        ap (λ n. (next + suc c - n) % suc c) count_same
        ∙ ap (λ i. i % suc c) (omega arith)
        ∙ mod-eq_of_lt (omega arith) in
      let here : oldest (suc c) r ≡ r.head =
        ap (λ n. (r.head + suc c - n) % suc c) full
        ∙ ap (λ i. i % suc c) (omega arith)
        ∙ mod-eq_of_lt v.head_in in
      ap₂ (λ i n. read_from (suc c) d (set r.slots r.head x) i n) moved count_same
      ∙ ap (λ i. read_from (suc c) d (set r.slots i x) next (suc c))
          (sym (around (suc c) r.head c ∙ wrap (suc c) r.head v.head_in))
      ∙ read_behind (suc c) d x r.slots next c (omega arith) (omega arith) (omega (arith, v.sized))
      ∙ sym (ap₂ (λ i n. drop 1 (read_from (suc c) d r.slots i n) ++ (x ∷ [])) here full)

  -- A push keeps the newest `cap` entries: the new one comes last, and the oldest goes if the
  -- ring was full.
  pub push-entries :
      (c : ℕ) (d x : A) (r : Ring A)
      → IsRing (suc c) r
      → entries (suc c) d (push (suc c) x r)
        ≡ drop (if ltb r.count (suc c) then 0 else 1) (entries (suc c) d r) ++ (x ∷ [])
  push-entries c d x r v = elim (Bool-cases (ltb r.count (suc c))) [
    | inl room ↦ simp room (push-room (suc c) d x r v (ground arith))
    | inr full ↦ simp full (push-full c d x r v (ground (arith, v.count_in)))
  ]

  pub push-IsRing :
      (c : ℕ) (x : A) (r : Ring A) → IsRing (suc c) r → IsRing (suc c) (push (suc c) x r)
  unfolding push
  push-IsRing c x r v = ground (arith, length-set r.slots r.head x)

  -- Forgetting drops entries from the old end.
  pub forget-entries :
      (cap : ℕ) (d : A) (k : ℕ) (r : Ring A)
      → IsRing cap r
      → k ≤ r.count
      → entries cap d (forget k r) ≡ drop k (entries cap d r)
  unfolding entries forget
  forget-entries cap d k r v h =
      let left : (forget k r).count ≡ r.count - k = ground arith in
      let moved : oldest cap (forget k r) ≡ (oldest cap r + k) % cap =
        ap (λ n. (r.head + cap - n) % cap) left
        ∙ ap (λ i. i % cap) (omega (arith, v.count_in))
        ∙ sym (mod-add-mod (r.head + cap - r.count) cap k) in
      ap₂ (λ i n. read_from cap d r.slots i n) moved left
      ∙ read_from-drop cap d r.slots k r.count (oldest cap r) (omega (arith, v.head_in)) h

  pub forget-IsRing : (cap k : ℕ) (r : Ring A) → IsRing cap r → IsRing cap (forget k r)
  unfolding forget
  forget-IsRing cap k r v = ground arith

  pub length-entries : (cap : ℕ) (d : A) (r : Ring A) → length (entries cap d r) ≡ r.count
  unfolding entries
  length-entries cap d r = go (oldest cap r) r.count
    where
      go : (h n : ℕ) → length (read_from cap d r.slots h n) ≡ n
      go h zero = refl
      go h (suc n) = ap suc (go ((h + 1) % cap) n)
