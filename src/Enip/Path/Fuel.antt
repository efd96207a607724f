-- ===== src/Enip/Path/Fuel.antt =====
-- EtherNetIP.cpp, `buildSymbolicPath`: the loops end.
use opta_gateway_mt.Base.{
  ltb, ◌||◌, not, ◌==◌, ◌^◌, ◌%◌, ◌-◌, ◌*◌, ℕ, zero, suc, ◌+◌, ◌≤◌, ◌≡◌, refl, arith, Bool, true,
  false, [], ◌∷◌, ◌++◌, length, Option, none, some, if◌then◌else◌, ap,
}
use opta_gateway_mt.Enip.{Bytes}
use opta_gateway_mt.Enip.Path.{
  index_segment, open_bracket, close_bracket, name_segment, split_name, digits, close_index,
  and_then, indexes, put_name, skip_dot, member, segments,
}

length-split_name : (p : Bytes) → length (split_name p).0 + length (split_name p).1 ≡ length p
unfolding split_name
length-split_name [] = omega arith
length-split_name (c ∷ p) = ground (arith, length-split_name p)

length-digits : (idx : ℕ) (any : Bool) (p : Bytes) → length (digits idx any p).2 ≤ length p
unfolding digits
length-digits idx any [] = omega arith
length-digits idx any (c ∷ p) =
    ground (arith, length-digits ((idx * 10 + (c - 48)) % 2 ^ 32) true p)

-- What is left after a step that did not give up is at most `n` bytes.
abbrev LeavesAtMost : ℕ → Option (Bytes × Bytes) → Type 0
LeavesAtMost n none = Unit
LeavesAtMost n (some (p, _)) = length p ≤ n

leaves-if :
    (n : ℕ) (b : Bool) (x y : Option (Bytes × Bytes))
    → LeavesAtMost n x
    → LeavesAtMost n y
    → LeavesAtMost n (if b then x else y)
leaves-if n true x y hx hy = hx
leaves-if n false x y hx hy = hy

close_index-leaves :
    (room n : ℕ) (d : ℕ × Bool × Bytes) (out : Bytes)
    → length d.2 ≤ suc n
    → LeavesAtMost n (close_index room d out)
unfolding close_index
close_index-leaves room n (idx, any, []) out h = tt
close_index-leaves room n (idx, any, c ∷ p) out h =
    leaves-if n (not any || not (c == close_bracket)) _ _ tt
      (leaves-if n (ltb room (length out + length (index_segment idx))) _ _ tt (omega arith))

leaves-le : (n m : ℕ) (r : Option (Bytes × Bytes)) → n ≤ m → LeavesAtMost n r → LeavesAtMost m r
leaves-le n m none h l = tt
leaves-le n m (some (p, out)) h l = omega arith

-- A step whose rest is within `n` goes on alike by two functions that agree on such rests.
and_then-same :
    (n : ℕ) (r : Option (Bytes × Bytes)) (f g : Bytes → Bytes → Option (Bytes × Bytes))
    → LeavesAtMost n r
    → ((p out : Bytes) → length p ≤ n → f p out ≡ g p out)
    → and_then r f ≡ and_then r g
and_then-same n none f g h e = refl
and_then-same n (some (p, out)) f g h e = e p out h

and_then-leaves :
    (n m : ℕ) (r : Option (Bytes × Bytes)) (f : Bytes → Bytes → Option (Bytes × Bytes))
    → LeavesAtMost n r
    → ((p out : Bytes) → length p ≤ n → LeavesAtMost m (f p out))
    → LeavesAtMost m (and_then r f)
and_then-leaves n m none f h e = tt
and_then-leaves n m (some (p, out)) f h e = e p out h

indexes-leaves : (room f : ℕ) (p out : Bytes) → LeavesAtMost (length p) (indexes room f p out)
unfolding indexes
indexes-leaves room f [] out = omega arith
indexes-leaves room zero (c ∷ p) out = tt
indexes-leaves room (suc f) (c ∷ p) out =
    let closed =
      close_index-leaves room (length p) (digits 0 false p) out
        (omega (arith, length-digits 0 false p)) in
    leaves-if (suc (length p)) (c == open_bracket) _ _
      (and_then-leaves (length p) (suc (length p)) (close_index room (digits 0 false p) out)
        (λ q o. indexes room f q o) closed
        (λ q o h.
          leaves-le (length q) (suc (length p)) (indexes room f q o) (omega arith)
            (indexes-leaves room f q o)))
      (omega arith)

put_name-shorter :
    (room n : ℕ) (name rest out : Bytes)
    → length name + length rest ≡ suc n
    → LeavesAtMost n (put_name room (name, rest) out)
unfolding put_name
put_name-shorter room n [] rest out e = tt
put_name-shorter room n (x ∷ xs) rest out e =
    leaves-if n
      (ltb 63 (suc (length xs))
        || suc (length xs) == 0
        || ltb room (length out + 2 + suc (length xs) + 1))
      none (some (rest, out ++ name_segment (x ∷ xs))) tt (omega arith)

-- A name that is not empty takes at least a byte.
put_name-leaves :
    (room c : ℕ) (p out : Bytes) → LeavesAtMost (length p) (put_name room (split_name (c ∷ p)) out)
put_name-leaves room c p out =
    let s = split_name (c ∷ p) in
    put_name-shorter room (length p) s.0 s.1 out (length-split_name (c ∷ p))

skip_dot-le : (p : Bytes) → length (skip_dot p) ≤ length p
skip_dot-le [] = omega arith
skip_dot-le (c ∷ p) = ground arith

member-leaves : (room c : ℕ) (p out : Bytes) → LeavesAtMost (length p) (member room (c ∷ p) out)
unfolding member
member-leaves room c p out =
    and_then-leaves (length p) (length p)
      (and_then (put_name room (split_name (c ∷ p)) out) (λ q o. indexes room (length q) q o))
      (λ q o. some (skip_dot q, o))
      (and_then-leaves (length p) (length p) (put_name room (split_name (c ∷ p)) out)
        (λ q o. indexes room (length q) q o) (put_name-leaves room c p out)
        (λ q o h.
          leaves-le (length q) (length p) (indexes room (length q) q o) h
            (indexes-leaves room (length q) q o)))
      (λ q o h. omega (arith, skip_dot-le q))

indexes_fuel :
    (room : ℕ) (p out : Bytes) (f g : ℕ)
    → length p ≤ f
    → length p ≤ g
    → indexes room f p out ≡ indexes room g p out
unfolding indexes
indexes_fuel room [] out zero zero hf hg = refl
indexes_fuel room [] out zero (suc g) hf hg = refl
indexes_fuel room [] out (suc f) zero hf hg = refl
indexes_fuel room [] out (suc f) (suc g) hf hg = refl
indexes_fuel room (c ∷ p) out zero g hf hg = absurd (omega arith)
indexes_fuel room (c ∷ p) out (suc f) zero hf hg = absurd (omega arith)
indexes_fuel room (c ∷ p) out (suc f) (suc g) hf hg =
    ap (λ r. if c == open_bracket then r else some (c ∷ p, out))
      (and_then-same (length p) (close_index room (digits 0 false p) out)
        (λ q o. indexes room f q o) (λ q o. indexes room g q o)
        (close_index-leaves room (length p) (digits 0 false p) out
          (omega (arith, length-digits 0 false p)))
        (λ q o h. indexes_fuel room q o f g (omega arith) (omega arith)))

segments_fuel :
    (room : ℕ) (p out : Bytes) (f g : ℕ)
    → length p ≤ f
    → length p ≤ g
    → segments room f p out ≡ segments room g p out
unfolding segments
segments_fuel room [] out zero zero hf hg = refl
segments_fuel room [] out zero (suc g) hf hg = refl
segments_fuel room [] out (suc f) zero hf hg = refl
segments_fuel room [] out (suc f) (suc g) hf hg = refl
segments_fuel room (c ∷ p) out zero g hf hg = absurd (omega arith)
segments_fuel room (c ∷ p) out (suc f) zero hf hg = absurd (omega arith)
segments_fuel room (c ∷ p) out (suc f) (suc g) hf hg =
    and_then-same (length p) (member room (c ∷ p) out) (λ q o. segments room f q o)
      (λ q o. segments room g q o) (member-leaves room c p out)
      (λ q o h. segments_fuel room q o f g (omega arith) (omega arith))

-- As many rounds as the text has bytes are enough for both loops: with more they return the same.
pub build_path_fuel :
    (room : ℕ) (p out : Bytes) (f : ℕ)
    → length p ≤ f
    → (segments room f p out ≡ segments room (length p) p out)
      × (indexes room f p out ≡ indexes room (length p) p out)
build_path_fuel room p out f h = (
  segments_fuel room p out f (length p) h (omega arith),
  indexes_fuel room p out f (length p) h (omega arith),
)
