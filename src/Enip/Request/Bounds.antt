-- ===== src/Enip/Request/Bounds.antt =====
-- EtherNetIP.cpp: no message is longer than its buffer, and every path is whole words.
use opta_gateway_mt.Base.{
  ℕ, zero, suc, ◌+◌, ◌/◌, ◌%◌, ◌≤◌, ◌≡◌, refl, arith, Bool, true, false, not, ◌||◌, List, [], ◌∷◌,
  ◌++◌, length, Option, none, some, if◌then◌else◌, ltb, ◌==◌, length-append, Bool-cases, inl, inr,
}
use opta_gateway_mt.Enip.{Bytes, put16, svc_write_tag}
use opta_gateway_mt.Enip.Path.{
  split_name, digits, index_segment, close_index, and_then, indexes, name_segment, put_name,
  skip_dot, member, segments, build_path, written, open_bracket, close_bracket,
}
use opta_gateway_mt.Enip.Request.{cip_frame}

-- What has been written is whole words within the buffer.
abbrev IsWhole : ℕ → Bytes → Type 0
IsWhole room out = (length out ≤ room) × (length out % 2 ≡ 0)

abbrev WritesWhole : ℕ → Option (Bytes × Bytes) → Type 0
WritesWhole room none = Unit
WritesWhole room (some (p, out)) = IsWhole room out

whole-if :
    (room : ℕ) (b : Bool) (x y : Option (Bytes × Bytes))
    → WritesWhole room x
    → WritesWhole room y
    → WritesWhole room (if b then x else y)
whole-if room true x y hx hy = hx
whole-if room false x y hx hy = hy

whole-and_then :
    (room : ℕ) (r : Option (Bytes × Bytes)) (f : Bytes → Bytes → Option (Bytes × Bytes))
    → WritesWhole room r
    → ((p out : Bytes) → IsWhole room out → WritesWhole room (f p out))
    → WritesWhole room (and_then r f)
whole-and_then room none f h k = tt
whole-and_then room (some (p, out)) f h k = k p out h

length-index_segment : (i : ℕ) → length (index_segment i) % 2 ≡ 0
unfolding index_segment
length-index_segment i = ground arith

append-IsWhole :
    (room : ℕ) (out seg : Bytes)
    → ltb room (length out + length seg) ≡ false
    → length seg % 2 ≡ 0
    → IsWhole room out
    → IsWhole room (out ++ seg)
append-IsWhole room out seg b e h = ground (arith, length-append out seg)

close_index-whole :
    (room : ℕ) (d : ℕ × Bool × Bytes) (out : Bytes)
    → IsWhole room out
    → WritesWhole room (close_index room d out)
unfolding close_index
close_index-whole room (idx, any, []) out h = tt
close_index-whole room (idx, any, c ∷ p) out h =
    whole-if room (not any || not (c == close_bracket)) _ _ tt
      (elim (Bool-cases (ltb room (length out + length (index_segment idx)))) [
        | inl b ↦ rw b tt
        | inr b ↦ rw b (append-IsWhole room out (index_segment idx) b (length-index_segment idx) h)
      ])

indexes-whole :
    (room f : ℕ) (p out : Bytes) → IsWhole room out → WritesWhole room (indexes room f p out)
unfolding indexes
indexes-whole room f [] out h = h
indexes-whole room zero (c ∷ p) out h = tt
indexes-whole room (suc f) (c ∷ p) out h =
    whole-if room (c == open_bracket) _ _
      (whole-and_then room (close_index room (digits 0 false p) out) (λ q o. indexes room f q o)
        (close_index-whole room (digits 0 false p) out h) (λ q o k. indexes-whole room f q o k))
      h

put_name-whole :
    (room : ℕ) (name rest out : Bytes)
    → IsWhole room out
    → WritesWhole room (put_name room (name, rest) out)
unfolding put_name name_segment
put_name-whole room name rest out h =
    elim (Bool-cases
      (ltb 63 (length name) || length name == 0 || ltb room (length out + 2 + length name + 1))) [
        | inl b ↦ rw b tt
        | inr b ↦ rw b (
            ground (
              arith,
              length-append out
                  (0x91 ∷ length name ∷ (name ++ (if length name % 2 == 1 then 0 ∷ [] else []))),
              length-append name (if length name % 2 == 1 then 0 ∷ [] else []),
            ))
      ]

segments-whole :
    (room f : ℕ) (p out : Bytes) → IsWhole room out → WritesWhole room (segments room f p out)
unfolding segments member
segments-whole room f [] out h = h
segments-whole room zero (c ∷ p) out h = tt
segments-whole room (suc f) (c ∷ p) out h =
    whole-and_then room _ (λ q o. segments room f q o)
      (whole-and_then room
        (and_then (put_name room (split_name (c ∷ p)) out) (λ q o. indexes room (length q) q o))
        (λ q o. some (skip_dot q, o))
        (whole-and_then room (put_name room (split_name (c ∷ p)) out)
          (λ q o. indexes room (length q) q o)
          (put_name-whole room (split_name (c ∷ p)).0 (split_name (c ∷ p)).1 out h)
          (λ q o k. indexes-whole room (length q) q o k))
        (λ q o k. k))
      (λ q o k. segments-whole room f q o k)

abbrev pub WrittenWhole : ℕ → Option Bytes → Type 0
WrittenWhole room none = Unit
WrittenWhole room (some out) = (length out ≤ room) × (length out % 2 ≡ 0)

written-whole :
    (room : ℕ) (r : Option (Bytes × Bytes)) → WritesWhole room r → WrittenWhole room (written r)
written-whole room none h = tt
written-whole room (some (p, out)) h = h

abbrev pub FitsIn : ℕ → Option Bytes → Type 0
FitsIn room none = Unit
FitsIn room (some out) = length out ≤ room

-- Whatever the tag, the builder writes within its buffer, and an even number of bytes.
pub build_path-whole : (room : ℕ) (tag : Bytes) → WrittenWhole room (build_path room tag)
unfolding build_path
build_path-whole room tag =
    written-whole room (segments room (length tag) tag [])
      (segments-whole room (length tag) tag [] (omega arith, omega arith))

-- A message that is written unless `b`.
fits-unless :
    (room : ℕ) (b : Bool) (m : Bytes)
    → (b ≡ false → length m ≤ room)
    → FitsIn room (if b then none else some m)
fits-unless room true m h = tt
fits-unless room false m h = h refl

fits-if :
    (room : ℕ) (b : Bool) (x y : Option Bytes)
    → FitsIn room x
    → FitsIn room y
    → FitsIn room (if b then x else y)
fits-if room true x y hx hy = hx
fits-if room false x y hx hy = hy

pub cip_frame-fits :
    (service type : ℕ) (value : Bytes) (elems room : ℕ) (path : Option Bytes)
    → FitsIn room (cip_frame service type value elems room path)
unfolding cip_frame
cip_frame-fits service type value elems room none = tt
cip_frame-fits service type value elems room (some path) =
    let head = service ∷ length path / 2 ∷ path in
    fits-if room (length path == 0 || length path % 2 == 1 || ltb room (2 + length path)) none _ tt
      (fits-if room (service == svc_write_tag) _ _
        (fits-unless room (ltb room (length head + 4 + length value))
          (head ++ (put16 type ++ (put16 elems ++ value)))
          (λ (b : ltb room (length head + 4 + length value) ≡ false).
            ground (arith, length-append path (put16 type ++ (put16 elems ++ value)))))
        (fits-unless room (ltb room (length head + 2)) (head ++ put16 elems)
          (λ (b : ltb room (length head + 2) ≡ false).
            ground (arith, length-append path (put16 elems)))))

-- The requests behind `pos`.
abbrev FitsBehind : ℕ → ℕ → ℕ → Option (List ℕ × Bytes) → Type 0
FitsBehind room pos n none = Unit
FitsBehind room pos n (some (os, rs)) = (pos + length rs ≤ room) × (length os ≡ n)
