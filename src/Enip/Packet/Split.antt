-- ===== src/Enip/Packet/Split.antt =====
-- EtherNetIP.cpp: a packet that is laid out as CIP has it is split at the right places.
use opta_gateway_mt.Base.{
  subst, append_assoc, drop-drop, take-length_append, drop-length_append, ℕ, suc, ◌+◌, ◌*◌, ◌-◌,
  ◌/◌, ◌%◌, ◌≤◌, ◌<◌, ◌≡◌, refl, arith, List, [], ◌∷◌, ◌++◌, length, take, drop, get_or, ltb,
  if◌then◌else◌, Option, some, length-append, ap, ap₂, sym, ◌∙◌,
}
use opta_gateway_mt.Enip.{Bytes, Stale, get16, put16}
use opta_gateway_mt.Enip.Request.{put_words}
use opta_gateway_mt.Enip.Packet.{segment_at, segments_from, offsets, concat, frame}

-- The offset words of `d` from `i` on.
abbrev WordsAt : Stale → Bytes → ℕ → List ℕ → Type 0
WordsAt stale d i [] = Unit
WordsAt stale d i (o ∷ os) = (get16 stale d (2 + 2 * i) ≡ o) × WordsAt stale d (i + 1) os

abbrev pub AllLong : List Bytes → Type 0
AllLong [] = Unit
AllLong (s ∷ ss) = (4 ≤ length s) × AllLong ss

abbrev pub all_some : List Bytes → List (Option Bytes)
all_some [] = []
all_some (s ∷ ss) = some s ∷ all_some ss

finish_at :
    (stale : Stale) (d : Bytes) (rc i q : ℕ) (ss : List Bytes)
    → length d < 65536
    → rc ≡ i + 1 + length ss
    → WordsAt stale d (i + 1) (offsets q ss)
    → q + length (concat ss) ≡ length d
    → (if ltb (i + 1) rc then get16 stale d (2 + 2 * (i + 1)) else length d % 65536) ≡ q
finish_at stale d rc i q [] small e words whole = ground arith
finish_at stale d rc i q (s ∷ ss) small e words whole = ground arith

-- A segment that stands at its offset is found.
segment_at-here :
    (stale : Stale) (d : Bytes) (rc i p : ℕ) (s rest : Bytes)
    → 4 ≤ length s
    → get16 stale d (2 + 2 * i) ≡ p
    → (if ltb (i + 1) rc then get16 stale d (2 + 2 * (i + 1)) else length d % 65536) ≡ p + length s
    → drop p d ≡ s ++ rest
    → p + length s ≤ length d
    → segment_at stale d rc i ≡ some s
unfolding segment_at
segment_at-here stale d rc i p s rest long start finish here fits =
    let slice : take (p + length s - p) (drop p d) ≡ s =
      ap₂ take (omega arith) here ∙ take-length_append s rest in
    simp (start, finish) (ground (arith, slice))

segments_from-split :
    (stale : Stale) (d : Bytes) (rc i p : ℕ) (ss : List Bytes)
    → length d < 65536
    → AllLong ss
    → rc ≡ i + length ss
    → WordsAt stale d i (offsets p ss)
    → drop p d ≡ concat ss
    → p + length (concat ss) ≡ length d
    → segments_from stale d rc i (length ss) ≡ all_some ss
unfolding segments_from
segments_from-split stale d rc i p [] small long e words here whole = refl
segments_from-split stale d rc i p (s ∷ ss) small long e words here whole =
    let q = p + length s in
    let size = length-append s (concat ss) in
    ap₂ ◌∷◌
      (segment_at-here stale d rc i p s (concat ss) long.0 words.0
        (finish_at stale d rc i q ss small (omega arith) words.1 (omega arith)) here (omega arith))
      (segments_from-split stale d rc (i + 1) q ss small long.1 (omega arith) words.1
        (sym (drop-drop (length s) p d)
          ∙ ap (drop (length s)) here
          ∙ drop-length_append s (concat ss))
        (omega arith))

get_or-head : (pre : Bytes) (a : ℕ) (r : Bytes) (d : ℕ) → get_or (pre ++ (a ∷ r)) (length pre) d ≡ a
get_or-head [] a r d = refl
get_or-head (x ∷ pre) a r d = get_or-head pre a r d

get_or-next :
    (pre : Bytes) (a b : ℕ) (r : Bytes) (d : ℕ)
    → get_or (pre ++ (a ∷ b ∷ r)) (suc (length pre)) d ≡ b
get_or-next [] a b r d = refl
get_or-next (x ∷ pre) a b r d = get_or-next pre a b r d

get16-put16 :
    (stale : Stale) (pre rest : Bytes) (o k : ℕ)
    → o < 65536
    → k ≡ length pre
    → get16 stale (pre ++ (put16 o ++ rest)) k ≡ o
get16-put16 stale pre rest o k h e =
    let n : k + 1 ≡ suc (length pre) = omega arith in
    let lo : get_or (pre ++ (put16 o ++ rest)) k (stale k) ≡ o % 256 =
      ap (λ i. get_or (pre ++ (put16 o ++ rest)) i (stale k)) e
      ∙ get_or-head pre (o % 256) (o / 256 % 256 ∷ rest) (stale k) in
    let hi : get_or (pre ++ (put16 o ++ rest)) (k + 1) (stale (k + 1)) ≡ o / 256 % 256 =
      ap (λ i. get_or (pre ++ (put16 o ++ rest)) i (stale (k + 1))) n
      ∙ get_or-next pre (o % 256) (o / 256 % 256) rest (stale (k + 1)) in
    omega (arith, lo, hi)

AllBelow : List ℕ → Type 0
AllBelow [] = Unit
AllBelow (o ∷ os) = (o < 65536) × AllBelow os

put_words-WordsAt :
    (stale : Stale) (os : List ℕ) (pre rest : Bytes) (i : ℕ)
    → AllBelow os
    → 2 + 2 * i ≡ length pre
    → WordsAt stale (pre ++ (put_words os ++ rest)) i os
unfolding AllBelow
put_words-WordsAt stale [] pre rest i b e = tt
put_words-WordsAt stale (o ∷ os) pre rest i b e =
    let more = put_words os ++ rest in
    let whole : (pre ++ put16 o) ++ more ≡ pre ++ (put16 o ++ more) =
      append_assoc pre (put16 o) more in
    (
      get16-put16 stale pre more o (2 + 2 * i) b.0 e,
      subst (λ d. WordsAt stale d (i + 1) os) whole
          (put_words-WordsAt stale os (pre ++ put16 o) rest (i + 1) b.1
            (omega (arith, length-append pre (put16 o)))),
    )

offsets-AllBelow :
    (p : ℕ) (ss : List Bytes)
    → AllLong ss
    → p + length (concat ss) < 65536
    → AllBelow (offsets p ss)
unfolding AllBelow
offsets-AllBelow p [] l h = tt
offsets-AllBelow p (s ∷ ss) l h = (
  omega (arith, length-append s (concat ss)),
  offsets-AllBelow (p + length s) ss l.1 (omega (arith, length-append s (concat ss))),
)

length-offsets : (p : ℕ) (ss : List Bytes) → length (put_words (offsets p ss)) ≡ 2 * length ss
length-offsets p [] = omega arith
length-offsets p (s ∷ ss) = omega (arith, length-offsets (p + length s) ss)

length-frame : (ss : List Bytes) → length (frame ss) ≡ 2 + 2 * length ss + length (concat ss)
unfolding frame
length-frame ss =
    let os = put_words (offsets (2 + 2 * length ss) ss) in
    omega (arith, length-append os (concat ss), length-offsets (2 + 2 * length ss) ss)

drop-frame : (ss : List Bytes) → drop (2 + 2 * length ss) (frame ss) ≡ concat ss
unfolding frame
drop-frame ss =
    let os = put_words (offsets (2 + 2 * length ss) ss) in
    let head = put16 (length ss) ++ os in
    let size : 2 + 2 * length ss ≡ length head =
      omega (arith, length-offsets (2 + 2 * length ss) ss) in
    ap (λ k. drop k (head ++ concat ss)) size ∙ drop-length_append head (concat ss)

-- The loop over the segments of a packet finds each of them whole and in order, for segments of four
-- bytes or more in a packet of less than 64 KB.
pub segments_from-frame :
    (stale : Stale) (ss : List Bytes)
    → AllLong ss
    → length (frame ss) < 65536
    → segments_from stale (frame ss) (length ss) 0 (length ss) ≡ all_some ss
segments_from-frame stale ss long small =
    let p = 2 + 2 * length ss in
    segments_from-split stale (frame ss) (length ss) 0 p ss small long (omega arith)
      (unfold frame in
        put_words-WordsAt stale (offsets p ss) (put16 (length ss)) (concat ss) 0
          (offsets-AllBelow p ss long (omega (arith, length-frame ss))) (omega arith))
      (drop-frame ss) (omega (arith, length-frame ss))
