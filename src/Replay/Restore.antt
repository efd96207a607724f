-- ===== src/Replay/Restore.antt =====
-- influx_replay.h: what `replayPersist` has written, `replayLoad` brings back at the next start.
use opta_gateway_mt.Base.{
  leb, ◌==◌, ◌/◌, ◌^◌, ◌*◌, length-drop, ◌-◌, none, false, sym, ◌∙◌, ap₂, Bool, set, subst, ◌%◌, ap,
  arith, ◌≤◌, refl, some, true, drop, ◌+◌, [], min, ◌<◌, length, ◌++◌, take, ◌≡◌, ◌∷◌, List, ℕ,
  zero, suc,
}
use opta_gateway_mt.Base.Floats.{Floats}
use opta_gateway_mt.Rings.{Ring, IsRing, push, entries}
use opta_gateway_mt.Rings.Window.{length-entries}
use opta_gateway_mt.Rings.Newest.{push_all, push_all-entries}
use opta_gateway_mt.Replay.{Rec, Replay, max_recs}
use opta_gateway_mt.Replay.Lines.{Text}
use opta_gateway_mt.Replay.Kept.{length-zero}
use opta_gateway_mt.Replay.Tick.{queued, no_rec}
use opta_gateway_mt.Replay.Store.{
  Kv, IsKv, chunk_recs, meta_magic, write_at, take_chunk, and_chunks, put_chunks, and_chunk,
  get_chunks, load, and_meta, persist,
}

module _ {A : Type 0} where
  push_all-append :
      (c : ℕ) (xs ys : List A) (r : Ring A)
      → push_all c (xs ++ ys) r ≡ push_all c ys (push_all c xs r)
  unfolding push_all
  push_all-append c [] ys r = refl
  push_all-append c (x ∷ xs) ys r = push_all-append c xs ys (push c x r)

  ring_of : List A → ℕ → ℕ → Ring A
  ring_of slots head count = record { slots = slots; head = head; count = count }

  write_at-wrapped :
      (xs slots : List A) (h : ℕ)
      → h + suc (length xs) ≤ max_recs
      → write_at slots (suc h) xs ≡ write_at slots ((h + 1) % max_recs) xs
  unfolding write_at
  write_at-wrapped [] slots h e = refl
  write_at-wrapped (x ∷ xs) slots h e = ap (λ i. write_at slots i (x ∷ xs)) (omega arith)

  take_chunk-push :
      (x : A) (xs : List A) (r : Ring A)
      → r.head + suc (length xs) ≤ max_recs
      → r.count + suc (length xs) ≤ max_recs
      → take_chunk (x ∷ xs) r ≡ take_chunk xs (push max_recs x r)
  unfolding take_chunk push write_at ring_of
  take_chunk-push x xs r h hc =
      let slots = set r.slots r.head x in
      let count : r.count + suc (length xs) ≡ (push max_recs x r).count + length xs =
        ground arith in
      ap (λ s. ring_of s ((r.head + suc (length xs)) % max_recs) (r.count + suc (length xs)))
        (write_at-wrapped xs slots r.head h)
      ∙ ap₂ (ring_of (write_at slots ((r.head + 1) % max_recs) xs)) (omega arith) count

  -- A chunk that does not go past the end of the array is pushed record by record.
  take_chunk-push_all :
      (xs : List A) (r : Ring A)
      → r.head < max_recs
      → r.head + length xs ≤ max_recs
      → r.count + length xs ≤ max_recs
      → take_chunk xs r ≡ push_all max_recs xs r
  unfolding take_chunk push_all write_at ring_of push
  take_chunk-push_all [] r hh h hc = ap₂ (ring_of r.slots) (omega arith) (omega arith)
  take_chunk-push_all (x ∷ xs) r hh h hc =
      take_chunk-push x xs r h hc
      ∙ take_chunk-push_all xs (push max_recs x r) (omega arith) (omega arith) (ground arith)

take-drop : {A : Type 0} (n : ℕ) (xs : List A) → take n xs ++ drop n xs ≡ xs
take-drop zero xs = refl
take-drop (suc n) [] = refl
take-drop (suc n) (x ∷ xs) = ap (λ ys. x ∷ ys) (take-drop n xs)

length-take : {A : Type 0} (n : ℕ) (xs : List A) → length (take n xs) ≡ min (length xs) n
length-take zero xs = omega arith
length-take (suc n) [] = omega arith
length-take (suc n) (x ∷ xs) = omega (arith, length-take n xs)

module _ {F : Type 0} (kv : Kv F) where
  -- The chunks from `ci` on hold `rs`.
  abbrev pub Stored : ℕ → ℕ → List (Rec F) → kv.S → Type 0
  Stored zero ci rs s = Unit
  Stored (suc f) ci [] s = Unit
  Stored (suc f) ci (r ∷ rs) s =
      (kv.get_chunk ci (length (take chunk_recs (r ∷ rs))) s ≡ some (take chunk_recs (r ∷ rs)))
      × Stored f (suc ci) (drop chunk_recs (r ∷ rs)) s

  and_chunks-other :
      (next : kv.S → kv.S × Bool) (o : kv.S × Bool) (j n : ℕ)
      → ((s : kv.S) → kv.get_chunk j n (next s).0 ≡ kv.get_chunk j n s)
      → kv.get_chunk j n (and_chunks kv next o).0 ≡ kv.get_chunk j n o.0
  and_chunks-other next (s, true) j n h = h s
  and_chunks-other next (s, false) j n h = refl

  and_chunks-done :
      (next : kv.S → kv.S × Bool) (o : kv.S × Bool)
      → (and_chunks kv next o).1 ≡ true
      → (o.1 ≡ true) × ((next o.0).1 ≡ true) × (and_chunks kv next o ≡ next o.0)
  and_chunks-done next (s, true) e = (refl, e, refl)
  and_chunks-done next (s, false) e = absurd (ground arith)

  put_chunks-other :
      (f ci : ℕ) (rs : List (Rec F)) (s : kv.S)
      → IsKv kv
      → (j n : ℕ) → j < ci
      → kv.get_chunk j n (put_chunks kv f ci rs s).0 ≡ kv.get_chunk j n s
  unfolding put_chunks
  put_chunks-other zero ci rs s v j n h = refl
  put_chunks-other (suc f) ci [] s v j n h = refl
  put_chunks-other (suc f) ci (r ∷ rs) s v j n h =
      and_chunks-other (put_chunks kv f (suc ci) (drop chunk_recs (r ∷ rs)))
        (kv.put_chunk ci (take chunk_recs (r ∷ rs)) s) j n
        (λ t. put_chunks-other f (suc ci) (drop chunk_recs (r ∷ rs)) t v j n (omega arith))
      ∙ v.get_put_other j ci n (take chunk_recs (r ∷ rs)) s (λ q. omega arith)

  put_chunks-Stored :
      (f ci : ℕ) (rs : List (Rec F)) (s : kv.S)
      → IsKv kv
      → (put_chunks kv f ci rs s).1 ≡ true
      → Stored f ci rs (put_chunks kv f ci rs s).0
  unfolding put_chunks
  put_chunks-Stored zero ci rs s v e = tt
  put_chunks-Stored (suc f) ci [] s v e = tt
  put_chunks-Stored (suc f) ci (r ∷ rs) s v e =
      let xs = take chunk_recs (r ∷ rs) in
      let o = kv.put_chunk ci xs s in
      let more = drop chunk_recs (r ∷ rs) in
      let d = and_chunks-done (put_chunks kv f (suc ci) more) o e in
      subst (λ t. Stored (suc f) ci (r ∷ rs) t.0) (sym d.2)
        (
          put_chunks-other f (suc ci) more o.0 v ci (length xs) (omega arith)
              ∙ v.get_put ci xs s d.0,
          put_chunks-Stored f (suc ci) more o.0 v d.1,
        )

  -- The chunks that were stored are pushed to the ring.
  get_chunks-Stored :
      (f ci : ℕ) (rs : List (Rec F)) (r : Ring (Rec F)) (s : kv.S)
      → Stored f ci rs s
      → length rs ≤ f
      → r.head < max_recs
      → r.head + length rs ≤ max_recs
      → r.count + length rs ≤ max_recs
      → (get_chunks kv f ci (length rs) r s).0 ≡ push_all max_recs rs r
  unfolding get_chunks take_chunk push_all
  get_chunks-Stored zero ci [] r s st hf hh h hc = refl
  get_chunks-Stored zero ci (x ∷ xs) r s st hf hh h hc = absurd (omega arith)
  get_chunks-Stored (suc f) ci [] r s st hf hh h hc = refl
  get_chunks-Stored (suc f) ci (x ∷ xs) r s st hf hh h hc =
      let first = take chunk_recs (x ∷ xs) in
      let more = drop chunk_recs (x ∷ xs) in
      let n = suc (length xs) in
      let rest : ℕ → List (Rec F) → Ring (Rec F) × ℕ =
        λ m ys. get_chunks kv f (suc ci) (n - m) (take_chunk ys r) s in
      let first_len : min n chunk_recs ≡ length first =
        omega (arith, length-take chunk_recs (x ∷ xs)) in
      let more_len : n - length first ≡ length more =
        omega (arith, length-drop chunk_recs (x ∷ xs), first_len) in
      ap (λ m. (and_chunk kv (rest m) (r, ci) (kv.get_chunk ci m s)).0) first_len
      ∙ ap (λ o. (and_chunk kv (rest (length first)) (r, ci) o).0) st.0
      ∙ ap (λ m. (get_chunks kv f (suc ci) m (take_chunk first r) s).0) more_len
      ∙ get_chunks-Stored f (suc ci) more (take_chunk first r) s st.1
          (omega (arith, more_len, first_len)) (omega arith) (omega (arith, more_len, first_len))
          (omega (arith, more_len, first_len))
      ∙ ap (push_all max_recs more)
          (take_chunk-push_all first r hh (omega (arith, first_len)) (omega (arith, first_len)))
      ∙ sym (push_all-append max_recs first more r)
      ∙ ap (λ ys. push_all max_recs ys r) (take-drop chunk_recs (x ∷ xs))

  Stored-put_meta :
      (m f ci : ℕ) (rs : List (Rec F)) (s : kv.S)
      → IsKv kv
      → Stored f ci rs s
      → Stored f ci rs (kv.put_meta m s).0
  Stored-put_meta m zero ci rs s v st = tt
  Stored-put_meta m (suc f) ci [] s v st = tt
  Stored-put_meta m (suc f) ci (r ∷ rs) s v st = (
    v.get_put_meta ci (length (take chunk_recs (r ∷ rs))) m s ∙ st.0,
    Stored-put_meta m f (suc ci) (drop chunk_recs (r ∷ rs)) s v st.1,
  )

  -- What a start finds when `c` records have been stored.
  load-Stored :
      (c : ℕ) (rs : List (Rec F)) (boot : Replay F) (s : kv.S)
      → IsKv kv
      → kv.get_meta s ≡ some (meta_magic * 2 ^ 16 + c)
      → 0 < c
      → c ≤ max_recs
      → length rs ≡ c
      → Stored c 0 rs s
      → boot.ring.head ≡ 0
      → boot.ring.count ≡ 0
      → ((load kv s boot).0.ring ≡ push_all max_recs rs boot.ring)
        × ((load kv s boot).1 ≡ (load kv s boot).0.ring.count)
        × (kv.get_meta (load kv s boot).2 ≡ none)
  unfolding load
  load-Stored c rs boot s v em h0 hc el st hh hn =
      let magic : (meta_magic * 2 ^ 16 + c) / 2 ^ 16 == meta_magic ≡ true = ground arith in
      let cnt : (meta_magic * 2 ^ 16 + c) % 2 ^ 16 ≡ c = omega arith in
      let some_meta : meta_magic * 2 ^ 16 + c == 0 ≡ false = ground arith in
      let c_some : c == 0 ≡ false = ground arith in
      let c_in : leb c max_recs ≡ true = ground arith in
      let empty : boot.ring.count == 0 ≡ true = ground arith in
      rw (em, magic, cnt, some_meta, c_some, c_in, empty)
        (
          ap (λ n. (get_chunks kv c 0 n boot.ring s).0) (sym el)
              ∙ get_chunks-Stored c 0 rs boot.ring s st (omega arith) (omega arith) (omega arith)
                  (omega arith),
          refl,
          v.meta_removed _,
        )

module _ (fl : Floats) (thing : Text) (kv : Kv fl.F) where
  and_meta-done :
      (c : ℕ) (o : kv.S × Bool)
      → (and_meta fl thing kv c o).1 ≡ true
      → (o.1 ≡ true)
        × ((kv.put_meta (meta_magic * 2 ^ 16 + c) o.0).1 ≡ true)
        × (and_meta fl thing kv c o ≡ kv.put_meta (meta_magic * 2 ^ 16 + c) o.0)
  and_meta-done c (s, true) e = (refl, e, refl)
  and_meta-done c (s, false) e = absurd (ground arith)

  persist-writes :
      (locks begins : Bool) (r : Replay fl.F) (s : kv.S)
      → (persist fl thing kv locks begins r s).1 ≡ true
      → (0 < r.ring.count)
        × (persist fl thing kv locks begins r s
            ≡ and_meta fl thing kv r.ring.count
                (put_chunks kv r.ring.count 0 (queued fl thing r) s))
  unfolding persist
  persist-writes locks begins r s ok = ground arith

  -- What a write in full leaves in the store.
  persist-Stored :
      (locks begins : Bool) (r : Replay fl.F) (s : kv.S)
      → IsKv kv
      → (persist fl thing kv locks begins r s).1 ≡ true
      → let t = (persist fl thing kv locks begins r s).0 in
        (0 < r.ring.count)
        × (kv.get_meta t ≡ some (meta_magic * 2 ^ 16 + r.ring.count))
        × Stored kv r.ring.count 0 (queued fl thing r) t
  unfolding persist
  persist-Stored locks begins r s v ok =
      let c = r.ring.count in
      let q = queued fl thing r in
      let o = put_chunks kv c 0 q s in
      let w = persist-writes locks begins r s ok in
      let d = and_meta-done c o (ap (λ t. t.1) (sym w.1) ∙ ok) in
      let e = w.1 ∙ d.2 in
      (
        w.0,
        subst (λ t. kv.get_meta t.0 ≡ some (meta_magic * 2 ^ 16 + c)) (sym e)
            (v.meta_put (meta_magic * 2 ^ 16 + c) o.0 d.1),
        subst (λ t. Stored kv c 0 q t.0) (sym e)
            (Stored-put_meta kv (meta_magic * 2 ^ 16 + c) c 0 q o.0 v
              (put_chunks-Stored kv c 0 q s v d.0)),
      )

  -- A ring that was written in full comes back at the next start, when the ring is empty: the same
  -- records in the same order, counted; and the store then has no count of records, so that a second
  -- start finds nothing.
  pub persist-load :
      (locks begins : Bool) (r boot : Replay fl.F) (s : kv.S)
      → IsKv kv
      → IsRing max_recs r.ring
      → IsRing max_recs boot.ring
      → boot.ring.head ≡ 0
      → boot.ring.count ≡ 0
      → (persist fl thing kv locks begins r s).1 ≡ true
      → let back = load kv (persist fl thing kv locks begins r s).0 boot in
        (queued fl thing back.0 ≡ queued fl thing r)
        × (back.1 ≡ r.ring.count)
        × (kv.get_meta back.2 ≡ none)
  persist-load locks begins r boot s v vr vb h0 hc ok =
      let c = r.ring.count in
      let q = queued fl thing r in
      let t = (persist fl thing kv locks begins r s).0 in
      let w = persist-Stored locks begins r s v ok in
      let len : length q ≡ c = length-entries max_recs (no_rec fl thing) r.ring in
      let l = load-Stored kv c q boot t v w.1 w.0 vr.count_in len w.2 h0 hc in
      let pushed = push_all-entries 359 (no_rec fl thing) q boot.ring vb in
      let none_over : boot.ring.count + length q - max_recs ≡ 0 = omega (arith, len, vr.count_in) in
      let back : entries max_recs (no_rec fl thing) (push_all max_recs q boot.ring) ≡ q =
        pushed
        ∙ ap (λ k. drop k (entries max_recs (no_rec fl thing) boot.ring ++ q)) none_over
        ∙ ap (λ es. es ++ q)
            (length-zero (entries max_recs (no_rec fl thing) boot.ring)
              (length-entries max_recs (no_rec fl thing) boot.ring ∙ hc)) in
      (
        ap (entries max_recs (no_rec fl thing)) l.0 ∙ back,
        l.1
            ∙ ap (λ g. g.count) l.0
            ∙ sym (length-entries max_recs (no_rec fl thing) (push_all max_recs q boot.ring))
            ∙ ap length back
            ∙ len,
        l.2,
      )
