-- ===== src/Replay/Store.antt =====
-- influx_replay.h: the ring in the KVStore across a reset, `replayPersist` and `replayLoad`. The
-- store is a parameter. A chunk's bytes stand for its records, and the keys of the chunks for their
-- numbers.
use opta_gateway_mt.Base.{
  ◌*◌, false, leb, ◌&&◌, not, ◌%◌, ◌==◌, take, [], ◌≢◌, none, set, ◌^◌, drop, length, min, ◌/◌, ◌∷◌,
  true, ◌≡◌, some, ◌+◌, ◌-◌, List, Bool, Option, if◌then◌else◌, ℕ, zero, suc,
}
use opta_gateway_mt.Base.Floats.{Floats}
use opta_gateway_mt.Rings.{Ring}
use opta_gateway_mt.Replay.{Rec, Replay, max_recs}
use opta_gateway_mt.Replay.Lines.{Text}
use opta_gateway_mt.Replay.Tick.{queued}

abbrev pub chunk_recs : ℕ
chunk_recs = 60

-- `RP_META_MAGIC`, its high half.
abbrev pub meta_magic : ℕ
meta_magic = 21072

-- The operations of a KVStore on a state `S`: `putBytes` of records under a chunk's key, with
-- whether it wrote them all; `getBytes` of so many records, if that many came; `remove`, and the
-- same for the integer under the meta key.
pub record Kv (F : Type 0) : Type 1 where
  pub S : Type 0
  pub put_chunk : ℕ → List (Rec F) → S → S × Bool
  pub get_chunk : ℕ → ℕ → S → Option (List (Rec F))
  pub remove_chunk : ℕ → S → S
  pub put_meta : ℕ → S → S × Bool
  pub get_meta : S → Option ℕ
  pub remove_meta : S → S

-- What is written under a key is read back, other keys are not touched, and what has been removed is
-- gone.
pub record IsKv {F : Type 0} (kv : Kv F) : Type 0 where
  pub get_put :
      (i : ℕ) (xs : List (Rec F)) (s : kv.S)
      → (kv.put_chunk i xs s).1 ≡ true
      → kv.get_chunk i (length xs) (kv.put_chunk i xs s).0 ≡ some xs
  pub get_put_other :
      (i j n : ℕ) (xs : List (Rec F)) (s : kv.S)
      → i ≢ j
      → kv.get_chunk i n (kv.put_chunk j xs s).0 ≡ kv.get_chunk i n s
  pub get_put_meta :
      (i n m : ℕ) (s : kv.S) → kv.get_chunk i n (kv.put_meta m s).0 ≡ kv.get_chunk i n s
  pub meta_put :
      (m : ℕ) (s : kv.S) → (kv.put_meta m s).1 ≡ true → kv.get_meta (kv.put_meta m s).0 ≡ some m
  pub meta_removed : (s : kv.S) → kv.get_meta (kv.remove_meta s) ≡ none

module _ {A : Type 0} where
  -- `getBytes` into the array from `s_rp[h]` on.
  unfoldable pub write_at : List A → ℕ → List A → List A
  write_at slots h [] = slots
  write_at slots h (x ∷ xs) = write_at (set slots h x) (suc h) xs

  unfoldable pub take_chunk : List A → Ring A → Ring A
  take_chunk xs r = record {
    slots = write_at r.slots r.head xs;
    head = (r.head + length xs) % max_recs;
    count = r.count + length xs;
  }

module _ {F : Type 0} (kv : Kv F) where
  abbrev pub and_chunks : (kv.S → kv.S × Bool) → kv.S × Bool → kv.S × Bool
  and_chunks next (s, true) = next s
  and_chunks next (s, false) = (s, false)

  -- The loop of `replayPersist` from chunk `ci` on; `f` bounds its rounds.
  unfoldable pub put_chunks : ℕ → ℕ → List (Rec F) → kv.S → kv.S × Bool
  put_chunks zero ci rs s = (s, true)
  put_chunks (suc f) ci [] s = (s, true)
  put_chunks (suc f) ci (r ∷ rs) s =
      and_chunks (put_chunks f (suc ci) (drop chunk_recs (r ∷ rs)))
        (kv.put_chunk ci (take chunk_recs (r ∷ rs)) s)

  abbrev pub and_chunk :
      (List (Rec F) → Ring (Rec F) × ℕ)
      → Ring (Rec F) × ℕ
      → Option (List (Rec F))
      → Ring (Rec F) × ℕ
  and_chunk next stop none = stop
  and_chunk next stop (some xs) = next xs

  -- The loop of `replayLoad`: the ring, and how many chunks were read.
  unfoldable pub get_chunks : ℕ → ℕ → ℕ → Ring (Rec F) → kv.S → Ring (Rec F) × ℕ
  get_chunks zero ci left r s = (r, ci)
  get_chunks (suc f) ci zero r s = (r, ci)
  get_chunks (suc f) ci (suc n) r s =
      and_chunk (λ xs. get_chunks f (suc ci) (suc n - min (suc n) chunk_recs) (take_chunk xs r) s)
        (r, ci) (kv.get_chunk ci (min (suc n) chunk_recs) s)

  -- Removes the chunks below `n`.
  abbrev pub remove_chunks : ℕ → kv.S → kv.S
  remove_chunks zero s = s
  remove_chunks (suc n) s = kv.remove_chunk n (remove_chunks n s)

  abbrev pub meta_or_zero : Option ℕ → ℕ
  meta_or_zero none = 0
  meta_or_zero (some m) = m

  -- `replayLoad`, on a store that opens; the result also has how many records were restored.
  unfoldable pub load : kv.S → Replay F → Replay F × ℕ × kv.S
  load s r =
      let meta = meta_or_zero (kv.get_meta s) in
      let cnt = if meta / 2 ^ 16 == meta_magic then meta % 2 ^ 16 else 0 in
      let got = get_chunks cnt 0 cnt r.ring s in
      if not (meta == 0) && cnt == 0
      then (r, 0, remove_chunks (max_recs / chunk_recs + 1) (kv.remove_meta s))
      else if not (cnt == 0) && leb cnt max_recs && r.ring.count == 0
      then (record r { ring = got.0 }, got.0.count, kv.remove_meta (remove_chunks got.1 s))
      else (r, 0, s)

module _ (fl : Floats) (thing : Text) (kv : Kv fl.F) where
  abbrev pub and_meta : ℕ → kv.S × Bool → kv.S × Bool
  and_meta count (s, true) = kv.put_meta (meta_magic * 2 ^ 16 + count) s
  and_meta count (s, false) = (s, false)

  -- `replayPersist`: `locks` is the mutex, `begins` is `kv.begin()`.
  unfoldable pub persist : Bool → Bool → Replay fl.F → kv.S → kv.S × Bool
  persist locks begins r s =
      if r.ring.count == 0
      then (s, false)
      else if not locks
      then (s, false)
      else if not begins
      then (s, false)
      else and_meta r.ring.count (put_chunks kv r.ring.count 0 (queued fl thing r) s)
