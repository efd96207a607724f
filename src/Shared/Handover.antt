-- ===== src/Shared/Handover.antt =====
-- shared.h: the snapshot handed from the PLC thread to the cloud thread.
use opta_gateway_mt.Base.{
  inc32, ap, refl, ◌∙◌, ◌↔◌, ℕ, ◌+◌, ◌%◌, ◌^◌, ◌<◌, ◌≡◌, false, List, [], ◌∷◌, arith, length, word,
}
use opta_gateway_mt.Shared.{PlcSnapshot, Board, publish, take_snapshot}

module _ {F : Type 0} where
  -- The PLC thread's publishes, one a tick: the working copy and the clock.
  unfoldable pub publish_all : List (ℕ × PlcSnapshot F) → Board F → Board F
  publish_all [] b = b
  publish_all ((now, w) ∷ ws) b = publish_all ws (publish now w b).1

  publish_all-seq :
      (ws : List (ℕ × PlcSnapshot F)) (b : Board F)
      → b.published.seq < word
      → (publish_all ws b).published.seq ≡ (b.published.seq + length ws) % 2 ^ 32
  unfolding publish_all publish
  publish_all-seq [] b h = omega arith
  publish_all-seq ((now, w) ∷ ws) b h =
      omega (arith, publish_all-seq ws (unfold publish in (publish now w b).1) (omega arith))

  -- The last of the working copies with its time, or `s` if there is none.
  unfoldable pub newest : List (ℕ × PlcSnapshot F) → PlcSnapshot F → PlcSnapshot F
  newest [] s = s
  newest ((now, w) ∷ ws) s = newest ws (record w { stamp_ms = now })

  abbrev pub numbered : ℕ → PlcSnapshot F → PlcSnapshot F
  numbered n s = record s { seq = n }

  newest-numbered :
      (ws : List (ℕ × PlcSnapshot F)) (s : PlcSnapshot F) (k n : ℕ)
      → numbered n (newest ws (numbered k s)) ≡ numbered n (newest ws s)
  unfolding newest
  newest-numbered [] s k n = refl
  newest-numbered ((now, w) ∷ ws) s k n = refl

  publish_all-newest :
      (ws : List (ℕ × PlcSnapshot F)) (b : Board F)
      → (publish_all ws b).published
        ≡ numbered (publish_all ws b).published.seq (newest ws b.published)
  unfolding publish_all newest
  publish_all-newest [] b = refl
  publish_all-newest ((now, w) ∷ ws) b =
      let b1 = (publish now w b).1 in
      publish_all-newest ws b1
      ∙ unfold publish in
        newest-numbered ws (record w { stamp_ms = now }) (inc32 b.published.seq)
          (publish_all ws b1).published.seq

  take_snapshot-fresh :
      (ws : List (ℕ × PlcSnapshot F)) (b : Board F)
      → b.published.seq < word
      → length ws < word
      → let (out, last, fresh) = take_snapshot b.published.seq (publish_all ws b) in
        (out ≡ (publish_all ws b).published) × (last ≡ out.seq) × ((fresh ≡ false) ↔ (ws ≡ []))
  unfolding take_snapshot
  take_snapshot-fresh ws b h k = ground (arith, publish_all-seq ws b h)

  -- Between two takes of the consumer, the second hands over the working copy of the last publish in
  -- between, with that publish's time, or the old snapshot if there was none, under the number that
  -- counts every publish on 32 bits. It reports news exactly if the PLC thread has published, which
  -- it does fewer than 2 ^ 32 times.
  pub take_snapshot-newest :
      (ws : List (ℕ × PlcSnapshot F)) (b : Board F)
      → b.published.seq < word
      → length ws < word
      → let (out, last, fresh) = take_snapshot b.published.seq (publish_all ws b) in
        (out ≡ numbered ((b.published.seq + length ws) % 2 ^ 32) (newest ws b.published))
        × (last ≡ out.seq)
        × ((fresh ≡ false) ↔ (ws ≡ []))
  take_snapshot-newest ws b h k =
      let body =
        publish_all-newest ws b
        ∙ ap (λ n. numbered n (newest ws b.published)) (publish_all-seq ws b h) in
      let news = take_snapshot-fresh ws b h k in (news.0 ∙ body, news.1, news.2)
