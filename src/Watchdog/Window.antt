-- ===== src/Watchdog/Window.antt =====
-- wd_feeder.h: the published stall figure, the larger of two windows.
use opta_gateway_mt.Base.{[], ◌≡◌, ◌∷◌, Bool, List, ℕ, ◌≤◌, ◌<◌, arith, word, sub32}
use opta_gateway_mt.Watchdog.{
  enter, stamp, pass, step, Event, feed, beat, go_to, run, Feeder, note_stall, stall_window_max,
  stall_window_ms, Who, main, plc, cloud, since_of,
}

-- The published figure has seen at least `v` since `origin`, and will keep it until the window
-- that holds it has turned twice.
pub record Shows (origin v : ℕ) (f : Feeder) (now : ℕ) : Type 0 where
  pub shown : v ≤ stall_window_max f
  pub recent : f.win_max_ms < v → sub32 f.win_start origin ≤ sub32 now origin
  pub in_word : f.win_start < word

-- After a pass the published figure is at least the age of every thread's beat.
pub stall_window_max-note_stall :
    (who : Who) (now : ℕ) (f : Feeder) → since_of who now f ≤ stall_window_max (note_stall now f)
unfolding since_of note_stall stall_window_max
stall_window_max-note_stall main now f = ground arith
stall_window_max-note_stall plc now f = ground arith
stall_window_max-note_stall cloud now f = ground arith

note_stall-Shows :
    (origin v now next : ℕ) (f : Feeder)
    → origin < word
    → next < word
    → sub32 now origin ≤ sub32 next origin
    → sub32 next origin < stall_window_ms
    → Shows origin v f now
    → Shows origin v (note_stall next f) next
unfolding note_stall stall_window_max
note_stall-Shows origin v now next f ho hn mono near s = ground arith

-- The figure reads the window fields alone.
record SameWindow (f g : Feeder) : Type 0 where
  win_max : g.win_max_ms ≡ f.win_max_ms
  prev : g.prev_win_max_ms ≡ f.prev_win_max_ms
  start : g.win_start ≡ f.win_start

Shows-same :
    (origin v now : ℕ) (f g : Feeder) → SameWindow f g → Shows origin v f now → Shows origin v g now
unfolding stall_window_max
Shows-same origin v now f g e s = ground arith

feed-SameWindow :
    (now : ℕ) (running : Bool) (f : Feeder) → SameWindow (note_stall now f) (feed now running f).0
unfolding feed
feed-SameWindow now running f = ground arith

beat-SameWindow : (who : Who) (now : ℕ) (f : Feeder) → SameWindow f (beat who now f)
unfolding beat
beat-SameWindow main now f = ground arith
beat-SameWindow _ now f = ground arith

go_to-SameWindow : (who : Who) (at : ℕ) (f : Feeder) → SameWindow f (go_to who at f)
unfolding go_to
go_to-SameWindow main at f = ground arith
go_to-SameWindow _ at f = ground arith

-- The passes of `es` come in order after `now`, all less than a window after `origin`.
abbrev pub Within : ℕ → ℕ → List Event → Type 0
Within origin now [] = Unit
Within origin now (pass t _ ∷ es) =
    (t < word)
    × (sub32 now origin ≤ sub32 t origin)
    × (sub32 t origin < stall_window_ms)
    × Within origin t es
Within origin now (stamp _ _ ∷ es) = Within origin now es
Within origin now (enter _ _ ∷ es) = Within origin now es

run-shown :
    (origin v now : ℕ) (es : List Event) (f : Feeder)
    → origin < word
    → Within origin now es
    → Shows origin v f now
    → v ≤ stall_window_max (run es f)
unfolding run step
run-shown origin v now [] f ho w s = s.shown
run-shown origin v now (pass t r ∷ es) f ho w s = run-shown origin v t es (feed t r f).0 ho w.3 (
    Shows-same origin v t (note_stall t f) (feed t r f).0 (feed-SameWindow t r f)
      (note_stall-Shows origin v now t f ho w.0 w.1 w.2 s))
run-shown origin v now (stamp who t ∷ es) f ho w s =
    run-shown origin v now es (beat who t f) ho w
      (Shows-same origin v now f (beat who t f) (beat-SameWindow who t f) s)
run-shown origin v now (enter who at ∷ es) f ho w s =
    run-shown origin v now es (go_to who at f) ho w
      (Shows-same origin v now f (go_to who at f) (go_to-SameWindow who at f) s)

note_stall-in_word :
    (now : ℕ) (f : Feeder) → now < word → f.win_start < word → (note_stall now f).win_start < word
unfolding note_stall
note_stall-in_word now f h k = ground arith

win_max-note_stall :
    (who : Who) (now : ℕ) (f : Feeder) → since_of who now f ≤ (note_stall now f).win_max_ms
unfolding since_of note_stall
win_max-note_stall main now f = ground arith
win_max-note_stall plc now f = ground arith
win_max-note_stall cloud now f = ground arith

-- A stall that a pass sees at `now` is in the published figure at once, and stays there through
-- every pass and every stamp of the next ten minutes.
pub stall_window_max-kept :
    (who : Who) (now : ℕ) (running : Bool) (es : List Event) (f : Feeder)
    → now < word
    → f.win_start < word
    → Within now now es
    → since_of who now f ≤ stall_window_max (run es (feed now running f).0)
stall_window_max-kept who now running es f hn hw w =
    run-shown now (since_of who now f) now es (feed now running f).0 hn w (
      Shows-same now (since_of who now f) now (note_stall now f) (feed now running f).0
        (feed-SameWindow now running f) first)
  where
    first : Shows now (since_of who now f) (note_stall now f) now
    first = record {
      shown = stall_window_max-note_stall who now f;
      recent = λ h. absurd (omega (arith, win_max-note_stall who now f));
      in_word = note_stall-in_word now f hn hw;
    }
