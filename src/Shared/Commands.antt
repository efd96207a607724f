-- ===== src/Shared/Commands.antt =====
-- shared.h: the one-shot command queue, under any interleaving of its two threads.
use opta_gateway_mt.Base.{
  drop, ℕ, ◌+◌, ◌%◌, ◌^◌, ◌≤◌, ◌≡◌, List, [], ◌∷◌, ◌++◌, Option, none, some, arith, length,
  length-append, refl, append_assoc, if◌then◌else◌,
}
use opta_gateway_mt.Shared.{Cmd, Board, cmd_post, cmd_take, cmd_take_from, queue_slots}

pub data Move (F : Type 0) : Type 0 where
  post : Cmd F → Move F
  take_one : Move F

-- What the threads have seen: the commands accepted, those taken, the number refused.
pub record History (F : Type 0) : Type 0 where
  pub board : Board F
  pub accepted : List (Cmd F)
  pub taken : List (Cmd F)
  pub refused : ℕ

module _ {F : Type 0} where
  taken-queue :
      (q : List (Cmd F)) (b : Board F)
      → b.queue ≡ q
      → ((cmd_take_from q b).1.queue ≡ drop 1 q) × ((cmd_take_from q b).1.ctrl ≡ b.ctrl)
  unfolding cmd_take_from
  taken-queue [] b e = (e, refl)
  taken-queue (c ∷ q) b e = (refl, refl)

  pub cmd_take-queue :
      (b : Board F) → ((cmd_take b).1.queue ≡ drop 1 b.queue) × ((cmd_take b).1.ctrl ≡ b.ctrl)
  unfolding cmd_take
  cmd_take-queue b = taken-queue b.queue b refl

  noted : Option (Cmd F) × Board F → History F → History F
  noted (none, b) h = record h { board = b }
  noted (some c, b) h = record h { board = b; taken = h.taken ++ (c ∷ []) }

  unfoldable pub move : Move F → History F → History F
  unfolding noted
  move (post c) h =
      let (b, done) = cmd_post c h.board in
      if done
      then record h { board = b; accepted = h.accepted ++ (c ∷ []) }
      else record h { board = b; refused = h.refused + 1 }
  move take_one h = noted (cmd_take h.board) h

  unfoldable pub moves : List (Move F) → History F → History F
  moves [] h = h
  moves (m ∷ ms) h = moves ms (move m h)

  pub record IsFair (h : History F) : Type 0 where
    pub in_order : h.accepted ≡ h.taken ++ h.board.queue
    pub bounded : length h.board.queue ≤ queue_slots
    pub counted : h.board.dropped ≡ h.refused % 2 ^ 32

  post-IsFair : (c : Cmd F) (h : History F) → IsFair h → IsFair (move (post c) h)
  unfolding move cmd_post
  post-IsFair c h f =
      ground
        (arith, append_assoc h.taken h.board.queue (c ∷ []), length-append h.board.queue (c ∷ []))

  take-IsFair :
      (q : List (Cmd F)) (h : History F)
      → h.board.queue ≡ q
      → IsFair h
      → IsFair (noted (cmd_take_from q h.board) h)
  unfolding noted cmd_take_from
  take-IsFair [] h e f = f
  take-IsFair (c ∷ q) h e f = ground (arith, append_assoc h.taken (c ∷ []) q)

  move-IsFair : (m : Move F) (h : History F) → IsFair h → IsFair (move m h)
  move-IsFair (post c) h f = post-IsFair c h f
  move-IsFair take_one h f = unfold move cmd_take in take-IsFair h.board.queue h refl f

  -- Under any interleaving of posts and takes the commands come out in the order in which they
  -- were accepted, each once, with those still queued at the end; never more than sixteen wait;
  -- and every refused command is counted, modulo 2 ^ 32.
  pub moves-IsFair : (ms : List (Move F)) (h : History F) → IsFair h → IsFair (moves ms h)
  unfolding moves
  moves-IsFair [] h f = f
  moves-IsFair (m ∷ ms) h f = moves-IsFair ms (move m h) (move-IsFair m h f)
