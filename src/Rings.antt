-- ===== src/Rings.antt =====
-- The overwriting ring that episode_log.h and influx_replay.h both use: an array, the next slot to
-- write and the number of valid entries. It holds the newest entries, oldest first.
pub mod Window
pub mod Newest
mod Examples
use opta_gateway_mt.Base.{
  ◌≡◌, ℕ, zero, suc, ◌+◌, ◌-◌, ◌%◌, ◌≤◌, ◌<◌, List, [], ◌∷◌, get_or, set, length, ltb,
  if◌then◌else◌,
}

pub record Ring (A : Type 0) : Type 0 where
  pub slots : List A
  pub head : ℕ
  pub count : ℕ

module _ {A : Type 0} where
  -- The index of the oldest entry.
  abbrev pub oldest : ℕ → Ring A → ℕ
  oldest cap r = (r.head + cap - r.count) % cap

  unfoldable pub push : ℕ → A → Ring A → Ring A
  push cap x r = record {
    slots = set r.slots r.head x;
    head = (r.head + 1) % cap;
    count = if ltb r.count cap then r.count + 1 else r.count;
  }

  -- Forgets the `k` oldest entries.
  unfoldable pub forget : ℕ → Ring A → Ring A
  forget k r = record r { count = if ltb r.count k then 0 else r.count - k }

  -- The `n` entries from index `h` on, going round.
  unfoldable pub read_from : ℕ → A → List A → ℕ → ℕ → List A
  read_from cap d slots h zero = []
  read_from cap d slots h (suc n) = get_or slots h d ∷ read_from cap d slots ((h + 1) % cap) n

  unfoldable pub entries : ℕ → A → Ring A → List A
  unfolding read_from
  entries cap d r = read_from cap d r.slots (oldest cap r) r.count

  pub record IsRing (cap : ℕ) (r : Ring A) : Type 0 where
    pub sized : length r.slots ≡ cap
    pub head_in : r.head < cap
    pub count_in : r.count ≤ cap
