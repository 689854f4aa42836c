-- ===== src/Controller/History.antt =====
-- `HistoryUp` and `HistoryDown` of cmd/cli/controller/state.go.
use codefolio.Common.{
  ℕ, suc, ◌-◌, ◌≤◌, Text, List, [], ◌||◌, ◌==◌, leb, ltb, null, none, some, length, get_elem?, ◌≡◌,
  arith, if◌then◌else◌,
}
use codefolio.Controller.State.{Controller}

-- An index that the code keeps within the slice.
abbrev pub entry_at : List Text → ℕ → Text
entry_at h i = elim (get_elem? h i) [ none ↦ [] | some s ↦ s ]

module _ {L : Type 0} where
  -- `history_at` is `historyAt + 1`.
  unfoldable pub history_up : Controller L → Text → Controller L × Text
  history_up c value = if null c.history || leb c.history_at 1 then (c, value) else (
    record c {
      draft = if c.history_at == suc (length c.history) then value else c.draft;
      history_at = c.history_at - 1;
    },
    entry_at c.history (c.history_at - 2),
  )

  unfoldable pub history_down : Controller L → Controller L × Text
  history_down c = if ltb (length c.history) c.history_at then (c, []) else (
    record c { history_at = suc c.history_at },
    if c.history_at == length c.history then c.draft else entry_at c.history c.history_at,
  )

  -- A step up from the value that is shown and a step down come back: to the same place, and to the
  -- value, where it was the draft, or to the entry of the place.
  pub history_down-history_up :
      (c : Controller L) (value : Text)
      → 2 ≤ c.history_at
      → c.history_at ≤ suc (length c.history)
      → let up = history_up c value in
        let down = history_down up.0 in
        (up.1 ≡ entry_at c.history (c.history_at - 2))
        × (up.0.history_at ≡ c.history_at - 1)
        × (down.0.history_at ≡ c.history_at)
        × (down.1 ≡ (
            if c.history_at == suc (length c.history)
            then value
            else entry_at c.history (c.history_at - 1)))
  unfolding history_up history_down
  history_down-history_up c value lo hi = ground arith
