-- ===== src/Acquisition/Board.antt =====
-- edge/acquisition/health.py: which sensors are reported dead. Times are in one unit of the
-- monotonic clock; the log lines of a tick are the sets of channels that they name.
use shtapm.Base.{ℕ, ◌+◌, Bool, true, false, not, ◌&&◌, ◌||◌, leb, Option, none, some, if◌then◌else◌}
use shtapm.Contracts.{Channel, ChannelSet}

pub record Board : Type 0 where
  pub dead_after : ℕ
  pub failing_since : Channel → Option ℕ
  pub dead : ChannelSet

abbrev pub new_board : ℕ → Board
new_board dead_after = record {
  dead_after = dead_after;
  failing_since = λ ch. none;
  dead = λ ch. false;
}

pub record Logged : Type 0 where
  pub died : ChannelSet
  pub recovered : ChannelSet

abbrev pub set_default : Option ℕ → ℕ → Option ℕ
set_default none now = some now
set_default (some since) now = some since

-- `now - since >= dead_after_s`, of a channel that has an entry.
abbrev pub is_overdue : Option ℕ → ℕ → ℕ → Bool
is_overdue none dead_after now = false
is_overdue (some since) dead_after now = leb (since + dead_after) now

abbrev has_entry : Option ℕ → Bool
has_entry none = false
has_entry (some since) = true

-- `ChannelHealthBoard.update`, of the channels whose reading is not healthy.
unfoldable pub update_board : ℕ → ChannelSet → Board → Board × Logged
update_board now unhealthy b =
    let failing : Channel → Option ℕ =
      λ ch. if unhealthy ch then set_default (b.failing_since ch) now else b.failing_since ch in
    let died : ChannelSet =
      λ ch. unhealthy ch && not (b.dead ch) && is_overdue (failing ch) b.dead_after now in
    let back : ChannelSet = λ ch. has_entry (failing ch) && not (unhealthy ch) in
    (
      record b {
        failing_since = λ ch. if back ch then none else failing ch;
        dead = λ ch. (b.dead ch || died ch) && not (back ch);
      },
      record { died = died; recovered = λ ch. back ch && (b.dead ch || died ch) },
    )

abbrev pub stale : Board → ChannelSet
stale b = b.dead
