-- ===== src/Tools/Within.antt =====
-- Messages that a call can carry.
use mykafka.Prelude.{ℕ, ◌≤◌, List, [], ◌∷◌, length}
use mykafka.Config.Keys.{Key}
use mykafka.Segment.Layout.{Payload}

-- The messages are no longer than a limit.
abbrev pub AllWithin : ℕ → List Payload → Type 0
AllWithin limit [] = Unit {0}
AllWithin limit (x ∷ xs) = (length x ≤ limit) × AllWithin limit xs

abbrev pub Small : ℕ → Key → List Payload → Type 0
Small limit key ms = (length key.topic ≤ limit) × AllWithin limit ms
