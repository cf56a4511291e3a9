-- ===== src/Server/Sessions/Rate.antt =====
-- The control of time and rate over the messages between two checks.
use uiconnect.Base.{ℕ, ◌+◌, List, [], ◌∷◌}
use uiconnect.Server.Sessions.{Control, count_message}

-- one message after another: when it came, and its size
unfoldable pub count_messages : List (ℕ × ℕ) → Control → Control
unfolding count_message
count_messages [] c = c
count_messages ((now, size) ∷ rest) c = count_messages rest (count_message now size c)

abbrev pub total : List (ℕ × ℕ) → ℕ
total [] = 0
total ((now, size) ∷ rest) = size + total rest

-- when the last message came, or `start` where there is none
abbrev pub last_time : ℕ → List (ℕ × ℕ) → ℕ
last_time start [] = start
last_time start ((now, size) ∷ rest) = last_time now rest
