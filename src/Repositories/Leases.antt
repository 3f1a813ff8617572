-- ===== src/Repositories/Leases.antt =====
-- app/repositories/base.py
use smart_dialer.Base.{ℕ, ◌*◌}

-- CANDIDATE_WINDOW_MULTIPLIER
abbrev pub candidate_window_multiplier : ℕ
candidate_window_multiplier = 3

-- `needed` is never negative here
abbrev pub candidate_window : ℕ → ℕ
candidate_window needed = needed * candidate_window_multiplier
