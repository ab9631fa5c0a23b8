-- ===== src/Levels/Hours.antt =====
-- services/levels-service/internal/repository/user_log_repository.go and
-- internal/service/activity_service.go: the score of the hours of activity.
use metaverse_rang_microserv.Common.{ℕ, ◌+◌, ◌*◌, ◌/◌, ◌%◌, ◌≡◌, ◌≢◌, arith}
use metaverse_rang_microserv.Levels.Rows.{hours_score}

-- the tenths of a whole number of hours, rounded up, in ten-thousandths
unfoldable pub rounded_up : ℕ → ℕ
rounded_up minutes = (minutes + 59) / 60 * 1000

-- The score of the hours is that of the hours rounded up, but for a whole number of hours, none
-- included, it is that of one hour more.
pub hours_score-rounded_up :
    (minutes : ℕ)
    → (minutes % 60 ≢ 0 → hours_score minutes ≡ rounded_up minutes)
      × (minutes % 60 ≡ 0 → hours_score minutes ≡ rounded_up (minutes + 1))
unfolding hours_score rounded_up
hours_score-rounded_up minutes = (λ h. omega (arith, h), λ h. omega (arith, h))
