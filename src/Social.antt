-- ===== src/Social.antt =====
-- services/social-service/internal: who follows whom, and the questions of the challenge.
pub mod Follows
pub mod Challenges
pub mod Answers
mod Tests
