-- ===== src/Recommendations.antt =====
-- backend/app/recommendations: advice that is never applied by itself.
pub mod Configuration
pub mod Rewrite
pub mod Observed
pub mod Cleanup
mod Examples
