-- ===== src/WorkloadShift/Episodes.antt =====
-- One request for each episode of a sustained shift.
use ai_driven_autonomous_no.Prelude.{
  ℕ, zero, suc, ◌+◌, ◌≡◌, refl, true, false, leb, inl, inr, Bool-cases, arith, if◌then◌else◌,
}
use ai_driven_autonomous_no.WorkloadShift.{
  WorkloadShiftDetector, consecutive_windows_required, observe_window,
}

-- The detector after so many windows that reach the threshold, and the requests that they make.
abbrev pub observe_breaches : ℕ → WorkloadShiftDetector → WorkloadShiftDetector
observe_breaches zero d = d
observe_breaches (suc k) d = observe_breaches k (observe_window d true).0

abbrev pub requests_of : ℕ → WorkloadShiftDetector → ℕ
requests_of zero d = 0
requests_of (suc k) d =
    (if (observe_window d true).1.1 then 1 else 0) + requests_of k (observe_window d true).0

-- While an episode is open nothing is requested.
window_open :
    (c : ℕ)
    → observe_window (record { consecutive = c; shift_episode_open = true }) true
      ≡ (record { consecutive = suc c; shift_episode_open = true }, (leb 3 (suc c), false))
unfolding observe_window consecutive_windows_required
window_open c = elim (Bool-cases (leb 3 (suc c))) [
  | inl far ↦ rw far refl
  | inr near ↦ rw near refl
]

open_episode : (k c : ℕ) → requests_of k (record { consecutive = c; shift_episode_open = true }) ≡ 0
open_episode zero c = refl
open_episode (suc k) c =
    let rest = open_episode k (suc c) in rw (window_open c) (omega (arith, rest))

-- After a window below the threshold, a run of windows that reach it requests one new analysis if it has
-- three windows or more, and none if it has fewer.
pub one_request_per_episode :
    (d : WorkloadShiftDetector) (k : ℕ)
    → requests_of k (observe_window d false).0 ≡ (if leb 3 k then 1 else 0)
unfolding observe_window consecutive_windows_required
one_request_per_episode d zero = refl
one_request_per_episode d (suc zero) = refl
one_request_per_episode d (suc (suc zero)) = refl
one_request_per_episode d (suc (suc (suc k))) = let rest = open_episode k 3 in ground arith
