-- ===== src/WorkloadShift/Examples.antt =====
-- A detector that counted before, and five windows that reach the threshold.
use ai_driven_autonomous_no.Prelude.{◌≡◌, true, false, leb, if◌then◌else◌}
use ai_driven_autonomous_no.WorkloadShift.{WorkloadShiftDetector, observe_window}
use ai_driven_autonomous_no.WorkloadShift.Episodes.{requests_of, one_request_per_episode}

abbrev detector : WorkloadShiftDetector
detector = record { consecutive = 7; shift_episode_open = true }

one_request_per_episode_example :
    requests_of 5 (observe_window detector false).0 ≡ (if leb 3 5 then 1 else 0)
one_request_per_episode_example = one_request_per_episode detector 5
