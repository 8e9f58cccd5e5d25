-- ===== src/TimeWheel/Known.antt =====
-- `addTask` of pkg/gds/timewheel.go for a key that the wheel knows.
use woocoo.TimeWheel.{TimeWheel}
