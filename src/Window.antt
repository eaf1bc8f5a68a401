-- ===== src/Window.antt =====
-- scripts/remote_count_timeouts.py and scripts/remote_detect_stats.py: both find the first and
-- the last time stamp of a log, and look at the lines between, less some seconds at each end.
pub mod Stamps
pub mod Count
pub mod Detect
