-- ===== src/PosixMq/Listeners.antt =====
-- The two programs that wait for messages, by a signal and by threads.
use linuxapi.PosixMq.Notified
use linuxapi.PosixMq.Threads
