-- ===== src/Net/Streams.antt =====
-- The stream servers and clients of both domains, taken together.
