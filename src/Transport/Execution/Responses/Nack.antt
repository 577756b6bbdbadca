-- ===== src/Transport/Execution/Responses/Nack.antt =====
-- internal/transport/ch341.go: what `executeSegment` makes of an answer that tells of a NACK.
