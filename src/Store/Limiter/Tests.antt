-- ===== src/Store/Limiter/Tests.antt =====
-- pkg/store/limiter.go: a sequence of calls that passes the limit.
