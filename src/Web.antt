-- ===== src/Web.antt =====
-- internal/web: the cache behind the polled pages.
pub mod SwrCache
