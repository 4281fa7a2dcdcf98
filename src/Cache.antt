-- ===== src/Cache.antt =====
-- packages/tc-sdlc/src/cache/index.ts: the result cache.
pub mod Publish
pub mod Rollback
pub mod Kept
pub mod Restored
pub mod Placed
