-- ===== src/Tests.antt =====
-- Runs of the model at concrete inputs.
mod PoolTests
mod StreamTests
mod UrlTests
mod SseTests
mod ClientTests
mod FrameTests
mod SessionTests
mod ProxyTests
mod AuthTests
mod FormTests
mod ResponseTests
mod LifeTests
