-- ===== src/Cwc.antt =====
-- lib/dpcwc: the binding of coroutines to the event loop, and its helpers.
pub mod Await
pub mod Id
pub mod Sleep
