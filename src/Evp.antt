-- ===== src/Evp.antt =====
-- lib/dpapp/os/linux/dpevp_epoll.c: the event loops of the master and the workers.
pub mod Call
pub mod Deque
pub mod Element
pub mod Handover
pub mod Ready
pub mod Timer
mod Examples
mod Loops
