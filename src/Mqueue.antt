-- ===== src/Mqueue.antt =====
-- The jobs of app/mqueue/cmd/job/internal/logic.
pub mod CloseOrder
pub mod Notify
pub mod Laws
pub mod Live
pub mod Register
