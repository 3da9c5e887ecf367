-- ===== src/State.antt =====
-- State variables (custom_components/pyscript/state.py): access to Home Assistant's states, and the
-- notification of their changes. Waits on other tasks inside an operation are left out: the code
-- awaits only unbounded queues here.
pub mod Machine
pub mod Watch
pub mod Access
pub mod Read
pub mod Deliver
pub mod Named
pub mod Written
pub mod Persist
mod Tests
