-- ===== src/Function.antt =====
-- custom_components/pyscript/function.py: the tasks that pyscript starts, their unique names, and
-- the services that scripts register. The class `Function` keeps these in class attributes.
pub mod Tasks
pub mod Unique
pub mod Ownership
pub mod Coroutine
pub mod Cleanup
pub mod Reach
pub mod Names
pub mod Services
pub mod Refcount
pub mod Arguments
mod Tests
