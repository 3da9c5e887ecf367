-- ===== src/Requirements.antt =====
-- Requirements of scripts (custom_components/pyscript/requirements.py): the lines of the files, the
-- version that is chosen for each package, and what is installed.
pub mod Lines
pub mod Choose
mod Highest
mod Files
pub mod Install
mod Wanted
mod Tests
