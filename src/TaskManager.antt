-- ===== src/TaskManager.antt =====
-- engine/task_manager.py: the YAML-backed task store, shared by processes through a lock file.
-- `Task` is the data on disk, `Store` the load-modify-save cycle, `Methods` the public methods.
pub mod Task
pub mod Store
pub mod Methods
mod Tests
