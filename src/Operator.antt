-- ===== src/Operator.antt =====
-- pkg/shell-operator/operator.go: the handlers of tasks, which tie hooks, queues and monitors together.
pub mod HookRun
pub mod Attempts
pub mod Runs
pub mod Enabling
pub mod Synchronized
pub mod Retries
mod Tests
mod StartTests
