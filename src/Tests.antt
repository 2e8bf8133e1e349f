-- ===== src/Tests.antt =====
-- Concrete instances of what the development is parametric in, and the theorems at them.
mod Wire
mod Certificates
mod Launches
mod Windows
mod Requests
mod Pages
mod Handlers
mod Values
mod Daemon
