-- ===== src/Tests.antt =====
-- Sample values, and the theorems applied at them.
mod Values
mod Messages
mod Routers
mod Machines
mod Daemons
mod Drives
mod Masters
mod Updates
mod Radios
mod Streams
mod Processes
mod Https
mod Lircs
mod Plugins
