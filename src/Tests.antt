-- ===== src/Tests.antt =====
-- The theorems at concrete inputs, and runs of the definitions.
mod Data
mod Configuration
mod Messages
mod Sessions
mod Connections
mod Consoles
mod Kernel
mod CommandLine
mod Programs
mod Dumps
