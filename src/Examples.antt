-- ===== src/Examples.antt =====
-- Concrete runs of the code, each by a theorem at values where its hypotheses hold.
mod Patterns
mod Names
mod Devices
mod Drivers
mod World
mod Logic
mod Node
mod Store
mod Redis
mod External
mod Memory
mod Ntp
mod Tplink
