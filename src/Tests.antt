-- ===== src/Tests.antt =====
-- Runs of the model on concrete inputs, and each theorem at one of them.
mod Runs
mod Reports
mod Sources
mod Works
mod Mains
mod Lives
mod Hwmons
mod Samplers
mod Drivers
mod Probes
mod Energies
mod Perfs
mod Naps
mod Mailboxes
mod Basics
mod Cores
