-- ===== src/Tests.antt =====
-- Runs of the kernel's functions at small inputs.
mod Pages
mod Text
mod Files
mod Devices
mod Rings
mod Tables
mod Slabs
mod Disks
mod Processors
mod Shutdown
mod Firmware
mod Mappings
mod Boot
