-- ===== src/Cpu.antt =====
-- The descriptor tables, registers and interrupt entry of kernel/src/cpu/.
pub mod Gdt
pub mod Idt
pub mod Registers
pub mod Deliver
