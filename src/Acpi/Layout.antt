-- ===== src/Acpi/Layout.antt =====
-- The fixed description table, as the packed struct of acpi.c lays it out, and the header and address
-- structs. The bytes that the struct calls reserved are left out.
use spctrx.Common.{ℕ, ◌+◌, ◌*◌, ◌^◌}
use spctrx.Memory.Block.{Memory}

-- Little-endian numbers at an address; memory holds bytes.
abbrev pub read_u8 : Memory → ℕ → ℕ
read_u8 m a = m a

abbrev pub read_u16 : Memory → ℕ → ℕ
read_u16 m a = m a + m (a + 1) * 2 ^ 8

abbrev pub read_u32 : Memory → ℕ → ℕ
read_u32 m a = read_u16 m a + read_u16 m (a + 2) * 2 ^ 16

abbrev pub read_u64 : Memory → ℕ → ℕ
read_u64 m a = read_u32 m a + read_u32 m (a + 4) * 2 ^ 32

-- `length` of an `SDTHeader`, and the header's size.
abbrev pub sdt_length : Memory → ℕ → ℕ
sdt_length m a = read_u32 m (a + 4)

abbrev pub sdt_size : ℕ
sdt_size = 36

pub record GenericAddress : Type 0 where
  pub addr_space : ℕ
  pub bit_width : ℕ
  pub bit_offset : ℕ
  pub access_size : ℕ
  pub addr : ℕ

abbrev pub generic_address_at : Memory → ℕ → GenericAddress
generic_address_at m a = record {
  addr_space = read_u8 m a;
  bit_width = read_u8 m (a + 1);
  bit_offset = read_u8 m (a + 2);
  access_size = read_u8 m (a + 3);
  addr = read_u64 m (a + 4);
}

pub record Fadt : Type 0 where
  pub firmware_ctrl : ℕ
  pub dsdt : ℕ
  pub preferred_power_management_profile : ℕ
  pub sci_interrupt : ℕ
  pub smi_command_port : ℕ
  pub acpi_enable : ℕ
  pub acpi_disable : ℕ
  pub s4bios_req : ℕ
  pub pstate_control : ℕ
  pub pm1a_event_block : ℕ
  pub pm1b_event_block : ℕ
  pub pm1a_control_block : ℕ
  pub pm1b_control_block : ℕ
  pub pm2_control_block : ℕ
  pub pm_timer_block : ℕ
  pub gpe0_block : ℕ
  pub gpe1_block : ℕ
  pub pm1_event_length : ℕ
  pub pm1_control_length : ℕ
  pub pm2_control_length : ℕ
  pub pm_timer_length : ℕ
  pub gpe0_length : ℕ
  pub gpe1_length : ℕ
  pub gpe1_base : ℕ
  pub cstate_control : ℕ
  pub worst_c2_latency : ℕ
  pub worst_c3_latency : ℕ
  pub flush_size : ℕ
  pub flush_stride : ℕ
  pub duty_offset : ℕ
  pub duty_width : ℕ
  pub day_alarm : ℕ
  pub month_alarm : ℕ
  pub century : ℕ
  pub boot_architecture_flags : ℕ
  pub flags : ℕ
  pub reset_reg : GenericAddress
  pub reset_value : ℕ
  pub x_firmware_control : ℕ
  pub x_dsdt : ℕ
  pub x_pm1a_event_block : GenericAddress
  pub x_pm1b_event_block : GenericAddress
  pub x_pm1a_control_block : GenericAddress
  pub x_pm1b_control_block : GenericAddress
  pub x_pm2_control_block : GenericAddress
  pub x_pm_timer_block : GenericAddress
  pub x_gpe0_block : GenericAddress
  pub x_gpe1_block : GenericAddress

unfoldable pub fadt_at : Memory → ℕ → Fadt
fadt_at m a = record {
  firmware_ctrl = read_u32 m (a + 36);
  dsdt = read_u32 m (a + 40);
  preferred_power_management_profile = read_u8 m (a + 45);
  sci_interrupt = read_u16 m (a + 46);
  smi_command_port = read_u32 m (a + 48);
  acpi_enable = read_u8 m (a + 52);
  acpi_disable = read_u8 m (a + 53);
  s4bios_req = read_u8 m (a + 54);
  pstate_control = read_u8 m (a + 55);
  pm1a_event_block = read_u32 m (a + 56);
  pm1b_event_block = read_u32 m (a + 60);
  pm1a_control_block = read_u32 m (a + 64);
  pm1b_control_block = read_u32 m (a + 68);
  pm2_control_block = read_u32 m (a + 72);
  pm_timer_block = read_u32 m (a + 76);
  gpe0_block = read_u32 m (a + 80);
  gpe1_block = read_u32 m (a + 84);
  pm1_event_length = read_u8 m (a + 88);
  pm1_control_length = read_u8 m (a + 89);
  pm2_control_length = read_u8 m (a + 90);
  pm_timer_length = read_u8 m (a + 91);
  gpe0_length = read_u8 m (a + 92);
  gpe1_length = read_u8 m (a + 93);
  gpe1_base = read_u8 m (a + 94);
  cstate_control = read_u8 m (a + 95);
  worst_c2_latency = read_u16 m (a + 96);
  worst_c3_latency = read_u16 m (a + 98);
  flush_size = read_u16 m (a + 100);
  flush_stride = read_u16 m (a + 102);
  duty_offset = read_u8 m (a + 104);
  duty_width = read_u8 m (a + 105);
  day_alarm = read_u8 m (a + 106);
  month_alarm = read_u8 m (a + 107);
  century = read_u8 m (a + 108);
  boot_architecture_flags = read_u16 m (a + 109);
  flags = read_u32 m (a + 112);
  reset_reg = generic_address_at m (a + 116);
  reset_value = read_u8 m (a + 128);
  x_firmware_control = read_u64 m (a + 132);
  x_dsdt = read_u64 m (a + 140);
  x_pm1a_event_block = generic_address_at m (a + 148);
  x_pm1b_event_block = generic_address_at m (a + 160);
  x_pm1a_control_block = generic_address_at m (a + 172);
  x_pm1b_control_block = generic_address_at m (a + 184);
  x_pm2_control_block = generic_address_at m (a + 196);
  x_pm_timer_block = generic_address_at m (a + 208);
  x_gpe0_block = generic_address_at m (a + 220);
  x_gpe1_block = generic_address_at m (a + 232);
}
