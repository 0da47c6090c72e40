-- ===== src/Command/Types/Gpio.antt =====
-- ublox-cellular/src/command/gpio/types.rs.
-- `..._code` is the number of a variant, and `..._tag` that of a variant with fields.
use fibocom_cellular_rs.Prelude.{ℕ}

pub data GpioOutValue : Type 0 where
  low high : GpioOutValue

unfoldable pub gpio_out_value_code : GpioOutValue → ℕ
gpio_out_value_code GpioOutValue.low = 0
gpio_out_value_code GpioOutValue.high = 1

pub data GpioInPull : Type 0 where
  no_pull pull_up pull_down : GpioInPull

unfoldable pub gpio_in_pull_code : GpioInPull → ℕ
gpio_in_pull_code GpioInPull.no_pull = 0
gpio_in_pull_code GpioInPull.pull_up = 1
gpio_in_pull_code GpioInPull.pull_down = 2

pub data GpioMode : Type 0 where
  output : GpioOutValue → GpioMode
  input : GpioInPull → GpioMode
  network_status external_gnss_supply_enable external_gnss_data_ready : GpioMode
  external_gnss_rtc_sharing jamming_detection sim_detection headset_detection : GpioMode
  gsm_tx_indication module_operating_status module_functionality_status : GpioMode
  i2s_digital_audio spi_serial master_clock_generation uart wifi_enable : GpioMode
  ring_indication last_gasp_enable external_gnss_antenna time_pulse_gnss : GpioMode
  time_pulse_modem timestamp_external_interrupt fast_poweroff lwm2m_pulse : GpioMode
  hardware_flow_control clock_output pad_disabled : GpioMode

unfoldable pub gpio_mode_tag : GpioMode → ℕ
gpio_mode_tag (GpioMode.output x) = 0
gpio_mode_tag (GpioMode.input x) = 1
gpio_mode_tag GpioMode.network_status = 2
gpio_mode_tag GpioMode.external_gnss_supply_enable = 3
gpio_mode_tag GpioMode.external_gnss_data_ready = 4
gpio_mode_tag GpioMode.external_gnss_rtc_sharing = 5
gpio_mode_tag GpioMode.jamming_detection = 6
gpio_mode_tag GpioMode.sim_detection = 7
gpio_mode_tag GpioMode.headset_detection = 8
gpio_mode_tag GpioMode.gsm_tx_indication = 9
gpio_mode_tag GpioMode.module_operating_status = 10
gpio_mode_tag GpioMode.module_functionality_status = 11
gpio_mode_tag GpioMode.i2s_digital_audio = 12
gpio_mode_tag GpioMode.spi_serial = 13
gpio_mode_tag GpioMode.master_clock_generation = 14
gpio_mode_tag GpioMode.uart = 15
gpio_mode_tag GpioMode.wifi_enable = 16
gpio_mode_tag GpioMode.ring_indication = 18
gpio_mode_tag GpioMode.last_gasp_enable = 19
gpio_mode_tag GpioMode.external_gnss_antenna = 20
gpio_mode_tag GpioMode.time_pulse_gnss = 21
gpio_mode_tag GpioMode.time_pulse_modem = 22
gpio_mode_tag GpioMode.timestamp_external_interrupt = 23
gpio_mode_tag GpioMode.fast_poweroff = 24
gpio_mode_tag GpioMode.lwm2m_pulse = 25
gpio_mode_tag GpioMode.hardware_flow_control = 26
gpio_mode_tag GpioMode.clock_output = 32
gpio_mode_tag GpioMode.pad_disabled = 255
