-- ===== src/Command/Types/Control.antt =====
-- ublox-cellular/src/command/control/types.rs. The baud rates of all modules are there: the source
-- keeps those of the module that it is compiled for.
-- `..._code` is the number of a variant, and `..._tag` that of a variant with fields.
use fibocom_cellular_rs.Prelude.{ℕ}

pub data Circuit109Behaviour : Type 0 where
  always_present changes_with_carrier : Circuit109Behaviour

unfoldable pub circuit109_behaviour_code : Circuit109Behaviour → ℕ
circuit109_behaviour_code Circuit109Behaviour.always_present = 0
circuit109_behaviour_code Circuit109Behaviour.changes_with_carrier = 1

pub data Circuit108Behaviour : Type 0 where
  ignore online_command_state orderly_cleardown : Circuit108Behaviour

unfoldable pub circuit108_behaviour_code : Circuit108Behaviour → ℕ
circuit108_behaviour_code Circuit108Behaviour.ignore = 0
circuit108_behaviour_code Circuit108Behaviour.online_command_state = 1
circuit108_behaviour_code Circuit108Behaviour.orderly_cleardown = 2

pub data FlowControl : Type 0 where
  disabled rts_cts xon_xoff : FlowControl

unfoldable pub flow_control_code : FlowControl → ℕ
flow_control_code FlowControl.disabled = 0
flow_control_code FlowControl.rts_cts = 3
flow_control_code FlowControl.xon_xoff = 4

pub data SoftwareFlowControl : Type 0 where
  none circuit_103_104 circuit_105_106 : SoftwareFlowControl

unfoldable pub software_flow_control_code : SoftwareFlowControl → ℕ
software_flow_control_code SoftwareFlowControl.none = 0
software_flow_control_code SoftwareFlowControl.circuit_103_104 = 1
software_flow_control_code SoftwareFlowControl.circuit_105_106 = 3

pub data BaudRate : Type 0 where
  b0 b1200 b2400 b4800 b9600 b19200 b38400 b57600 b115200 b230400 b460800 b921600 : BaudRate
  b3000000 b3250000 b6000000 b6500000 : BaudRate

unfoldable pub baud_rate_code : BaudRate → ℕ
baud_rate_code BaudRate.b0 = 0
baud_rate_code BaudRate.b1200 = 1200
baud_rate_code BaudRate.b2400 = 2400
baud_rate_code BaudRate.b4800 = 4800
baud_rate_code BaudRate.b9600 = 9600
baud_rate_code BaudRate.b19200 = 19200
baud_rate_code BaudRate.b38400 = 38400
baud_rate_code BaudRate.b57600 = 57600
baud_rate_code BaudRate.b115200 = 115200
baud_rate_code BaudRate.b230400 = 230400
baud_rate_code BaudRate.b460800 = 460800
baud_rate_code BaudRate.b921600 = 921600
baud_rate_code BaudRate.b3000000 = 3000000
baud_rate_code BaudRate.b3250000 = 3250000
baud_rate_code BaudRate.b6000000 = 6000000
baud_rate_code BaudRate.b6500000 = 6500000
