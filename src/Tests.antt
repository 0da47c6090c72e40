-- ===== src/Tests.antt =====
-- The theorems on the device and the data service at concrete surroundings.
use fibocom_cellular_rs.Data.Service.{on_service}
use fibocom_cellular_rs.Device.State.{on_network}
use fibocom_cellular_rs.Data.Ingress.{on_service_network}
use fibocom_cellular_rs.Prelude.{◌≡◌, refl, []}
use fibocom_cellular_rs.Effect.{halt, Fault, combinators}
use fibocom_cellular_rs.Registration.{ConnectionState, registered, sticky, set_connection_state}
use fibocom_cellular_rs.Network.{ContextState}
use fibocom_cellular_rs.Network.Urcs.{handle_urc}
use fibocom_cellular_rs.Network.Watch.{check_registration_state, check_running_imsi}
use fibocom_cellular_rs.Network.Intervene.{intervene_registration, intervene, choose}
use fibocom_cellular_rs.Network.Events.{process_events, poll_registration}
use fibocom_cellular_rs.Device.State.{State}
use fibocom_cellular_rs.Device.Setup.{initialize}
use fibocom_cellular_rs.Device.Spin.{spin, send_at}
use fibocom_cellular_rs.Device.Spin
use fibocom_cellular_rs.Device.Power.{power_on}
use fibocom_cellular_rs.Device.Ready.{spin-ready}
use fibocom_cellular_rs.Device.Initialized.{initialize-fully_initialized}
use fibocom_cellular_rs.Device.Reset.{power_on-dead}
use fibocom_cellular_rs.Data.Context.{connect}
use fibocom_cellular_rs.Data.Service.{data_service, define, try_new}
use fibocom_cellular_rs.Data.Context.{define_context}
use fibocom_cellular_rs.Data.Promise.{connect-active}
use fibocom_cellular_rs.Data.Made.{data_service-ready}
use fibocom_cellular_rs.Samples.{dead_env, connected_device, set_ops, internet, connected_network}

-- All that a spin of a connected device runs.
unfoldable pub runs_spin : Unit {0}
unfolding combinators spin initialize Spin.process_events Spin.handle_urc_internal process_events
    handle_urc check_registration_state intervene_registration intervene choose check_running_imsi
    poll_registration set_connection_state registered sticky
runs_spin = tt

data_service-ready_example :
    ((data_service dead_env set_ops internet connected_device []).1.network.context_state
      ≡ ContextState.active)
    × ((data_service dead_env set_ops internet connected_device []).1.network.status.conn_state
        ≡ ConnectionState.connected)
    × ((data_service dead_env set_ops internet connected_device []).1.state
        ≡ State.fully_initialized)
unfolding runs_spin data_service define define_context try_new connect on_service_network on_network
    on_service
data_service-ready_example = data_service-ready dead_env set_ops internet connected_device [] refl

spin-ready_example :
    ((spin dead_env set_ops connected_device []).1.network.status.conn_state
      ≡ ConnectionState.connected)
    × ((spin dead_env set_ops connected_device []).1.state ≡ State.fully_initialized)
unfolding runs_spin on_service_network on_network on_service
spin-ready_example = spin-ready dead_env set_ops connected_device [] refl

initialize-fully_initialized_example :
    (initialize dead_env set_ops connected_device []).1.state ≡ State.fully_initialized
unfolding runs_spin
initialize-fully_initialized_example =
    initialize-fully_initialized dead_env set_ops connected_device [] refl

connect-active_example :
    ((connect dead_env internet connected_network []).1.context_state ≡ ContextState.active)
    × ((connect dead_env internet connected_network []).1.status ≡ connected_network.status)
unfolding connect combinators
connect-active_example = connect-active dead_env internet connected_network [] refl

power_on-dead_example : (power_on dead_env 20 connected_device []).0 ≡ halt Fault.out_of_fuel
power_on-dead_example = power_on-dead dead_env (λ l c. refl) refl refl refl 20 connected_device []
