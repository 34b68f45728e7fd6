-- ===== src/Tests/Lxc.antt =====
-- Runs of the theorems on the container of LXC, and on SoftwareContainer over it.
use softwarecontainer.Common.{◌≡◌, ◌≢◌, refl, ℕ, true, false, some, [], ◌∷◌, if◌then◌else◌}
use softwarecontainer.Common.Bytes.{Bytes, bytes, ◌==◌, is_empty, str_lt}
use softwarecontainer.Common.OrdMap.{OrdMap, lookup, insert, bytes_key, Ascending, insert-Ascending}
use softwarecontainer.Common.Throwing.{ok, throw, undefined}
use softwarecontainer.Container.{
  Container, new_container, prepared as prepared_state, created, started, frozen, below, through,
}
use softwarecontainer.Container.Creation.{
  initialize, create, create_new, create_with, mount_root_fs,
}
use softwarecontainer.Container.Running.{
  ensure_container_running, wait_until_running, start, destroy, suspend, resume, shutdown,
  destroy_stopped,
}
use softwarecontainer.Container.Execution.{actual_variables, set_environment_variable}
use softwarecontainer.Container.Life.{
  bind_it, set_variable, initialize_it, create_it, call_it, start_it, shut_it_down, destroy_it,
  live, call, live_safe,
}
use softwarecontainer.Container.Handle.{HasHandle}
use softwarecontainer.Container.Transitions.{resume-suspend, LxcDestroyed, destroy_succeeds}
use softwarecontainer.Container.Variables.{
  or_else, lookup-actual_variables, actual_variables-set_environment_variable,
}
use softwarecontainer.Container.Interface.{lxc_container}
use softwarecontainer.SoftwareContainer.{
  SoftwareContainer, ready, suspended, construct, init, start as start_whole,
}
use softwarecontainer.SoftwareContainer.OverLxc.{suspending, toggle_all, toggles_agree}
use softwarecontainer.Tests.Hosts.{System, empty_system, small_os, small_lxc, small_settings}

live_safe_example :
    let steps =
      initialize_it
      ∷ create_it
      ∷ call_it start_it
      ∷ bind_it (bytes "/h/x") (bytes "/x") true
      ∷ set_variable (bytes "A") (bytes "1")
      ∷ call_it (destroy_it 2)
      ∷ create_it
      ∷ [] in
    let (c, s) = live small_os small_lxc small_settings steps (new_container, empty_system) in
    HasHandle c × ((call small_lxc small_settings (shut_it_down 2) (c, s)).0 ≢ throw undefined)
live_safe_example =
    live_safe small_os small_lxc small_settings
      (initialize_it
        ∷ create_it
        ∷ call_it start_it
        ∷ bind_it (bytes "/h/x") (bytes "/x") true
        ∷ set_variable (bytes "A") (bytes "1")
        ∷ call_it (destroy_it 2)
        ∷ create_it
        ∷ [])
      (shut_it_down 2) empty_system

abbrev running_container : Container ℕ
running_container = record new_container { state = started; container = some 7 }

resume-suspend_example :
    ((suspend small_lxc (running_container, empty_system)).0 ≡ ok true)
    × (resume small_lxc (suspend small_lxc (running_container, empty_system)).1
        ≡ (ok true, (running_container, empty_system)))
resume-suspend_example =
    resume-suspend small_lxc running_container 7 empty_system refl refl refl refl

running_destroyed :
    (destroy small_lxc small_settings 2 (running_container, empty_system)).0 ≡ ok true
unfolding destroy destroy_stopped shutdown through
running_destroyed = refl

destroy_succeeds_example :
    (below running_container.state created ≡ false)
    × (below running_container.state started ≡ false
        → (shutdown small_lxc 2 (running_container, empty_system)).0 ≡ ok true)
    × LxcDestroyed small_lxc small_settings
        (destroy small_lxc small_settings 2 (running_container, empty_system)).1
destroy_succeeds_example =
    destroy_succeeds small_lxc small_settings running_container empty_system 2 running_destroyed

abbrev gateway_variables : OrdMap Bytes Bytes
gateway_variables = (bytes "A", bytes "1") ∷ (bytes "B", bytes "2") ∷ []

gateway_variables-Ascending : Ascending gateway_variables
unfolding Ascending insert str_lt ◌==◌
gateway_variables-Ascending =
    insert-Ascending (bytes "A") (bytes "1") ((bytes "B", bytes "2") ∷ [])
      (insert-Ascending (bytes "B") (bytes "2") [] tt)

lookup-actual_variables_example :
    lookup (bytes "B") (actual_variables ((bytes "B", bytes "3") ∷ []) gateway_variables)
    ≡ or_else
        (lookup (bytes "B") ((bytes "B", bytes "3") ∷ []))
        (lookup (bytes "B") gateway_variables)
lookup-actual_variables_example =
    lookup-actual_variables ((bytes "B", bytes "3") ∷ []) gateway_variables (bytes "B")
      gateway_variables-Ascending

actual_variables-set_environment_variable_example :
    let c' =
      (set_environment_variable small_os small_settings
        (bytes "A")
        (bytes "x")
        (running_container, empty_system)).1.0 in
    Ascending c'.gateway_environment_variables
    × (lookup (bytes "A") (actual_variables [] c'.gateway_environment_variables)
        ≡ (if bytes "A" == bytes "A" then some (bytes "x") else lookup (bytes "A") []))
unfolding Ascending
actual_variables-set_environment_variable_example =
    actual_variables-set_environment_variable small_os small_settings (bytes "A") (bytes "x")
      (bytes "A") running_container empty_system refl tt

abbrev prepared : SoftwareContainer ℕ (Container ℕ × System)
prepared = record {
  state = ready;
  notified = [];
  gateways = [];
  container = (record new_container { state = prepared_state }, empty_system);
  previously_configured = false;
  shutdown_timeout = 2;
}

constructed :
    (construct {G = ℕ} (lxc_container small_os small_lxc small_settings) [] prepared).0 ≡ ok tt
unfolding construct init start_whole initialize create create_new create_with mount_root_fs through
    is_empty start ensure_container_running wait_until_running
constructed = refl

toggles_agree_example :
    let end =
      toggle_all small_os small_lxc small_settings
        (suspending ∷ suspending ∷ [])
        (construct (lxc_container small_os small_lxc small_settings) [] prepared).1 in
    (end.state ≡ ready → end.container.0.state ≡ started)
    × (end.state ≡ suspended → end.container.0.state ≡ frozen)
toggles_agree_example =
    toggles_agree small_os small_lxc small_settings [] prepared (suspending ∷ suspending ∷ [])
      constructed
