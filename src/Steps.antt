-- ===== src/Steps.antt =====
-- The state that the steps of a build share, and what they ask of the driver
-- (builder/vsphere/driver/driver.go). A lookup of the driver answers the same while a step runs; the
-- errors that it returns are their messages.
pub mod Resolve
pub mod Policies
pub mod WaitIp
pub mod Settled
pub mod Shutdown
pub mod Import
pub mod Steady
use packer_plugin_vsphere.Base.{ℕ, Bool, Option, some, List, Result, Text}
use packer_plugin_vsphere.Controller.{Device, StorageError}
use packer_plugin_vsphere.Placement.{StoragePlacementInput}
use packer_plugin_vsphere.Placement.Select.{SelectionMethod}

-- A datastore, as far as the steps read it: its name and its reference.
pub record Datastore : Type 0 where
  pub name : Text
  pub ref : Text

-- The values of `datastore_selection_method`.
pub data ChosenBy : Type 0 where
  direct by_storage_policy : ChosenBy
  by_cluster : SelectionMethod → ChosenBy

-- The errors of the steps; each holds what its message shows.
pub data StepError : Type 0 where
  datastore_not_found : Text → Text → StepError
  no_cluster_support : StepError
  cluster_failed : Text → StorageError → StepError
  policy_not_found : Text → Text → StepError
  no_datastore_for_policy : Text → Text → StepError
  no_primary_datastore : ℕ → StepError
  no_datastore_for_disk : ℕ → Text → Text → StepError
  no_datastore : StepError
  template_not_found : Text → StepError
  devices_unreadable : Text → StepError
  driver_failed : Text → StepError
  no_virtual_machine : StepError
  item_not_found : Text → StepError
  network_required deployment_option_refused : StepError
  not_for_ovf_items : Text → ℕ → StepError
  deployment_failed : Text → StepError
  ovf_invalid : Text → Text → StepError → StepError
  ovf_failed : Text → Text → Text → StepError
  options_unreadable : Text → StepError
  no_deployment_options : Text → StepError
  unknown_deployment_option : Text → List Text → StepError
  empty_property_key : StepError
  property_key_too_long property_value_too_long : Text → StepError

-- `multistep.StepAction`.
pub data Action : Type 0 where
  continue_build halt_build : Action

-- The keys of the state bag that are modelled; `none` is a key that is not there.
pub record StateBag : Type 0 where
  pub chosen_datastore : Option Datastore
  pub datastore_selection_method : Option ChosenBy
  pub storage_policy_id : Option Text
  pub vm : Option Text
  pub destroy_vm : Bool
  pub failure : Option StepError

-- `state.Put("error", err)` and `ActionHalt`.
unfoldable pub halt_with : StepError → StateBag → Action × StateBag
halt_with e s = (halt_build, record s { failure = some e })

-- The lookups that the placement of disks makes. A selector is `none` where the driver is not of the
-- interface that has it.
pub record PlacementDriver : Type 0 where
  pub find_datastore : Text → Text → Result Text Datastore
  pub find_storage_policy_id : Text → Result Text Text
  pub find_compatible_datastore : Text → Text → Text → Result Text Datastore
  pub cluster_selector : Option (Text → Result StorageError (Datastore × SelectionMethod))
  pub disk_selector :
      Option (Text → StoragePlacementInput → Result StorageError (List Datastore × SelectionMethod))
