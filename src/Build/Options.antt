-- ===== src/Build/Options.antt =====
-- builder/vsphere/common/step_connect.go, step_config_params.go and step_wait_for_ip.go: the checks of
-- their settings, and the step that sets parameters.
use packer_plugin_vsphere.Base.{
  Bool, true, false, ◌&&◌, ◌||◌, not, Option, none, some, List, [], ◌∷◌, ◌++◌, ◌==◌, if◌then◌else◌,
  is_none, ℤ, pos, negsuc, is_empty, Result, ok, err, map_err, Text, codes, text_eq,
}
use packer_plugin_vsphere.Config.{error_if}
use packer_plugin_vsphere.Build.{
  BuildError, server_required, username_required, password_required, periodic_needs_sync,
  invalid_wait_address, negative_adapter_index, host_for_disabled_wait, ParamsConfig, ConnectConfig,
  WaitConfig,
}

-- `ConnectConfig.Prepare`.
unfoldable pub prepare_connect : ConnectConfig → List BuildError
prepare_connect c =
    error_if (is_empty c.vcenter_server) server_required
    ++ (error_if (is_empty c.username) username_required
        ++ error_if (is_empty c.password) password_required)

abbrev pub is_true : Option Bool → Bool
is_true none = false
is_true (some b) = b

-- `ConfigParamsConfig.Prepare`.
unfoldable pub prepare_params : ParamsConfig → List BuildError
prepare_params c =
    error_if (is_true c.tools_sync_time_periodically && not (is_true c.tools_sync_time))
      periodic_needs_sync

-- The library's `ToolsConfigInfo`.
pub record ToolsInfo : Type 0 where
  pub sync_time_allowed : Option Bool
  pub sync_time : Option Bool
  pub upgrade_policy : Text

-- What `StepConfigParams.Run` tells of the tools.
unfoldable pub tools_info : ParamsConfig → Option ToolsInfo
tools_info c =
    if not (is_none c.tools_sync_time)
      || not (is_none c.tools_sync_time_periodically)
      || c.tools_upgrade_policy
    then some (record {
      sync_time_allowed = c.tools_sync_time;
      sync_time = c.tools_sync_time_periodically;
      upgrade_policy = if c.tools_upgrade_policy then codes "UpgradeAtPowerCycle" else [];
    })
    else none

-- `StepConfigParams.Run`, with the driver's `AddConfigParams`; the parameters are a map.
unfoldable pub run_params :
    (List (Text × Text) → Option ToolsInfo → Result Text (Unit {0}))
    → ParamsConfig
    → Result Text (Unit {0})
run_params add c =
    map_err (λ e. codes "error adding configuration parameters: " ++ e)
      (add c.config_params (tools_info c))

-- The defaults of `WaitIpConfig.Prepare`.
unfoldable pub wait_defaults : WaitConfig → WaitConfig
wait_defaults c = record c {
  settle_timeout = if c.settle_timeout == 0 then 5000000000 else c.settle_timeout;
  wait_timeout = if c.wait_timeout == 0 then 1800000000000 else c.wait_timeout;
  wait_address = elim c.wait_address [ none ↦ some (codes "0.0.0.0/0") | some a ↦ some a ];
}

-- The network that an address names, with `net.ParseCIDR`; none where the address is empty.
abbrev pub parsed_net {ℓ} :
    {N : Type ℓ} → (Text → Result Text N) → Option Text → Result Text (Option N)
parsed_net parse none = ok none
parsed_net parse (some a) =
    if is_empty a then ok none else elim (parse a) [ err e ↦ err e | ok n ↦ ok (some n) ]

abbrev pub net_errors {ℓ} : {N : Type ℓ} → Result Text (Option N) → List BuildError
net_errors (ok n) = []
net_errors (err e) = invalid_wait_address e ∷ []

abbrev pub is_negative : Option ℤ → Bool
is_negative none = false
is_negative (some (pos n)) = false
is_negative (some (negsuc n)) = true

-- The errors of `WaitIpConfig.Prepare`.
unfoldable pub prepare_wait {ℓ} :
    {N : Type ℓ} → (Text → Result Text N) → WaitConfig → List BuildError
prepare_wait parse c =
    net_errors (parsed_net parse (wait_defaults c).wait_address)
    ++ error_if (is_negative c.wait_adapter_index) negative_adapter_index

-- `ValidateDisableIpWait`.
unfoldable pub validate_disable_ip_wait : WaitConfig → Text → Text → List BuildError
validate_disable_ip_wait c kind host =
    if not c.disable_ip_wait || text_eq kind (codes "none")
    then []
    else error_if (is_empty host) host_for_disabled_wait
