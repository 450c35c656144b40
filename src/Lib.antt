-- ===== src/Lib.antt =====
-- Verification of the core logic of the Packer plugin for VMware vSphere: the controllers and units of
-- virtual disks, the attachment of disks to a virtual machine, the choice of datastores by Storage
-- DRS and by storage policies, the preparation of the configurations, the step that clones or deploys
-- a virtual machine, the deployment of OVF files, the wait for an address, the CD-ROM devices, and the
-- tag manager.
--
-- The program. A builder reads its configuration and prepares it (builder/vsphere/common and
-- builder/vsphere/clone), and the driver (builder/vsphere/driver) turns it into requests to vCenter.
-- Storage blocks name a controller by an index or by an address such as `scsi0:3`; prepareStorage
-- checks them without a virtual machine, and addStorageDevices checks them again against its devices
-- and attaches the disks. For a datastore cluster, the device changes of this attachment are sent
-- to Storage DRS, and what it recommends becomes one datastore for each disk. The clone
-- step puts these together: the datastores of the steps before it, one disk for each storage block,
-- and a request to the driver, for a template, a content library item or an OVF file. The steps after
-- it wait for the address of the guest and change its CD-ROM devices. When the virtual
-- machine is ready, the tag manager resolves the configured tags and attaches them to it.
--
-- The files, and the source that each is about:
--   Base: Booleans, lists, results, texts and machine words over the native numbers. A text is the
--     list of its character codes; an int64 product and the conversion to int32 wrap around.
--   Controller (builder/vsphere/driver/controller_address.go): the devices, limits and errors.
--     Address: ParseControllerUnit and String. Devices: FindControllerByBus and the labels.
--     Units: OccupiedUnits, listAvailableUnits, formatAvailableUnits. Static and Runtime: the two
--     validations of an address. Capacity: the limits of a controller and of a virtual machine.
--   Storage (builder/vsphere/driver/disk.go): the disks, and govmomi's device list as a parameter.
--     Attach: addStorageDevices, with its local variables as a record that the loops pass on.
--     Loops and Steps: an induction over the rounds of these loops, and what one round does. Counts,
--     Disks and Limits: the numbers of disks and of controllers. Places and Addresses: where the
--     disks with a unit stand.
--   Placement (builder/vsphere/driver/storage_placement.go and storage_drs.go): the device changes of
--     a request and the reading of a recommendation. Assign: datastoresForNewDisks. Select:
--     SelectDatastoresForDisks and SelectDatastoreFromCluster. Lengths, Keys and Sizes: the numbers of
--     datastores and of new disks. Existing: StorageExistingDevices.
--   Config (builder/vsphere/common/storage_config.go and config_location.go, builder/vsphere/clone/
--     storage_prepare.go): the preparations, as functions to the list of the errors they collect.
--   Tags (builder/vsphere/common/tags_errors.go, tags_retry.go, tags_config.go, tags_manager.go):
--     Errors and Wrap: the messages, the tests on them, and wrapTagOperationError. Retry and
--     Attempts: withRetry, and its runs as a relation. Validate and Valid: ValidateConfig. Manager,
--     Resolve and Apply: the lookups with their caches, ResolveTagIDs and ApplyTags.
--   DataSource (datasource/common/select.go, tag.go, tag_matcher.go, list_tags.go): the selection of
--     one item among several, and the filter by tags. Selection and Matching: what they mean.
--   Steps (builder/vsphere/common): the state of a build, and what steps ask of the driver. Resolve and
--     Policies (step_resolve_datastore.go): the datastores of a build, and the cache of the policies.
--     WaitIp, Settled and Steady (step_wait_for_ip.go): doGetIp on the rounds it sees, Run on its
--     events, and what an address that is returned means. Shutdown and Off (step_shutdown.go): the
--     shutdown of a machine, and when the step goes on. Import and Imported
--     (step_import_to_content_library.go): the import to a content library.
--   Clone (builder/vsphere/clone/step_clone.go). Prepare, Address and Accepted: CloneConfig.Prepare and
--     what it accepts. Run and Deploy: the three ways of StepCloneVM. Placed and Outcome: the disks of
--     a request and their datastores, and what the step leaves behind.
--   Ovf (builder/vsphere/driver/ovf.go). Source: validateOvfSource and createOvfImportParams. Deploy:
--     DeployOvf and GetOvfOptions, with the calls of the lease as a list. Lease and Checked: how a lease
--     ends, and what becomes of a source that was prepared.
--   Cdrom (builder/vsphere/driver/vm_cdrom.go, builder/vsphere/common/step_add_cdrom.go,
--     step_remove_cdrom.go and step_reattach_cdrom.go). Devices: the calls of the driver. Run: the
--     steps. Reattached: the number of devices after a step.
--   Build (builder/vsphere/common/step_hardware.go, step_add_flag.go, step_connect.go,
--     step_config_params.go and step_wait_for_ip.go). Hardware and Options: the checks of the settings.
--     Configure, Configure/Changes and Configure/Configured: Configure of builder/vsphere/driver/vm.go,
--     the changes of devices it sends and what it leaves behind.
--   Customize (builder/vsphere/clone/step_customize.go): the options and the identity of a guest.
--     Interfaces: the settings of its interfaces, and the step. Gateways and Turns: which of them get a gateway.
--   Examples: the theorems at concrete inputs.
--
-- Correspondence. A loop is a structural recursion on the list it ranges over, and no definition needs
-- fuel; the retry loop recurses on the number of attempts that are left. A result with an error is a
-- `Result`; a panic (an index below zero) is an error of its own. A step of the tag manager takes
-- and returns its state: the two caches and the state of vCenter. A controller that several lists
-- share by pointer is written in each of them by its key. A step returns its action and the state bag,
-- of which the keys that it reads and writes are fields; the clone step returns the requests to
-- vCenter too, in their order. A wait is a function of what it sees: the
-- answer, the time and the cancellation of each round are an input.
--
-- Parameters. govmomi's VirtualDeviceList (`DeviceLibrary`), the calls to vCenter for Storage DRS
-- (`VCenter`) and for tags (`TagApi`, `Inventory`), the template engine, and the select on the context
-- and a timer are arguments of the definitions, as are the calls of the steps to vCenter
-- (`PlacementDriver`, `CloneDriver`, `OvfDriver`, `CdromServer`, `Machine`, `Library`) and the host's
-- files and URLs (`Host`), and Go's functions on addresses (`NetPackage`); what is relied on of them
-- is in `DeviceLibraryLaws`, `AttachLaws`, `CdromLaws` and `MachineLaws`. The scaling of a delay by a
-- float is a function of the retry configuration.
--
-- Not modelled: the steps that only call vCenter or a guest (boot commands, uploads, exports), the
-- reading of OVF archives and the sanitizing of messages, the loops of the data sources over the
-- objects of vCenter, the post-processors, the supervisor builder, and generated code. After a failed
-- call on CD-ROM devices the hardware is not followed any further, and Cleanup of a step is left out. Paths are cleaned as on Unix, and the delays of the retries are those whose products fit an int64.
pub mod Base
pub mod Controller
pub mod Storage
pub mod Tags
pub mod Config
pub mod Placement
pub mod DataSource
pub mod Steps
pub mod Clone
pub mod Ovf
pub mod Cdrom
pub mod Build
pub mod Customize
mod Examples
