-- ===== src/Lib.antt =====
-- A model of KeelS2, a plugin host for Source 2 servers, and the theorems that hold of it.
--
-- The host (host/src) discovers plugins, checks their manifests, starts and stops them, and hands them
-- services. A plugin talks to the host through C tables (sdk/include/keels2), which end in the
-- operations modelled here. An operation of a service runs under a lock, so it is one step, and a history
-- is a list of calls; what the host does between two calls is part of the history. The plugin manager
-- lets go of its lock while it calls plugin code and services, which are functions on its state there.
--
-- Text: the ASCII case folding and substring search of host/src/plugin_manager.cpp, and the decimal
--   conversions std::to_string and std::from_chars as the C++ standard describes them. A C string is
--   the list of its bytes without the final zero, and a null pointer is `none`.
-- Manifest: host/src/plugin_manifest_validation.cpp (ValidMetadataText, ValidPluginName,
--   ParseSemanticVersion, ValidatePluginManifest) and DependencyVersionMatches of the plugin manager.
-- ServiceName: CanonicalServiceName of host/src/service_name_validation.cpp.
-- Players: PlayerRegistry of host/src/player_registry.cpp, one function per method. A method that
--   writes an output parameter returns what it writes.
-- Plugins: the records and tables of host/src/host.h, and the lookups of the plugin manager.
--   Plugins/Select has SelectPlugin and the display index, Plugins/Depend has DependenciesReady and
--   HasRunningDependent, with the answer of the factory service as a parameter.
--   Plugins/Environment is what the plugin manager calls: the code of plugins and the layers that keep
--   resources for plugins, each a function on the host, since the manager lets go of its lock while it
--   calls them. Plugins/Transitions has PausePlugin, ResumePlugin and the preparation callbacks of
--   host/src/host.cpp, Plugins/Unloading has UnloadPluginCommand, and Plugins/Starting has StartPlugin
--   and StartDiscoveredPlugins, whose endless loop runs on as much fuel as there are discovered plugins,
--   plus one: every round but the last ends the start of one plugin at least.
--   Every call may change the host, and may pause and resume any plugin through KeelPluginsApi. What is
--   relied on is said once, in Plugins/Respects: a call that begins with every running plugin on running
--   dependencies ends so, and lets alone a plugin that is in a transition or still loads, as the plugin
--   manager refuses to touch such a plugin.
--   The proofs: Waiting, Termination, Reentry and Rounds for the end of that loop; Fields, Writes, Marks and Sound for what a
--   write to one record does to the dependencies of others; Respects and Calls for the steps of an
--   operation; Suspension for pausing and resuming; Startup and Discovery for starting; Removal and Departure for
--   unloading.
-- Lifecycle: LifecycleService of host/src/lifecycle_service.cpp. The stack of callbacks of the calling
--   thread is an argument, the game adapter a record of its answers, and a plugin's callback a function
--   that may change the service as plugin code may.
-- Vtable: SharedVtableHook and InstanceVtable of hooking/src/vtable.cpp, with the memory's answers as
--   arguments. The object's page may close between two looks at it in one call; the entries of the
--   object's own table are taken as fixed, and nobody else writes the object's table pointer.
-- Fingerprint: platform/src/file_fingerprint.cpp. A file is the chunks that its stream delivers. The
--   digits in base sixteen are written on as much fuel as the number itself, plus one, as those in base
--   ten are.
-- PlayerService: the requests of host/src/player_service.cpp over Players and the plugins of Plugins. What
--   the game adapter answers for each slot is a parameter.
-- Services: PublishedServiceRegistry of host/src/published_service_registry.cpp, one function per method.
-- Common: shared lists, integers, result codes.
--
-- Numbers are natural numbers; a 32-bit or 64-bit counter wraps where it is increased (`% 2 ^ 64`
-- written out), and a signed slot is an integer. Loops are structural recursion on the list that the
-- source walks, or on a bound that the source has: the name loops stop at the capacity of the buffer,
-- and the digits of a number are written on as much fuel as the number itself, plus one, which is
-- more than it has digits.
--
-- Not modelled: allocation failures, locks and the waiting on them, log output, the file system, the
-- dynamic loader and the engine's interfaces, which only move data between the parts above and the
-- game; the modules of games/cs2; the vendored code under third_party.
pub mod Common
pub mod Text
pub mod Manifest
pub mod ServiceName
pub mod Players
pub mod Plugins
pub mod PlayerService
pub mod Services
pub mod Vtable
pub mod Fingerprint
pub mod Lifecycle
