-- ===== src/Services.antt =====
-- host/src/published_service_registry.h and .cpp: the services that plugins publish for one another,
-- and who holds a lease on each. The data is that of sdk/include/keels2/services.h.
-- The two maps are lists in the order of insertion; a lookup that throws is KEEL_RESULT_ENGINE_FAILURE,
-- which is what the entry points make of it. Each operation runs under the host's lock, so it is one
-- step. A service pointer is a number, and null is 0.
pub mod Tables
pub mod Coherence
pub mod Calls
pub mod Invariant
pub mod Leases
pub mod Answers
mod Checks
use keel_s.Common.{
  ℕ, ◌+◌, ◌%◌, ◌==◌, Bool, true, false, ◌&&◌, ◌||◌, not, List, [], ◌∷◌, ◌++◌, Option, none, some,
  map, find, filter, any, is_empty, is_some, if◌then◌else◌, u64_mod, KeelResult, ok,
  invalid_argument, not_ready, not_found, already_exists, engine_failure, incompatible, busy,
}
use keel_s.Text.{Bytes}
use keel_s.ServiceName.{canonical_service_name}
use keel_s.Plugins.{Host, Plugin, plugin_by_handle, is_loaded}

-- `==` of two std::string.
unfoldable pub text_eq : Bytes → Bytes → Bool
text_eq [] [] = true
text_eq [] (b ∷ right) = false
text_eq (a ∷ left) [] = false
text_eq (a ∷ left) (b ∷ right) = a == b && text_eq left right

pub record Publication : Type 0 where
  pub handle : ℕ
  pub provider : ℕ
  pub name : Bytes
  pub version : ℕ
  pub service : ℕ
  pub consumers : List ℕ

-- An entry of publications_by_key_.
pub record KeyEntry : Type 0 where
  pub name : Bytes
  pub version : ℕ
  pub handle : ℕ

pub record Registry : Type 0 where
  pub next_publication : ℕ
  pub shutting_down : Bool
  pub publications : List Publication
  pub publications_by_key : List KeyEntry

-- KeelServiceSpec.
pub record ServiceSpec : Type 0 where
  pub size : ℕ
  pub version : ℕ
  pub name : Option Bytes
  pub service : ℕ

abbrev pub sizeof_spec : ℕ
sizeof_spec = 24

-- A new registry.
abbrev pub new_registry : Registry
new_registry = record {
  next_publication = 1;
  shutting_down = false;
  publications = [];
  publications_by_key = [];
}

abbrev pub key_is : Bytes → ℕ → KeyEntry → Bool
key_is name version k = text_eq k.name name && k.version == version

-- `publications_by_key_.find(Key{name, version})`.
abbrev pub find_key : Registry → Bytes → ℕ → Option KeyEntry
find_key r name version = find (key_is name version) r.publications_by_key

-- `publications_.find(handle)`.
abbrev pub find_publication : Registry → ℕ → Option Publication
find_publication r handle = find (λ p. p.handle == handle) r.publications

-- The set of consumers.
abbrev pub member : ℕ → List ℕ → Bool
member c consumers = any (λ d. d == c) consumers

abbrev pub insert_consumer : ℕ → List ℕ → List ℕ
insert_consumer c consumers = if member c consumers then consumers else c ∷ consumers

abbrev pub erase_consumer : ℕ → List ℕ → List ℕ
erase_consumer c consumers = filter (λ d. not (d == c)) consumers

-- A write through a reference to the publication with the handle.
abbrev pub write_consumers : ℕ → (List ℕ → List ℕ) → List Publication → List Publication
write_consumers handle f [] = []
write_consumers handle f (p ∷ publications) =
    (if p.handle == handle then record p { consumers = f p.consumers } else p)
    ∷ write_consumers handle f publications

-- The tests of Withdraw and Release on the calling plugin.
abbrev pub may_release : Option Plugin → Bool
may_release none = false
may_release (some owner) =
    owner.accepting_resources || owner.prepare_unload_active || owner.prepare_pause_active

abbrev pub accepts : Option Plugin → Bool
accepts none = false
accepts (some owner) = owner.accepting_resources

-- The publication and its key entry are added together.
abbrev pub add_publication : Registry → Publication → Registry
add_publication r p = record r {
  next_publication = (r.next_publication + 1) % u64_mod;
  publications_by_key =
      r.publications_by_key
      ++ (record { name = p.name; version = p.version; handle = p.handle }) ∷ [];
  publications = r.publications ++ p ∷ [];
}

-- Publish. The third part is what is written to `*output`.
unfoldable pub publish :
    Host → Registry → ℕ → Option ServiceSpec → Bool → KeelResult × Registry × Option ℕ
publish host r plugin none output = (invalid_argument, r, none)
publish host r plugin (some spec) output =
    let (canonical, name) = canonical_service_name spec.name in
    let publication : Publication = record {
      handle = r.next_publication;
      provider = plugin;
      name = name;
      version = spec.version;
      service = spec.service;
      consumers = [];
    } in
    if not output
    then (invalid_argument, r, none)
    else if not (spec.size == sizeof_spec)
        || spec.version == 0
        || spec.service == 0
        || not canonical
    then (invalid_argument, r, some 0)
    else if r.shutting_down
        || not host.accepting_resources
        || not (accepts (plugin_by_handle host plugin))
        || r.next_publication == 0
    then (not_ready, r, some 0)
    else if is_some (find_key r name spec.version)
    then (already_exists, r, some 0)
    else (ok, add_publication r publication, some r.next_publication)

-- Erases the publication and its key entry.
abbrev pub remove_publication : Registry → Publication → Registry
remove_publication r p = record r {
  publications_by_key = filter (λ k. not (key_is p.name p.version k)) r.publications_by_key;
  publications = filter (λ q. not (q.handle == p.handle)) r.publications;
}

unfoldable pub withdraw : Host → Registry → ℕ → ℕ → KeelResult × Registry
withdraw host r plugin publication =
    if publication == 0
    then (invalid_argument, r)
    else if not (may_release (plugin_by_handle host plugin))
    then (not_ready, r)
    else elim (find_publication r publication) [
      | none ↦ (not_found, r)
      | some p ↦
          if not (p.provider == plugin)
          then (not_found, r)
          else if not (is_empty p.consumers)
          then (busy, r)
          else (ok, remove_publication r p)
    ]

-- What Release does with the publication that it finds.
abbrev pub release_lease : Registry → ℕ → Option Publication → KeelResult × Registry
release_lease r plugin none = (engine_failure, r)
release_lease r plugin (some p) = (
  if member plugin p.consumers then ok else not_found,
  record r { publications = write_consumers p.handle (erase_consumer plugin) r.publications },
)

unfoldable pub release : Host → Registry → ℕ → Option Bytes → ℕ → KeelResult × Registry
release host r plugin requested version =
    let (canonical, name) = canonical_service_name requested in
    if version == 0 || not canonical
    then (invalid_argument, r)
    else if not (may_release (plugin_by_handle host plugin))
    then (not_ready, r)
    else elim (find_key r name version) [
      | none ↦ (not_found, r)
      | some key ↦ release_lease r plugin (find_publication r key.handle)
    ]

-- `!provider || provider->state != PluginState::loaded || provider->transitioning`, negated.
abbrev pub provider_ready : Option Plugin → Bool
provider_ready none = false
provider_ready (some provider) = is_loaded provider.state && not provider.transitioning

-- What Query does with the publication that it finds.
abbrev pub query_publication :
    Host → Registry → ℕ → Option Publication → KeelResult × Registry × Option ℕ
query_publication host r consumer none = (engine_failure, r, some 0)
query_publication host r consumer (some p) =
    if p.provider == consumer
    then (ok, r, some p.service)
    else if not (provider_ready (plugin_by_handle host p.provider))
    then (not_ready, r, some 0)
    else (
      ok,
      record r {
        publications = write_consumers p.handle (insert_consumer consumer) r.publications;
      },
      some p.service,
    )

-- Query. The third part is what is written to `*service`; `wanted` is whether the pointer is not null.
unfoldable pub query :
    Host → Registry → ℕ → Option Bytes → ℕ → Bool → KeelResult × Registry × Option ℕ
query host r consumer requested version wanted =
    let (canonical, name) = canonical_service_name requested in
    if not wanted || version == 0 || not canonical
    then (invalid_argument, r, none)
    else elim (find_key r name version) [
      | none ↦ (
        if any (λ p. text_eq p.name name) r.publications then incompatible else not_found,
        r,
        some 0,
      )
      | some key ↦ query_publication host r consumer (find_publication r key.handle)
    ]

-- HasLeasedPublication, without the name that it reports.
unfoldable pub has_leased_publication : Registry → ℕ → Bool
has_leased_publication r provider =
    any (λ p. p.provider == provider && not (is_empty p.consumers)) r.publications

-- The second loop of ReleasePlugin.
abbrev pub drop_leases : ℕ → List Publication → List Publication
drop_leases plugin =
    map {A = Publication} (λ p. record p { consumers = erase_consumer plugin p.consumers })

-- The third loop: each publication of the plugin goes, with its key.
abbrev pub drop_published : ℕ → List Publication → Registry → Registry
drop_published plugin [] r = r
drop_published plugin (p ∷ publications) r =
    drop_published plugin publications (if p.provider == plugin then remove_publication r p else r)

unfoldable pub release_plugin : Registry → ℕ → KeelResult × Registry
release_plugin r plugin =
    let dropped : Registry = record r { publications = drop_leases plugin r.publications } in
    if any (λ p. p.provider == plugin && not (is_empty p.consumers)) r.publications
    then (busy, r)
    else (ok, drop_published plugin dropped.publications dropped)

unfoldable pub shutdown : Registry → Registry
shutdown r = record r { shutting_down = true; publications_by_key = []; publications = [] }
