-- ===== src/Services/Calls.antt =====
-- The calls on the registry of host/src/published_service_registry.cpp, and the one change that each
-- of them may make.
use keel_s.Common.{
  ◌⊎◌, ap, subst, ok, ℕ, ◌==◌, ◌≡◌, ◌≢◌, refl, sym, Bool, true, false, ◌&&◌, ◌||◌, not, List, [],
  ◌∷◌, Option, none, some, any, is_some, is_empty, arith, Bool-cases, Option-cases, inl, inr,
}
use keel_s.Text.{Bytes}
use keel_s.ServiceName.{canonical_service_name}
use keel_s.Plugins.{Host, plugin_by_handle}
use keel_s.Services.Tables.{found_handle}
use keel_s.Services.{
  Publication, Registry, ServiceSpec, find_key, find_publication, accepts, add_publication, publish,
  remove_publication, withdraw, release, release_lease, query, query_publication, release_plugin,
  shutdown, write_consumers, erase_consumer, insert_consumer, may_release, drop_leases,
  drop_published, provider_ready, sizeof_spec,
}

-- A call, with the plugin that makes it; Shutdown is the host's.
pub data Call : Type 0 where
  publishes : ℕ → Option ServiceSpec → Bool → Call
  withdraws : ℕ → ℕ → Call
  returns : ℕ → Option Bytes → ℕ → Call
  queries : ℕ → Option Bytes → ℕ → Bool → Call
  departs : ℕ → Call
  shuts : Call

abbrev pub caller : Call → ℕ
caller (publishes plugin spec output) = plugin
caller (withdraws plugin handle) = plugin
caller (returns plugin name version) = plugin
caller (queries plugin name version wanted) = plugin
caller (departs plugin) = plugin
caller shuts = 0

unfoldable pub step : Host → Registry → Call → Registry
step host r (publishes plugin spec output) = (publish host r plugin spec output).1
step host r (withdraws plugin handle) = (withdraw host r plugin handle).1
step host r (returns plugin name version) = (release host r plugin name version).1
step host r (queries plugin name version wanted) = (query host r plugin name version wanted).1
step host r (departs plugin) = (release_plugin r plugin).1
step host r shuts = shutdown r

-- The host may be another one at each call.
unfoldable pub run : Registry → List (Host × Call) → Registry
run r [] = r
run r ((host, c) ∷ calls) = run (step host r c) calls

-- A change that the plugin makes.
pub data Change (plugin : ℕ) (r r' : Registry) : Type 0 where
  nothing : r' ≡ r → Change plugin r r'
  adds :
      (p : Publication)
      → p.provider ≡ plugin
      → p.handle ≡ r.next_publication
      → r.next_publication ≢ 0
      → is_some (find_key r p.name p.version) ≡ false
      → p.consumers ≡ []
      → r' ≡ add_publication r p
      → Change plugin r r'
  removes :
      (h : ℕ) (p : Publication)
      → find_publication r h ≡ some p
      → p.consumers ≡ []
      → r' ≡ remove_publication r p
      → Change plugin r r'
  releases :
      (h : ℕ)
      → r' ≡ record r { publications = write_consumers h (erase_consumer plugin) r.publications }
      → Change plugin r r'
  leases :
      (h : ℕ) (p : Publication)
      → find_publication r h ≡ some p
      → p.provider ≢ plugin
      → r' ≡ record r { publications = write_consumers h (insert_consumer plugin) r.publications }
      → Change plugin r r'
  drops :
      any (λ p. p.provider == plugin && not (is_empty p.consumers)) r.publications ≡ false
      → r'
        ≡ drop_published plugin
            (drop_leases plugin r.publications)
            (record r { publications = drop_leases plugin r.publications })
      → Change plugin r r'

release_plugin-Change : (r : Registry) (plugin : ℕ) → Change plugin r (release_plugin r plugin).1
unfolding release_plugin
release_plugin-Change r plugin =
    elim (Bool-cases
      (any (λ p. p.provider == plugin && not (is_empty p.consumers)) r.publications)) [
        | inl leased ↦ nothing (rw leased)
        | inr free ↦ drops free (rw free)
      ]

empty_nil : (xs : List ℕ) → is_empty xs ≡ true → xs ≡ []
empty_nil [] h = refl
empty_nil (x ∷ xs) h = ground arith

withdraw-Change :
    (host : Host) (r : Registry) (plugin handle : ℕ)
    → Change plugin r (withdraw host r plugin handle).1
unfolding withdraw
withdraw-Change host r plugin handle = elim (Option-cases (find_publication r handle)) [
  | inl missing ↦ nothing (ground arith)
  | inr (p, found) ↦
      elim (Bool-cases (
        not (handle == 0)
        && may_release (plugin_by_handle host plugin)
        && p.provider == plugin
        && is_empty p.consumers)) [
          | inl goes ↦ removes handle p found (empty_nil p.consumers (ground arith)) (ground arith)
          | inr stays ↦ nothing (ground arith)
        ]
]

release_lease-Change :
    (r : Registry) (plugin : ℕ) (found : Option Publication)
    → Change plugin r (release_lease r plugin found).1
release_lease-Change r plugin none = nothing refl
release_lease-Change r plugin (some p) = releases p.handle refl

release-Change :
    (host : Host) (r : Registry) (plugin : ℕ) (requested : Option Bytes) (version : ℕ)
    → Change plugin r (release host r plugin requested version).1
unfolding release
release-Change host r plugin requested version =
    let name = (canonical_service_name requested).1 in
    elim (Bool-cases (
      version == 0
      || not (canonical_service_name requested).0
      || not (may_release (plugin_by_handle host plugin)))) [
        | inl refused ↦ nothing (ground arith)
        | inr allowed ↦ elim (Option-cases (find_key r name version)) [
          | inl missing ↦ nothing (ground arith)
          | inr (key, found) ↦
              let e : (release host r plugin requested version)
                  ≡ release_lease r plugin (find_publication r key.handle) =
                ground arith in
              subst (λ x. Change plugin r x.1) (sym e)
                (release_lease-Change r plugin (find_publication r key.handle))
        ]
      ]

query_publication-Change :
    (host : Host) (r : Registry) (consumer h : ℕ) (found : Option Publication)
    → find_publication r h ≡ found
    → Change consumer r (query_publication host r consumer found).1
query_publication-Change host r consumer h none e = nothing refl
query_publication-Change host r consumer h (some p) e = elim (Bool-cases (p.provider == consumer)) [
  | inl own ↦ nothing (rw own)
  | inr other ↦ elim (Bool-cases (provider_ready (plugin_by_handle host p.provider))) [
    | inr wait ↦ nothing (rw (other, wait))
    | inl ready ↦
        leases p.handle p
          (subst (λ n. find_publication r n ≡ some p) (sym (found_handle h r.publications p e)) e)
          (ground arith) (rw (other, ready))
  ]
]

query-Change :
    (host : Host) (r : Registry) (consumer : ℕ) (requested : Option Bytes) (version : ℕ)
    (wanted : Bool)
    → Change consumer r (query host r consumer requested version wanted).1
unfolding query
query-Change host r consumer requested version wanted =
    let name = (canonical_service_name requested).1 in
    elim (Bool-cases (not wanted || version == 0 || not (canonical_service_name requested).0)) [
      | inl refused ↦ nothing (ground arith)
      | inr allowed ↦ elim (Option-cases (find_key r name version)) [
        | inl missing ↦ nothing (ground arith)
        | inr (key, found) ↦
            let e : (query host r consumer requested version wanted)
                ≡ query_publication host r consumer (find_publication r key.handle) =
              ground arith in
            subst (λ x. Change consumer r x.1) (sym e)
              (query_publication-Change host r consumer key.handle (find_publication r key.handle)
                refl)
      ]
    ]

-- The publication that Publish makes.
abbrev pub publication_of : Registry → ℕ → ServiceSpec → Publication
publication_of r plugin spec = record {
  handle = r.next_publication;
  provider = plugin;
  name = (canonical_service_name spec.name).1;
  version = spec.version;
  service = spec.service;
  consumers = [];
}

-- When Publish adds it.
abbrev pub may_publish : Host → Registry → ℕ → ServiceSpec → Bool → Bool
may_publish host r plugin spec output =
    output
    && spec.size == sizeof_spec
    && not (spec.version == 0)
    && not (spec.service == 0)
    && (canonical_service_name spec.name).0
    && not r.shutting_down
    && host.accepting_resources
    && accepts (plugin_by_handle host plugin)
    && not (r.next_publication == 0)
    && not (is_some (find_key r (canonical_service_name spec.name).1 spec.version))

pub publish_runs :
    (host : Host) (r : Registry) (plugin : ℕ) (spec : ServiceSpec) (output : Bool)
    → may_publish host r plugin spec output ≡ true
    → publish host r plugin (some spec) output
      ≡ (ok, add_publication r (publication_of r plugin spec), some r.next_publication)
unfolding publish
publish_runs host r plugin spec output h = ground arith

pub publish_stays :
    (host : Host) (r : Registry) (plugin : ℕ) (spec : ServiceSpec) (output : Bool)
    → may_publish host r plugin spec output ≡ false
    → ((publish host r plugin (some spec) output).1 ≡ r)
      × ((publish host r plugin (some spec) output).0 ≢ ok)
unfolding publish
publish_stays host r plugin spec output h = ground arith

publish-Change :
    (host : Host) (r : Registry) (plugin : ℕ) (spec : Option ServiceSpec) (output : Bool)
    → Change plugin r (publish host r plugin spec output).1
unfolding publish
publish-Change host r plugin none output = nothing refl
publish-Change host r plugin (some spec) output =
    elim (Bool-cases (may_publish host r plugin spec output)) [
      | inr no_way ↦ nothing (publish_stays host r plugin spec output no_way).0
      | inl way ↦
          adds (publication_of r plugin spec) refl refl (ground arith) (ground arith) refl
            (ap (λ x. x.1) (publish_runs host r plugin spec output way))
    ]

-- Every call but Shutdown makes one of the changes at most, as the plugin that calls.
pub step-Change :
    (host : Host) (r : Registry) (c : Call) → (c ≡ shuts) ⊎ Change (caller c) r (step host r c)
unfolding step
step-Change host r (publishes plugin spec output) = inr (publish-Change host r plugin spec output)
step-Change host r (withdraws plugin handle) = inr (withdraw-Change host r plugin handle)
step-Change host r (returns plugin name version) = inr (release-Change host r plugin name version)
step-Change host r (queries plugin name version wanted) =
    inr (query-Change host r plugin name version wanted)
step-Change host r (departs plugin) = inr (release_plugin-Change r plugin)
step-Change host r shuts = inl refl
