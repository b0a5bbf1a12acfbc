-- ===== src/Services/Answers.antt =====
-- What the calls of host/src/published_service_registry.cpp answer when the registry is well formed.
use keel_s.Common.{
  ℕ, ◌==◌, ◌≡◌, ◌≢◌, refl, sym, ap, ◌∙◌, subst, Bool, true, false, not, List, [], ◌∷◌, ◌++◌, Option,
  some, find, filter, any, is_some, arith, Option-cases, inl, inr, ok, engine_failure, ==_refl,
}
use keel_s.Text.{Bytes}
use keel_s.ServiceName.{canonical_service_name}
use keel_s.Plugins.{Host, plugin_by_handle}
use keel_s.Services.{
  Publication, KeyEntry, Registry, ServiceSpec, find_key, find_publication, add_publication,
  publish, release, query, query_publication, provider_ready, release_plugin, drop_leases,
  insert_consumer, write_consumers, key_is, has_leased_publication,
}
use keel_s.Services.Tables.{
  key_of, keys_of, has_key, find_by_key, text_eq_refl, Apart-drop, keys_of-drop,
}
use keel_s.Services.Coherence.{drop_all}
use keel_s.Services.Calls.{publication_of, may_publish, publish_runs}
use keel_s.Services.Invariant.{Inv, Issued}
use keel_s.Services.Leases.{leased, holds}

-- The key finds an entry, and its handle a publication.
found_by_key :
    (r : Registry) (name : Bytes) (version : ℕ) (k : KeyEntry)
    → Inv r
    → find_key r name version ≡ some k
    → (p : Publication) × (find_publication r k.handle ≡ some p) × (has_key name version p ≡ true)
found_by_key r name version k v e =
    let (p, _, found, key) =
      find_by_key name version r.publications v.apart
        (ap (find (key_is name version)) (sym v.keys) ∙ e) in
    (p, found, key)

query_publication_safe :
    (host : Host) (r : Registry) (consumer : ℕ) (p : Publication)
    → (query_publication host r consumer (some p)).0 ≢ engine_failure
query_publication_safe host r consumer p = ground arith

-- In a well-formed registry Query never meets a key without its publication, which would throw.
pub query_no_throw :
    (host : Host) (r : Registry) (consumer : ℕ) (requested : Option Bytes) (version : ℕ)
    (wanted : Bool)
    → Inv r
    → (query host r consumer requested version wanted).0 ≢ engine_failure
unfolding query
query_no_throw host r consumer requested version wanted v =
    elim (Option-cases (find_key r (canonical_service_name requested).1 version)) [
      | inl missing ↦ ground arith
      | inr (k, e) ↦
          let (p, found, _) = found_by_key r (canonical_service_name requested).1 version k v e in
          ground (arith, query_publication_safe host r consumer p)
    ]

-- In a well-formed registry Release never meets a key without its publication, which would throw.
pub release_no_throw :
    (host : Host) (r : Registry) (plugin : ℕ) (requested : Option Bytes) (version : ℕ)
    → Inv r
    → (release host r plugin requested version).0 ≢ engine_failure
unfolding release
release_no_throw host r plugin requested version v =
    elim (Option-cases (find_key r (canonical_service_name requested).1 version)) [
      | inl missing ↦ ground arith
      | inr (k, e) ↦
          let (p, found, _) = found_by_key r (canonical_service_name requested).1 version k v e in
          ground arith
    ]

find-append {ℓ} :
    {A : Type ℓ} (f : A → Bool) (xs : List A) (y : A)
    → is_some (find f xs) ≡ false
    → f y ≡ true
    → find f (xs ++ y ∷ []) ≡ some y
find-append f [] y h k = ground arith
find-append f (x ∷ xs) y h k = ground (arith, find-append f xs y)

fresh_handle :
    (next : ℕ) (ps : List Publication)
    → next ≢ 0
    → Issued next ps
    → is_some (find (λ q. q.handle == next) ps) ≡ false
fresh_handle next [] n i = refl
fresh_handle next (p ∷ ps) n (m, b, rest) = ground (arith, fresh_handle next ps n rest)

-- Both lookups find a publication that was just added.
added_found :
    (r : Registry) (p : Publication)
    → Inv r
    → p.handle ≡ r.next_publication
    → r.next_publication ≢ 0
    → is_some (find_key r p.name p.version) ≡ false
    → (find_key (add_publication r p) p.name p.version ≡ some (key_of p))
      × (find_publication (add_publication r p) p.handle ≡ some p)
added_found r p v e n h = (
  find-append (key_is p.name p.version) r.publications_by_key (key_of p) h
      (ground (arith, text_eq_refl p.name)),
  find-append (λ q. q.handle == p.handle) r.publications p
      (subst (λ x. is_some (find (λ q. q.handle == x) r.publications) ≡ false) (sym e)
        (fresh_handle r.next_publication r.publications n v.issued))
      (==_refl p.handle),
)

query_runs :
    (host : Host) (r : Registry) (consumer : ℕ) (requested : Option Bytes) (p : Publication)
    → canonical_service_name requested ≡ (true, p.name)
    → p.version ≢ 0
    → find_key r p.name p.version ≡ some (key_of p)
    → find_publication r p.handle ≡ some p
    → query host r consumer requested p.version true ≡ query_publication host r consumer (some p)
unfolding query
query_runs host r consumer requested p e n k f = ground arith

leased_write :
    (h c : ℕ) (ps : List Publication)
    → is_some (find (λ q. q.handle == h) ps) ≡ true
    → any (holds h c) (write_consumers h (insert_consumer c) ps) ≡ true
leased_write h c [] f = ground arith
leased_write h c (p ∷ ps) f = ground (arith, ==_refl c, leased_write h c ps)

lease_runs :
    (host : Host) (r : Registry) (consumer : ℕ) (p : Publication)
    → consumer ≢ p.provider
    → provider_ready (plugin_by_handle host p.provider) ≡ true
    → query_publication host r consumer (some p) ≡ (
      ok,
      record r {
        publications = write_consumers p.handle (insert_consumer consumer) r.publications;
      },
      some p.service,
    )
lease_runs host r consumer p n ready = ground arith

-- A service that was just published is found by any other plugin under its name in any spelling that
-- is canonically the same, once its provider is ready: the query hands out the published pointer and
-- leaves the plugin with a lease.
pub published_query :
    (host host' : Host) (r : Registry) (plugin consumer : ℕ) (spec : ServiceSpec)
    (requested : Option Bytes)
    → Inv r
    → may_publish host r plugin spec true ≡ true
    → canonical_service_name requested ≡ (true, (canonical_service_name spec.name).1)
    → consumer ≢ plugin
    → provider_ready (plugin_by_handle host' plugin) ≡ true
    → let published = publish host r plugin (some spec) true in
      let answer = query host' published.1 consumer requested spec.version true in
      (published.0 ≡ ok)
      × (answer.0 ≡ ok)
      × (answer.2 ≡ some spec.service)
      × (leased answer.1 r.next_publication consumer ≡ true)
published_query host host' r plugin consumer spec requested v may same other ready =
    let p = publication_of r plugin spec in
    let r' = add_publication r p in
    let (key, found) = added_found r p v refl (ground arith) (ground arith) in
    let e : query host' r' consumer requested spec.version true
        ≡ query_publication host' r' consumer (some p) =
      query_runs host' r' consumer requested p same (ground arith) key found in
    rw (publish_runs host r plugin spec true may, e ∙ lease_runs host' r' consumer p other ready)
      (
        refl,
        refl,
        refl,
        leased_write r.next_publication consumer r'.publications (ap is_some found),
      )

-- A plugin whose publications nobody leases leaves a well-formed registry for good: the publications left
-- are those of the other plugins, without its leases, the keys left are exactly theirs, and the counter
-- and the shutdown mark are as they were.
pub release_plugin_lem :
    (r : Registry) (plugin : ℕ)
    → Inv r
    → has_leased_publication r plugin ≡ false
    → ((release_plugin r plugin).0 ≡ ok)
      × ((release_plugin r plugin).1.publications
          ≡ filter (λ q. not (q.provider == plugin)) (drop_leases plugin r.publications))
      × ((release_plugin r plugin).1.publications_by_key
          ≡ keys_of (filter (λ q. not (q.provider == plugin)) (drop_leases plugin r.publications)))
      × ((release_plugin r plugin).1.next_publication ≡ r.next_publication)
      × ((release_plugin r plugin).1.shutting_down ≡ r.shutting_down)
unfolding release_plugin has_leased_publication
release_plugin_lem r plugin v free =
    let ps = drop_leases plugin r.publications in
    let (left, keys, next, down) =
      drop_all plugin (record r { publications = ps }) (Apart-drop plugin r.publications v.apart)
        (v.keys ∙ sym (keys_of-drop plugin r.publications)) in
    rw free (refl, left, keys ∙ ap keys_of left, next, down)
