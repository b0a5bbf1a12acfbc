-- ===== src/Services/Invariant.antt =====
-- What holds of the registry of host/src/published_service_registry.cpp after any calls: its two maps
-- agree, so that no lookup throws, and no two publications share a handle or a key.
use mathlib.Core.Path.{subst₂}
use keel_s.Common.{
  ℕ, ◌+◌, ◌%◌, ◌<◌, ◌==◌, ◌≡◌, ◌≢◌, ◌⊎◌, refl, sym, ap, ◌∙◌, subst, Bool, false, not, List, [], ◌∷◌,
  ◌++◌, some, find, filter, is_some, arith, inl, inr, u64_mod,
}
use keel_s.Plugins.{Host}
use keel_s.Services.{
  Publication, Registry, new_registry, find_key, find_publication, add_publication,
  remove_publication, shutdown, write_consumers, erase_consumer, insert_consumer, drop_leases,
  drop_published, key_is,
}
use keel_s.Services.Calls.{
  Call, caller, step, run, Change, nothing, adds, removes, releases, leases, drops, step-Change,
}
use keel_s.Services.Tables.{
  found_handle, keys_of, key_of, has_key, clashes, Apart, find-keys_of, filter-keys_of,
  Apart-filter, Apart-snoc, Apart-write, keys_of-write, keys_of-append, keys_of-drop, Apart-drop,
}
use keel_s.Services.Coherence.{drop_all}

-- Every handle was given out before, and is not null.
abbrev pub Issued : ℕ → List Publication → Type 0
Issued next [] = Unit
Issued next (p ∷ ps) = (p.handle ≢ 0) × ((next ≡ 0) ⊎ (p.handle < next)) × Issued next ps

pub record Inv (r : Registry) : Type 0 where
  pub keys : r.publications_by_key ≡ keys_of r.publications
  pub apart : Apart r.publications
  pub issued : Issued r.next_publication r.publications
  pub counter : r.next_publication < u64_mod

new-Inv : Inv new_registry
new-Inv = record { keys = refl; apart = tt; issued = tt; counter = omega arith }

Issued-filter :
    (next : ℕ) (f : Publication → Bool) (ps : List Publication)
    → Issued next ps
    → Issued next (filter f ps)
Issued-filter next f [] h = tt
Issued-filter next f (p ∷ ps) (n, b, rest) = ground (arith, Issued-filter next f ps rest)

Issued-write :
    (next h : ℕ) (f : List ℕ → List ℕ) (ps : List Publication)
    → Issued next ps
    → Issued next (write_consumers h f ps)
Issued-write next h f [] i = tt
Issued-write next h f (p ∷ ps) (n, b, rest) = ground (arith, Issued-write next h f ps rest)

Issued-drop : (next c : ℕ) (ps : List Publication) → Issued next ps → Issued next (drop_leases c ps)
Issued-drop next c [] i = tt
Issued-drop next c (p ∷ ps) (n, b, rest) = (n, b, Issued-drop next c ps rest)

Issued-snoc :
    (next : ℕ) (p : Publication) (ps : List Publication)
    → next < u64_mod
    → next ≢ 0
    → p.handle ≡ next
    → Issued next ps
    → Issued ((next + 1) % u64_mod) (ps ++ p ∷ [])
Issued-snoc next p [] c n e i = (ground arith, ground arith, tt)
Issued-snoc next p (q ∷ ps) c n e (m, b, rest) = (m, ground arith, Issued-snoc next p ps c n e rest)

fresh_clashes :
    (next : ℕ) (p : Publication) (ps : List Publication)
    → next ≢ 0
    → p.handle ≡ next
    → Issued next ps
    → is_some (find (has_key p.name p.version) ps) ≡ false
    → clashes p ps ≡ false
fresh_clashes next p [] n e i h = refl
fresh_clashes next p (q ∷ ps) n e (m, b, rest) h = ground (arith, fresh_clashes next p ps n e rest)

add-Inv :
    (r : Registry) (p : Publication)
    → Inv r
    → p.handle ≡ r.next_publication
    → r.next_publication ≢ 0
    → is_some (find_key r p.name p.version) ≡ false
    → Inv (add_publication r p)
add-Inv r p v e n h = record {
  keys = ap (λ k. k ++ key_of p ∷ []) v.keys ∙ sym (keys_of-append r.publications (p ∷ []));
  apart = Apart-snoc r.publications p v.apart (
      fresh_clashes r.next_publication p r.publications n e v.issued (
        sym (find-keys_of p.name p.version r.publications)
        ∙ ap (λ k. is_some (find (key_is p.name p.version) k)) (sym v.keys)
        ∙ h));
  issued = Issued-snoc r.next_publication p r.publications v.counter n e v.issued;
  counter = ground arith;
}

write-Inv :
    (r : Registry) (h : ℕ) (f : List ℕ → List ℕ)
    → Inv r
    → Inv (record r { publications = write_consumers h f r.publications })
write-Inv r h f v = record {
  keys = v.keys ∙ sym (keys_of-write h f r.publications);
  apart = Apart-write h f r.publications v.apart;
  issued = Issued-write r.next_publication h f r.publications v.issued;
  counter = v.counter;
}

remove-Inv :
    (r : Registry) (h : ℕ) (p : Publication)
    → Inv r
    → find_publication r h ≡ some p
    → Inv (remove_publication r p)
remove-Inv r h p v f = record {
  keys =
      ap (filter (λ k. not (key_is p.name p.version k))) v.keys
      ∙ filter-keys_of p r.publications v.apart (
          subst (λ n. find (λ q. q.handle == n) r.publications ≡ some p)
            (sym (found_handle h r.publications p f)) f);
  apart = Apart-filter (λ q. not (q.handle == p.handle)) r.publications v.apart;
  issued = Issued-filter r.next_publication _ r.publications v.issued;
  counter = v.counter;
}

drop-Inv :
    (r : Registry) (plugin : ℕ)
    → Inv r
    → Inv (
        drop_published plugin
          (drop_leases plugin r.publications)
          (record r { publications = drop_leases plugin r.publications }))
drop-Inv r plugin v =
    let ps = drop_leases plugin r.publications in
    let apart = Apart-drop plugin r.publications v.apart in
    let (left, keys, next, down) =
      drop_all plugin (record r { publications = ps }) apart
        (v.keys ∙ sym (keys_of-drop plugin r.publications)) in
    record {
      keys = keys;
      apart = subst Apart (sym left) (Apart-filter _ ps apart);
      issued = subst₂ Issued (sym next) (sym left) (
          Issued-filter r.next_publication _ ps
            (Issued-drop r.next_publication plugin r.publications v.issued));
      counter = subst (λ n. n < u64_mod) (sym next) v.counter;
    }

shutdown-Inv : (r : Registry) → Inv r → Inv (shutdown r)
unfolding shutdown
shutdown-Inv r v = record { keys = refl; apart = tt; issued = tt; counter = v.counter }

Change-Inv : (plugin : ℕ) (r r' : Registry) → Change plugin r r' → Inv r → Inv r'
Change-Inv plugin r r' (nothing e) v = subst Inv (sym e) v
Change-Inv plugin r r' (adds p own handle room free consumers e) v =
    subst Inv (sym e) (add-Inv r p v handle room free)
Change-Inv plugin r r' (removes h p found empty e) v = subst Inv (sym e) (remove-Inv r h p v found)
Change-Inv plugin r r' (releases h e) v =
    subst Inv (sym e) (write-Inv r h (erase_consumer plugin) v)
Change-Inv plugin r r' (leases h p found other e) v =
    subst Inv (sym e) (write-Inv r h (insert_consumer plugin) v)
Change-Inv plugin r r' (drops free e) v = subst Inv (sym e) (drop-Inv r plugin v)

pub step-Inv : (host : Host) (r : Registry) (c : Call) → Inv r → Inv (step host r c)
unfolding step
step-Inv host r c v = elim (step-Change host r c) [
  | inl e ↦ subst (λ x. Inv (step host r x)) (sym e) (shutdown-Inv r v)
  | inr change ↦ Change-Inv (caller c) r (step host r c) change v
]

run-Inv : (r : Registry) (calls : List (Host × Call)) → Inv r → Inv (run r calls)
unfolding run
run-Inv r [] v = v
run-Inv r ((host, c) ∷ calls) v = run-Inv (step host r c) calls (step-Inv host r c v)

-- After any calls on a new registry, whatever the host does between them, the map by key and the map
-- by handle hold the same publications, no two of them share a handle or a key, and every handle was
-- given out and is not null.
pub run_new-Inv : (calls : List (Host × Call)) → Inv (run new_registry calls)
run_new-Inv calls = run-Inv new_registry calls new-Inv
