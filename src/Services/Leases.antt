-- ===== src/Services/Leases.antt =====
-- The lease on a published service of host/src/published_service_registry.cpp: while a plugin holds
-- one, the service stays published, whatever any other plugin does.
use keel_s.Common.{
  ℕ, ◌==◌, ◌≡◌, ◌≢◌, refl, sym, ap, ◌∙◌, subst, Bool, true, false, ◌&&◌, not, List, [], ◌∷◌, ◌++◌,
  some, find, filter, any, is_empty, arith, Bool-cases, inl, inr,
}
use keel_s.Plugins.{Host}
use keel_s.Services.{
  Publication, Registry, write_consumers, erase_consumer, insert_consumer, member, drop_leases,
}
use keel_s.Services.Tables.{found_handle, Apart, clashes, keys_of-drop, Apart-drop}
use keel_s.Services.Coherence.{drop_all}
use keel_s.Services.Calls.{
  Call, shuts, caller, step, run, Change, nothing, adds, removes, releases, leases, drops,
  step-Change,
}
use keel_s.Services.Invariant.{Inv, step-Inv}

-- The plugin holds a lease on the publication with the handle.
abbrev pub holds : ℕ → ℕ → Publication → Bool
holds h c p = p.handle == h && member c p.consumers

abbrev pub leased : Registry → ℕ → ℕ → Bool
leased r h c = any (holds h c) r.publications

member-erase :
    (c d : ℕ) (xs : List ℕ) → d ≢ c → member c xs ≡ true → member c (erase_consumer d xs) ≡ true
member-erase c d [] n h = h
member-erase c d (x ∷ xs) n h = ground (arith, member-erase c d xs n)

member-insert :
    (c d : ℕ) (xs : List ℕ) → member c xs ≡ true → member c (insert_consumer d xs) ≡ true
member-insert c d xs h = ground arith

any-append :
    (f : Publication → Bool) (ps qs : List Publication) → any f ps ≡ true → any f (ps ++ qs) ≡ true
any-append f [] qs h = absurd (ground arith)
any-append f (p ∷ ps) qs h = ground (arith, any-append f ps qs)

-- A change of the consumers that keeps `c` keeps its lease.
any-write :
    (h c at : ℕ) (f : List ℕ → List ℕ) (ps : List Publication)
    → ((xs : List ℕ) → member c xs ≡ true → member c (f xs) ≡ true)
    → any (holds h c) ps ≡ true
    → any (holds h c) (write_consumers at f ps) ≡ true
any-write h c at f [] k a = a
any-write h c at f (p ∷ ps) k a = ground (arith, k p.consumers, any-write h c at f ps k)

any-drop :
    (h c d : ℕ) (ps : List Publication)
    → d ≢ c
    → any (holds h c) ps ≡ true
    → any (holds h c) (drop_leases d ps) ≡ true
any-drop h c d [] n a = a
any-drop h c d (p ∷ ps) n a = ground (arith, member-erase c d p.consumers n, any-drop h c d ps n)

any_unclashed :
    (f : Publication → Bool) (p : Publication) (ps : List Publication)
    → clashes p ps ≡ false
    → any f ps ≡ true
    → any f (filter (λ q. not (q.handle == p.handle)) ps) ≡ true
any_unclashed f p [] a k = k
any_unclashed f p (q ∷ ps) a k = ground (arith, any_unclashed f p ps)

erase_empty : (c d : ℕ) (xs : List ℕ) → is_empty xs ≡ true → member c (erase_consumer d xs) ≡ false
erase_empty c d [] h = refl
erase_empty c d (x ∷ xs) h = ground arith

-- Erasing an unused publication takes no lease.
any-remove :
    (h c : ℕ) (p : Publication) (ps : List Publication)
    → Apart ps
    → find (λ q. q.handle == p.handle) ps ≡ some p
    → p.consumers ≡ []
    → any (holds h c) ps ≡ true
    → any (holds h c) (filter (λ q. not (q.handle == p.handle)) ps) ≡ true
any-remove h c p [] a f e k = k
any-remove h c p (q ∷ ps) a f e k = elim (Bool-cases (q.handle == p.handle)) [
  | inl here ↦
      let same : q ≡ p = ground arith in
      let apart : clashes p ps ≡ false = ap (λ x. clashes x ps) (sym same) ∙ a.0 in
      ground (arith, any_unclashed (holds h c) p ps apart)
  | inr later ↦ ground (arith, any-remove h c p ps a.1)
]

-- Erasing the publications of a plugin that nobody leases takes no lease.
any-depart :
    (h c plugin : ℕ) (ps : List Publication)
    → any (λ p. p.provider == plugin && not (is_empty p.consumers)) ps ≡ false
    → any (holds h c) (drop_leases plugin ps) ≡ true
    → any (holds h c) (filter (λ q. not (q.provider == plugin)) (drop_leases plugin ps)) ≡ true
any-depart h c plugin [] free k = k
any-depart h c plugin (p ∷ ps) free k =
    ground (arith, any-depart h c plugin ps, erase_empty c plugin p.consumers)

Change-leased :
    (plugin : ℕ) (r r' : Registry) (h c : ℕ)
    → Change plugin r r'
    → Inv r
    → plugin ≢ c
    → leased r h c ≡ true
    → leased r' h c ≡ true
Change-leased plugin r r' h c (nothing e) v n k = ap (λ x. leased x h c) e ∙ k
Change-leased plugin r r' h c (adds p own handle room free consumers e) v n k =
    ap (λ x. leased x h c) e ∙ any-append (holds h c) r.publications (p ∷ []) k
Change-leased plugin r r' h c (removes at p found empty e) v n k =
    ap (λ x. leased x h c) e
    ∙ any-remove h c p r.publications v.apart
        (subst (λ n. find (λ q. q.handle == n) r.publications ≡ some p)
          (sym (found_handle at r.publications p found)) found)
        empty k
Change-leased plugin r r' h c (releases at e) v n k =
    ap (λ x. leased x h c) e
    ∙ any-write h c at (erase_consumer plugin) r.publications (λ xs. member-erase c plugin xs n) k
Change-leased plugin r r' h c (leases at p found other e) v n k =
    ap (λ x. leased x h c) e
    ∙ any-write h c at (insert_consumer plugin) r.publications (member-insert c plugin) k
Change-leased plugin r r' h c (drops free e) v n k =
    let ps = drop_leases plugin r.publications in
    let apart = Apart-drop plugin r.publications v.apart in
    let (left, keys, next, down) =
      drop_all plugin (record r { publications = ps }) apart
        (v.keys ∙ sym (keys_of-drop plugin r.publications)) in
    ap (λ x. leased x h c) e
    ∙ ap (any (holds h c)) left
    ∙ any-depart h c plugin r.publications free (any-drop h c plugin r.publications n k)

step-leased :
    (host : Host) (r : Registry) (call : Call) (h c : ℕ)
    → Inv r
    → caller call ≢ c
    → call ≢ shuts
    → leased r h c ≡ true
    → leased (step host r call) h c ≡ true
step-leased host r call h c v n up k = elim (step-Change host r call) [
  | inl e ↦ absurd (up e)
  | inr change ↦ Change-leased (caller call) r (step host r call) h c change v n k
]

-- The calls of other plugins, with no shutdown among them.
abbrev pub OfOthers : ℕ → List (Host × Call) → Type 0
OfOthers c [] = Unit
OfOthers c ((host, call) ∷ calls) = (caller call ≢ c) × (call ≢ shuts) × OfOthers c calls

-- A plugin that holds a lease on a publication still holds it after any calls of other plugins, the
-- provider among them, and whatever becomes of the host between the calls: only the plugin itself and
-- the shutdown end a lease.
pub run-leased :
    (r : Registry) (calls : List (Host × Call)) (h c : ℕ)
    → Inv r
    → OfOthers c calls
    → leased r h c ≡ true
    → leased (run r calls) h c ≡ true
unfolding run
run-leased r [] h c v others k = k
run-leased r ((host, call) ∷ calls) h c v (n, up, others) k =
    run-leased (step host r call) calls h c (step-Inv host r call v) others
      (step-leased host r call h c v n up k)
