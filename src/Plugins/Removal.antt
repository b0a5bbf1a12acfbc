-- ===== src/Plugins/Removal.antt =====
-- The end of UnloadPluginCommand, host/src/plugin_manager.cpp: the record of a plugin in a transition goes,
-- and what runs keeps its dependencies.
use keel_s.Common.{
  ℕ, ◌==◌, Bool, true, false, not, List, [], ◌∷◌, none, some, find, filter, all, All, if◌then◌else◌,
  ◌≡◌, ◌≢◌, ◌⊎◌, refl, sym, ap, ◌∙◌, subst, arith, Bool-cases, Option-cases, inl, inr, ==_iff,
  find-found,
}
use keel_s.Manifest.{Dependency}
use keel_s.Plugins.{Plugin, PluginState, Host, plugin_in, plugin_by_handle, remove_plugin_record}
use keel_s.Plugins.Depend.{is_ready, check_dependencies}
use keel_s.Plugins.Running.{Served, check_sound, check_complete, find-filter}
use keel_s.Plugins.Unloading.{erase_plugin, disable_record}
use keel_s.Plugins.Fields.{healthy_in, find-All}
use keel_s.Plugins.Sound.{Distinct, handles, Sound, only_record, clash}
use keel_s.Plugins.Respects.{IsHeld, Kept, Step}

abbrev pub others : ℕ → List Plugin → List Plugin
others t ps = filter (λ p. not (p.handle == t)) ps

others-away : (t : ℕ) (ps : List Plugin) → All (λ m. m ≢ t) (handles ps) → others t ps ≡ ps
others-away t [] h = refl
others-away t (p ∷ ps) (h, hs) = ground (arith, others-away t ps hs)

erase_plugin-others :
    (t : ℕ) (ps : List Plugin) → Distinct (handles ps) → erase_plugin t ps ≡ others t ps
erase_plugin-others t [] d = refl
erase_plugin-others t (p ∷ ps) (h, d) = elim (Bool-cases (p.handle == t)) [
  | inl e ↦
      let at : p.handle ≡ t = (==_iff p.handle t).0 e in
      rw e (sym (others-away t ps (subst (λ n. All (λ m. m ≢ n) (handles ps)) at h)))
  | inr e ↦ rw e (ap (λ qs. p ∷ qs) (erase_plugin-others t ps d))
]

others-none : (t : ℕ) (ps : List Plugin) → find (λ p. p.handle == t) ps ≡ none → ps ≡ others t ps
others-none t [] e = refl
others-none t (p ∷ ps) e = elim (Bool-cases (p.handle == t)) [
  | inl h ↦ absurd (ground arith)
  | inr h ↦ rw h (ap (λ qs. p ∷ qs) (others-none t ps (ground arith)))
]

disable_record-others :
    (t : ℕ) (host : Host)
    → Distinct (handles host.plugins)
    → (disable_record t host).plugins ≡ others t host.plugins
unfolding plugin_by_handle
disable_record-others t host d = elim (Option-cases (plugin_by_handle host t)) [
  | inl e ↦ rw e (others-none t host.plugins e)
  | inr (p, e) ↦ rw e (erase_plugin-others t host.plugins d)
]

-- The record goes to the disabled plugins or for good, and no other does.
pub gone :
    (b : Bool) (t : ℕ) (host : Host)
    → Distinct (handles host.plugins)
    → (if b then disable_record t host else remove_plugin_record host t).plugins
      ≡ others t host.plugins
unfolding remove_plugin_record
gone true t host d = disable_record-others t host d
gone false t host d = refl

apart-others :
    (t n : ℕ) (ps : List Plugin)
    → All (λ m. m ≢ n) (handles ps)
    → All (λ m. m ≢ n) (handles (others t ps))
apart-others t n [] h = tt
apart-others t n (p ∷ ps) (h, hs) = elim (Bool-cases (p.handle == t)) [
  | inl e ↦ rw e (apart-others t n ps hs)
  | inr e ↦ rw e (h, apart-others t n ps hs)
]

Distinct-others :
    (t : ℕ) (ps : List Plugin) → Distinct (handles ps) → Distinct (handles (others t ps))
Distinct-others t [] d = tt
Distinct-others t (p ∷ ps) (h, d) = elim (Bool-cases (p.handle == t)) [
  | inl e ↦ rw e (Distinct-others t ps d)
  | inr e ↦ rw e (apart-others t p.handle ps h, Distinct-others t ps d)
]

-- No plugin in a transition is the target of a dependency that is met.
module _ (t : ℕ) (ps : List Plugin) (p : Plugin) (sound : Sound ps)
    (found : plugin_in t ps ≡ some p) (moving : p.transitioning ≡ true) where
  away_of : (x : Plugin) → (x.handle ≢ t) ⊎ (x ≡ p) → x.transitioning ≡ false → x.handle ≢ t
  away_of x (inl away) still = away
  away_of x (inr same) still =
      absurd (clash (sym moving ∙ (ap (λ y. y.transitioning) (sym same) ∙ still)))

  All-Served :
      (h : ℕ) (ds : List Dependency) → All (Served ps h) ds → All (Served (others t ps) h) ds
  All-Served h [] a = tt
  All-Served h (d ∷ ds) ((x, e, other, version, runs, still), a) =
      let only = only_record t ps p sound.1 found in
      let away = away_of x (find-All (λ q. (q.handle ≢ t) ⊎ (q ≡ p)) _ ps x only e) still in
      ((x, find-filter _ t ps x e away, other, version, runs, still), All-Served h ds a)

  ready_still :
      (q : Plugin)
      → is_ready (check_dependencies ps q.handle q.dependencies) ≡ true
      → is_ready (check_dependencies (others t ps) q.handle q.dependencies) ≡ true
  ready_still q r =
      check_complete (others t ps) q.handle q.dependencies
        (All-Served q.handle q.dependencies (check_sound ps q.handle q.dependencies r))

  all_healthy :
      (qs : List Plugin)
      → all (healthy_in ps) qs ≡ true
      → all (healthy_in (others t ps)) (others t qs) ≡ true
  all_healthy [] h = refl
  all_healthy (q ∷ qs) h = ground (arith, ready_still q, all_healthy qs)

  pub others-Sound : Sound (others t ps)
  others-Sound = (all_healthy ps sound.0, Distinct-others t ps sound.1)

pub others-Kept :
    (t k : ℕ) (q : Plugin) (ps : List Plugin) → k ≢ t → Kept k q ps → Kept k q (others t ps)
others-Kept t k q ps away (x, e, s, m, a) =
    let here : x.handle ≡ k = (==_iff x.handle k).0 (find-found (λ y. y.handle == k) ps x e) in
    (x, find-filter (λ y. y.handle == k) t ps x e (λ z. away (sym here ∙ z)), s, m, a)

-- The plugin is gone, and what others may not touch is as it was.
abbrev pub Gone : ℕ → List Plugin → List Plugin → Type 0
Gone t ps qs =
    Sound qs × ((k : ℕ) (q : Plugin) → k ≢ t → plugin_in k ps ≡ some q → IsHeld q → Kept k q qs)

pub others-Gone :
    (t : ℕ) (s : PluginState) (takes : Bool) (ps qs : List Plugin)
    → Step t s true takes ps qs
    → Gone t ps (others t qs)
others-Gone t s takes ps qs (sound, (p, e, es, em, eo), kept) = (
  others-Sound t qs p sound e em,
  (λ k q away found held. others-Kept t k q qs away (kept k q away found held)),
)
